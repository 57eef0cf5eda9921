-- ===== src/Diff/Exclusion/Accounting.antt =====
-- The counts of the exclusion outcomes.
use piace.Base.{
  ℕ, suc, ◌+◌, ◌<◌, String, Bool, true, false, Option, none, some, List, [], ◌∷◌, map, keep,
  contains, string_eq, if◌then◌else◌, lookup, arith, ◌≡◌, refl, inl, inr, All, Bool-cases,
  Option-cases, length, ◌∙◌,
}
use piace.Model.Catalog.{ResourceIdentity, identity_eq, Edge}
use piace.Model.Change.{EdgeChange, ExclusionOutcome}
use piace.Config.{ExclusionRule}
use piace.Diff.Raw.{RawChange}
use piace.Diff.Exclusion.{
  Matcher, matches_exclusion_rule, first_rule, RuleMap, prepend_rule, excluded_rules,
  excluded_strings, resource_step, resource_loop, endpoint_rule, suppressing_rule, edge_step,
  edge_loop, run_exclusions, apply_exclusions, update, count_kind, count_edge, no_counts,
  has_effect,
}
use piace.Diff.Exclusion.Counts.{
  suppressed, total, is_resource_kind, InRange, length-update, total-update, suppressed-count_kind,
  suppressed-count_edge, lookup-InRange,
}

module _ (n : ℕ) (m : RuleMap) (range : InRange n m) where
  resource_loop-total :
      (changes : List RawChange) (counts : List ExclusionOutcome)
      → length counts ≡ n
      → All (λ c. is_resource_kind c.kind ≡ true) changes
      → (length (resource_loop m changes counts).1 ≡ n)
        × (length (resource_loop m changes counts).0 + total (resource_loop m changes counts).1
            ≡ length changes + total counts)
  unfolding resource_loop resource_step
  resource_loop-total [] counts l ks = (l, refl)
  resource_loop-total (c ∷ changes) counts l (k, ks) = elim (Option-cases (lookup c.identity m)) [
    | inl e ↦ let (l', t) = resource_loop-total changes counts l ks in rw e (l', omega (arith, t))
    | inr (i, e) ↦
        let (l', t) =
          resource_loop-total changes (update (count_kind c.kind) i counts)
            (length-update (count_kind c.kind) i counts ∙ l) ks in
        let counted =
          total-update (count_kind c.kind) (λ o. suppressed-count_kind c.kind o k) i counts
            (omega (arith, l, lookup-InRange n m c.identity i range e)) in
        rw e (l', omega (arith, t, counted))
  ]

endpoint_rule-InRange :
    (n : ℕ) (m : RuleMap) (s : String) → 0 < n → InRange n m → endpoint_rule m s < n
unfolding endpoint_rule
endpoint_rule-InRange n [] s h r = h
endpoint_rule-InRange n ((j, k) ∷ m) s h (k<n, r) = ground (arith, endpoint_rule-InRange n m s h r)

module _ (n : ℕ) (positive : 0 < n) (m : RuleMap) (range : InRange n m) where
  suppressing_rule-InRange : (e : Edge) (s t : Bool) → suppressing_rule m e s t < n
  unfolding suppressing_rule
  suppressing_rule-InRange e true true = ground (
    arith,
    endpoint_rule-InRange n m e.source positive range,
    endpoint_rule-InRange n m e.target positive range,
  )
  suppressing_rule-InRange e true false = endpoint_rule-InRange n m e.source positive range
  suppressing_rule-InRange e false t = endpoint_rule-InRange n m e.target positive range

  module _ (c : EdgeChange) (changes : List EdgeChange)
      (rest : (cs : List ExclusionOutcome)
        → length cs ≡ n
        → length (edge_loop m changes cs).0 + total (edge_loop m changes cs).1
          ≡ length changes + total cs)
      (counts : List ExclusionOutcome) (l : length counts ≡ n) where
    edge_counted :
        (s t : Bool)
        → length (edge_loop m changes (update count_edge (suppressing_rule m c.edge s t) counts)).0
            + total
                (edge_loop m changes (update count_edge (suppressing_rule m c.edge s t) counts)).1
          ≡ suc (length changes) + total counts
    edge_counted s t = omega (
      arith,
      rest (update count_edge (suppressing_rule m c.edge s t) counts)
          (length-update count_edge (suppressing_rule m c.edge s t) counts ∙ l),
      total-update count_edge suppressed-count_edge (suppressing_rule m c.edge s t) counts
          (omega (arith, l, suppressing_rule-InRange c.edge s t)),
    )

    edge_step-total :
        (s t : Bool)
        → length (edge_step m c s t (edge_loop m changes) counts).0
            + total (edge_step m c s t (edge_loop m changes) counts).1
          ≡ suc (length changes) + total counts
    unfolding edge_step
    edge_step-total false false = omega (arith, rest counts l)
    edge_step-total true t = edge_counted true t
    edge_step-total false true = edge_counted false true

  edge_loop-total :
      (changes : List EdgeChange) (counts : List ExclusionOutcome)
      → length counts ≡ n
      → length (edge_loop m changes counts).0 + total (edge_loop m changes counts).1
        ≡ length changes + total counts
  unfolding edge_loop
  edge_loop-total [] counts l = refl
  edge_loop-total (c ∷ changes) counts l =
      edge_step-total c changes (λ cs k. edge_loop-total changes cs k) counts l
        (contains c.edge.source (excluded_strings m)) (contains c.edge.target (excluded_strings m))

module _ (path_match : Matcher) where
  first_rule-bound :
      (i : ℕ) (rs : List ExclusionRule) (identity : ResourceIdentity) (j : ℕ)
      → first_rule path_match i rs identity ≡ some j
      → j < i + length rs
  unfolding first_rule
  first_rule-bound i [] identity j h = absurd cc
  first_rule-bound i (r ∷ rs) identity j h =
      first (matches_exclusion_rule path_match r identity)
        (first_rule path_match (suc i) rs identity) h (first_rule-bound (suc i) rs identity j)
    where
      first :
          (b : Bool) (o : Option ℕ)
          → (if b then some i else o) ≡ some j
          → (o ≡ some j → j < suc i + length rs)
          → j < i + suc (length rs)
      first true o e later = let p : i ≡ j = cc in omega (arith, p)
      first false o e later = omega (arith, later e)

  prepend_rule-InRange :
      (n : ℕ) (a : ResourceIdentity) (o : Option ℕ) (m : RuleMap)
      → ((i : ℕ) → o ≡ some i → i < n)
      → InRange n m
      → InRange n (prepend_rule a o m)
  unfolding prepend_rule
  prepend_rule-InRange n a none m h r = r
  prepend_rule-InRange n a (some i) m h r = (h i refl, r)

  excluded_rules-InRange :
      (rules : List ExclusionRule) (ids : List ResourceIdentity)
      → InRange (length rules) (excluded_rules path_match rules ids)
  unfolding excluded_rules
  excluded_rules-InRange rules [] = tt
  excluded_rules-InRange rules (a ∷ ids) =
      prepend_rule-InRange (length rules) a (first_rule path_match 0 rules a)
        (excluded_rules path_match rules ids) (λ i h. omega (arith, first_rule-bound 0 rules a i h))
        (excluded_rules-InRange rules ids)

no_counts-total : (rules : List ExclusionRule) → total (map no_counts rules) ≡ 0
unfolding no_counts
no_counts-total [] = refl
no_counts-total (r ∷ rules) = omega (arith, no_counts-total rules)

length-no_counts : (rules : List ExclusionRule) → length (map no_counts rules) ≡ length rules
length-no_counts [] = refl
length-no_counts (r ∷ rules) = omega (arith, length-no_counts rules)

has_effect-suppressed : (c : ExclusionOutcome) → has_effect c ≡ false → suppressed c ≡ 0
unfolding has_effect
has_effect-suppressed c h = ground arith

total-keep : (cs : List ExclusionOutcome) → total (keep has_effect cs) ≡ total cs
total-keep [] = refl
total-keep (c ∷ cs) = elim (Bool-cases (has_effect c)) [
  | inl e ↦ rw e (omega (arith, total-keep cs))
  | inr e ↦ rw e (omega (arith, total-keep cs, has_effect-suppressed c e))
]

-- Exclusion loses nothing: every change is either kept or counted once in the outcome of one rule,
-- so the kept changes and the counts add up to the changes that came in, where the raw changes are
-- of resource and parameter kinds.
pub apply_exclusions-conserves :
    (path_match : Matcher) (rules : List ExclusionRule) (changes : List RawChange)
    (edges : List EdgeChange) (ids : List ResourceIdentity)
    → All (λ c. is_resource_kind c.kind ≡ true) changes
    → length (apply_exclusions path_match rules changes edges ids).resource_changes
        + (length (apply_exclusions path_match rules changes edges ids).edge_changes
            + total (apply_exclusions path_match rules changes edges ids).outcomes)
      ≡ length changes + length edges
unfolding apply_exclusions run_exclusions
apply_exclusions-conserves path_match [] changes edges ids kinds = omega arith
apply_exclusions-conserves path_match (r ∷ rs) changes edges ids kinds =
    let rules = r ∷ rs in
    let m = excluded_rules path_match rules ids in
    let range = excluded_rules-InRange path_match rules ids in
    let start = map no_counts rules in
    let (l, t) =
      resource_loop-total (length rules) m range changes start (length-no_counts rules) kinds in
    let counts = (resource_loop m changes start).1 in
    omega (
      arith,
      t,
      edge_loop-total (length rules) (omega arith) m range edges counts l,
      total-keep (edge_loop m edges counts).1,
      no_counts-total rules,
    )
