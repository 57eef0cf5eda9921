-- ===== src/Diff/Exclusion/Laws.antt =====
-- What exclusion keeps.
use piace.Base.{
  ℕ, suc, String, Bool, true, false, not, ◌&&◌, ◌||◌, Option, none, some, List, [], ◌∷◌, keep,
  contains, any, ◌==◌, string_eq, lookup, is_some, arith, ◌≡◌, refl, inl, inr, All, All-map, All-of,
  keep_congr, keep-All, beq-cases, Bool-cases, Option-cases, ◌∙◌, sym, ap,
}
use piace.Model.Catalog.{ResourceIdentity, identity_eq, to_string}
use piace.Model.Change.{EdgeChange, ExclusionOutcome}
use piace.Config.{ExclusionRule}
use piace.Diff.Raw.{RawChange}
use piace.Diff.Exclusion.{
  Matcher, matches_exclusion_rule, first_rule, RuleMap, prepend_rule, excluded_rules,
  excluded_strings, resource_step, resource_loop, edge_step, edge_loop, apply_exclusions, update,
  count_kind,
}

-- Some rule matches the identity.
abbrev pub is_excluded : Matcher → List ExclusionRule → ResourceIdentity → Bool
is_excluded path_match rules identity =
    any (λ rule. matches_exclusion_rule path_match rule identity) rules

module _ (path_match : Matcher) (rules : List ExclusionRule) where
  first_rule-is_some :
      (i : ℕ) (rs : List ExclusionRule) (identity : ResourceIdentity)
      → is_some (first_rule path_match i rs identity) ≡ is_excluded path_match rs identity
  unfolding first_rule
  first_rule-is_some i [] identity = refl
  first_rule-is_some i (r ∷ rs) identity =
      elim (Bool-cases (matches_exclusion_rule path_match r identity)) [
        | inl e ↦ rw e
        | inr e ↦ rw e (first_rule-is_some (suc i) rs identity)
      ]

  lookup-prepend :
      (a b : ResourceIdentity) (o : Option ℕ) (m : RuleMap)
      → is_some (lookup b (prepend_rule a o m)) ≡ ((a == b && is_some o) || is_some (lookup b m))
  unfolding prepend_rule
  lookup-prepend a b none m = ground arith
  lookup-prepend a b (some i) m = elim (Bool-cases (a == b)) [ inl e ↦ rw e | inr e ↦ rw e ]

  lookup-excluded_rules :
      (ids : List ResourceIdentity) (identity : ResourceIdentity)
      → is_some (lookup identity (excluded_rules path_match rules ids))
        ≡ (contains identity ids && is_excluded path_match rules identity)
  unfolding excluded_rules
  lookup-excluded_rules [] identity = refl
  lookup-excluded_rules (a ∷ ids) identity =
      let step =
        lookup-prepend a identity (first_rule path_match 0 rules a)
          (excluded_rules path_match rules ids) in
      elim (beq-cases a identity) [
        | inl (e, p) ↦ ground (
          arith,
          step,
          first_rule-is_some 0 rules a,
          lookup-excluded_rules ids identity,
          ap (is_excluded path_match rules) p,
        )
        | inr (e, _) ↦ ground (arith, step, lookup-excluded_rules ids identity)
      ]

resource_loop-keeps :
    (m : RuleMap) (changes : List RawChange) (counts : List ExclusionOutcome)
    → (resource_loop m changes counts).0 ≡ keep (λ c. not (is_some (lookup c.identity m))) changes
unfolding resource_loop resource_step
resource_loop-keeps m [] counts = refl
resource_loop-keeps m (c ∷ changes) counts = elim (Option-cases (lookup c.identity m)) [
  | inl e ↦ rw e (ap (λ cs. c ∷ cs) (resource_loop-keeps m changes counts))
  | inr (i, e) ↦ rw e (resource_loop-keeps m changes (update (count_kind c.kind) i counts))
]

edge_loop-keeps :
    (m : RuleMap) (changes : List EdgeChange) (counts : List ExclusionOutcome)
    → (edge_loop m changes counts).0
      ≡ keep
          (λ c.
            not (contains c.edge.source (excluded_strings m))
            && not (contains c.edge.target (excluded_strings m)))
          changes
unfolding edge_loop edge_step
edge_loop-keeps m [] counts = refl
edge_loop-keeps m (c ∷ changes) counts =
    elim (Bool-cases (contains c.edge.source (excluded_strings m))) [
      | inl e ↦ elim (Bool-cases (contains c.edge.target (excluded_strings m))) [
        | inl f ↦ rw (e, f) (edge_loop-keeps m changes _)
        | inr f ↦ rw (e, f) (edge_loop-keeps m changes _)
      ]
      | inr e ↦ elim (Bool-cases (contains c.edge.target (excluded_strings m))) [
        | inl f ↦ rw (e, f) (edge_loop-keeps m changes _)
        | inr f ↦ rw (e, f) (ap (λ cs. c ∷ cs) (edge_loop-keeps m changes counts))
      ]
    ]

-- Some excluded identity of the list reads like the endpoint.
abbrev pub names_excluded : Matcher → List ExclusionRule → List ResourceIdentity → String → Bool
names_excluded path_match rules ids endpoint =
    any (λ identity. to_string identity == endpoint && is_excluded path_match rules identity) ids

strings-prepend :
    (a : ResourceIdentity) (o : Option ℕ) (m : RuleMap) (s : String)
    → contains s (excluded_strings (prepend_rule a o m))
      ≡ ((to_string a == s && is_some o) || contains s (excluded_strings m))
unfolding prepend_rule excluded_strings
strings-prepend a none m s = ground arith
strings-prepend a (some i) m s = ground arith

strings-excluded_rules :
    (path_match : Matcher) (rules : List ExclusionRule) (ids : List ResourceIdentity) (s : String)
    → contains s (excluded_strings (excluded_rules path_match rules ids))
      ≡ names_excluded path_match rules ids s
unfolding excluded_rules excluded_strings
strings-excluded_rules path_match rules [] s = refl
strings-excluded_rules path_match rules (a ∷ ids) s = ground (
  arith,
  strings-prepend a (first_rule path_match 0 rules a) (excluded_rules path_match rules ids) s,
  first_rule-is_some path_match rules 0 rules a,
  strings-excluded_rules path_match rules ids s,
)

-- Exclusion keeps exactly the resource and parameter changes whose resource no rule matches, in
-- their order, where the identity list holds the identity of every change.
pub apply_exclusions-keeps_resources :
    (path_match : Matcher) (rules : List ExclusionRule) (changes : List RawChange)
    (edges : List EdgeChange) (ids : List ResourceIdentity)
    → All (λ c. contains c.identity ids ≡ true) changes
    → (apply_exclusions path_match rules changes edges ids).resource_changes
      ≡ keep (λ c. not (is_excluded path_match rules c.identity)) changes
unfolding apply_exclusions
apply_exclusions-keeps_resources path_match [] changes edges ids known =
    sym (keep-All _ changes (All-of (λ c. refl) changes))
apply_exclusions-keeps_resources path_match (rule ∷ rules) changes edges ids known =
    resource_loop-keeps (excluded_rules path_match (rule ∷ rules) ids) changes _
    ∙ keep_congr _ _ changes (
        All-map
          (λ c k. ground (arith, k, lookup-excluded_rules path_match (rule ∷ rules) ids c.identity))
          changes known)

names_excluded-no_rules :
    (path_match : Matcher) (ids : List ResourceIdentity) (s : String)
    → names_excluded path_match [] ids s ≡ false
names_excluded-no_rules path_match [] s = refl
names_excluded-no_rules path_match (a ∷ ids) s =
    ground (arith, names_excluded-no_rules path_match ids s)

-- Exclusion keeps exactly the edge changes neither of whose endpoints reads like an identity of the
-- list that some rule matches, in their order.
pub apply_exclusions-keeps_edges :
    (path_match : Matcher) (rules : List ExclusionRule) (changes : List RawChange)
    (edges : List EdgeChange) (ids : List ResourceIdentity)
    → (apply_exclusions path_match rules changes edges ids).edge_changes
      ≡ keep
          (λ c.
            not (names_excluded path_match rules ids c.edge.source)
            && not (names_excluded path_match rules ids c.edge.target))
          edges
unfolding apply_exclusions
apply_exclusions-keeps_edges path_match [] changes edges ids = sym (
    keep-All _ edges (
      All-of
        (λ c. ground (
          arith,
          names_excluded-no_rules path_match ids c.edge.source,
          names_excluded-no_rules path_match ids c.edge.target,
        ))
        edges))
apply_exclusions-keeps_edges path_match (rule ∷ rules) changes edges ids =
    edge_loop-keeps (excluded_rules path_match (rule ∷ rules) ids) edges _
    ∙ keep_congr _ _ edges (
        All-of
          (λ c. ground (
            arith,
            strings-excluded_rules path_match (rule ∷ rules) ids c.edge.source,
            strings-excluded_rules path_match (rule ∷ rules) ids c.edge.target,
          ))
          edges)
