-- ===== src/Impact/All/Wants.antt =====
-- Which targets of internal/impact/estimate_all.go want the estimate of a resource.
use piace.Base.{
  ℕ, suc, String, Bool, true, false, ◌&&◌, ◌||◌, not, Option, none, some, List, [], ◌∷◌, map, ◌==◌,
  string_eq, if◌then◌else◌, lookup, contains, any, IsNodup, ◌≡◌, refl, sym, ap, arith, inl, inr,
  Bool-cases, beq-cases, subst, ◌∙◌,
}
use piace.Config.{Target}
use piace.Model.Catalog.{ResourceIdentity, identity_eq}
use piace.Model.Change.{ChangeKind, ResourceChange, NodeDiff}
use piace.Impact.Querier.{Limits}
use piace.Impact.All.{TargetPolicy, Winner, put, Policies, policy_of, policies, is_edge_kind}
use piace.Impact.All.Laws.{shows}
use piace.Impact.All.First.{winner_of, grants}

-- A change of a resource or of one of its parameters, and of no edge.
abbrev pub changes_resource : ChangeKind → Bool
changes_resource ChangeKind.resource_added = true
changes_resource ChangeKind.resource_removed = true
changes_resource ChangeKind.parameter_changed = true
changes_resource ChangeKind.edge_added = false
changes_resource ChangeKind.edge_removed = false

-- The node with this certname shows a change of the resource.
abbrev pub is_changed_on : ResourceIdentity → List NodeDiff → String → Bool
is_changed_on i nds certname =
    any
      (λ nd.
        nd.certname == certname
        && any (λ c. changes_resource c.kind && c.identity == i) nd.resource_changes)
      nds

-- The target has the estimate enabled, and its node shows a change of the resource.
abbrev pub wants : ResourceIdentity → List NodeDiff → Target → Bool
wants i nds t = t.impact_estimate.enabled && is_changed_on i nds t.certname

-- The limits of the first target of the file that wants the estimate; zero if none does.
abbrev pub first_limits : ResourceIdentity → List NodeDiff → List Target → Limits
first_limits i nds [] = record { timeout = 0; result_limit = 0 }
first_limits i nds (t ∷ ts) =
    let rest = first_limits i nds ts in
    if wants i nds t
    then record {
      timeout = t.impact_estimate.timeout;
      result_limit = t.impact_estimate.result_limit;
    }
    else rest

-- The entry of a certname in the table of the targets from index `k`.
abbrev find : String → ℕ → List Target → Option TargetPolicy
find c k [] = none
find c k (t ∷ ts) =
    let rest = find c (suc k) ts in if t.certname == c then some (policy_of k t) else rest

abbrev or_else : Option TargetPolicy → Option TargetPolicy → Option TargetPolicy
or_else none o = o
or_else (some p) o = some p

lookup-put_policy :
    (c j : String) (p : TargetPolicy) (m : Policies)
    → lookup c (put j p m) ≡ (if j == c then some p else lookup c m)
unfolding put
lookup-put_policy c j p [] = refl
lookup-put_policy c j p ((k, v) ∷ m) = elim (beq-cases k j) [
  | inl (e, q) ↦ rw e (elim (beq-cases j c) [
    | inl (h, r) ↦ rw (ap (λ x. x == c) q, h) refl
    | inr (h, _) ↦ rw (ap (λ x. x == c) q, h) refl
  ])
  | inr (e, n) ↦ rw e (elim (beq-cases k c) [
    | inl (h, q) ↦ elim (beq-cases j c) [
      | inl (g, r) ↦ absurd (n (q ∙ sym r))
      | inr (g, _) ↦ rw (h, g) refl
    ]
    | inr (h, _) ↦ rw h (lookup-put_policy c j p m)
  ])
]

find-none :
    (c : String) (k : ℕ) (ts : List Target)
    → contains c (map (λ t. t.certname) ts) ≡ false
    → find c k ts ≡ none
find-none c k [] h = refl
find-none c k (t ∷ ts) h = elim (Bool-cases (t.certname == c)) [
  | inl e ↦ absurd (ground (arith, h, e))
  | inr e ↦ rw e (find-none c (suc k) ts (ground (arith, h)))
]

lookup-policies :
    (c : String) (k : ℕ) (ts : List Target) (m : Policies)
    → IsNodup (map (λ t. t.certname) ts)
    → lookup c (policies k ts m) ≡ or_else (find c k ts) (lookup c m)
unfolding policies
lookup-policies c k [] m h = refl
lookup-policies c k (t ∷ ts) m (n, h) =
    lookup-policies c (suc k) ts (put t.certname (policy_of k t) m) h
    ∙ elim (beq-cases t.certname c) [
      | inl (e, q) ↦
          rw
            (
              find-none c (suc k) ts
                  (subst (λ x. contains x (map (λ u. u.certname) ts) ≡ false) q n),
              lookup-put_policy c t.certname (policy_of k t) m,
              e,
            )
            refl
      | inr (e, _) ↦ rw (lookup-put_policy c t.certname (policy_of k t) m, e) refl
    ]

-- A change of the resource in the list.
abbrev shown_in : ResourceIdentity → List ResourceChange → Bool
shown_in i cs = any (λ c. changes_resource c.kind && c.identity == i) cs

resource_kind-eq : (k : ChangeKind) → not (is_edge_kind k) ≡ changes_resource k
unfolding is_edge_kind
resource_kind-eq ChangeKind.resource_added = refl
resource_kind-eq ChangeKind.resource_removed = refl
resource_kind-eq ChangeKind.parameter_changed = refl
resource_kind-eq ChangeKind.edge_added = refl
resource_kind-eq ChangeKind.edge_removed = refl

shows-eq : (i : ResourceIdentity) (cs : List ResourceChange) → shows i cs ≡ shown_in i cs
shows-eq i [] = refl
shows-eq i (c ∷ cs) = ground (arith, resource_kind-eq c.kind, shows-eq i cs)

abbrev pub winner_at : ℕ → Target → Winner
winner_at k t = winner_of (policy_of k t)

-- A target that passes the test, with an order and limits that pass the other.
abbrev pub any_at : (Winner → Bool) → (Target → Bool) → ℕ → List Target → Bool
any_at T w k [] = false
any_at T w k (t ∷ ts) = (w t && T (winner_at k t)) || any_at T w (suc k) ts

abbrev named : String → Bool → Target → Bool
named c b t = t.impact_estimate.enabled && (c == t.certname && b)

module _ (T : Winner → Bool) where
  any_at-missing :
      (c : String) (b : Bool) (k : ℕ) (ts : List Target)
      → contains c (map (λ t. t.certname) ts) ≡ false
      → any_at T (named c b) k ts ≡ false
  any_at-missing c b k [] h = refl
  any_at-missing c b k (t ∷ ts) h =
      ground
        (arith, h, any_at-missing c b (suc k) ts, beq-cases c t.certname, beq-cases t.certname c)

  any_at-never :
      (g : Target → Bool) (k : ℕ) (ts : List Target) → any_at T (λ t. g t && false) k ts ≡ false
  any_at-never g k [] = refl
  any_at-never g k (t ∷ ts) = ground (arith, any_at-never g (suc k) ts)

  any_at-or :
      (g f h : Target → Bool) (k : ℕ) (ts : List Target)
      → (any_at T (λ t. g t && f t) k ts || any_at T (λ t. g t && h t) k ts)
        ≡ any_at T (λ t. g t && (f t || h t)) k ts
  any_at-or g f h k [] = refl
  any_at-or g f h k (t ∷ ts) = ground (arith, any_at-or g f h (suc k) ts)

  any_at-any :
      (g : Target → Bool) (f : NodeDiff → Target → Bool) (k : ℕ) (ts : List Target)
      (nds : List NodeDiff)
      → any (λ nd. any_at T (λ t. g t && f nd t) k ts) nds
        ≡ any_at T (λ t. g t && any (λ nd. f nd t) nds) k ts
  any_at-any g f k ts [] = sym (any_at-never g k ts)
  any_at-any g f k ts (nd ∷ nds) =
      ap (λ b. any_at T (λ t. g t && f nd t) k ts || b) (any_at-any g f k ts nds)
      ∙ any_at-or g (f nd) (λ t. any (λ n. f n t) nds) k ts

  module _ (i : ResourceIdentity) where
    grants-find :
        (c : String) (cs : List ResourceChange) (k : ℕ) (ts : List Target)
        → IsNodup (map (λ t. t.certname) ts)
        → grants T i (find c k ts) cs ≡ any_at T (named c (shown_in i cs)) k ts
    unfolding policy_of
    grants-find c cs k [] h = refl
    grants-find c cs k (t ∷ ts) (n, h) = elim (beq-cases t.certname c) [
      | inl (e, q) ↦
          let missing =
            any_at-missing c (shown_in i cs) (suc k) ts
              (subst (λ x. contains x (map (λ u. u.certname) ts) ≡ false) q n) in
          rw e (ground (arith, missing, shows-eq i cs, e, beq-cases c t.certname))
      | inr (e, _) ↦ rw e (
          ground (
            arith,
            grants-find c cs (suc k) ts h,
            e,
            beq-cases c t.certname,
            beq-cases t.certname c,
          ))
    ]

    pub any-grants :
        (ts : List Target) (nds : List NodeDiff)
        → IsNodup (map (λ t. t.certname) ts)
        → any (λ nd. grants T i (lookup nd.certname (policies 0 ts [])) nd.resource_changes) nds
          ≡ any_at T (wants i nds) 0 ts
    any-grants ts nds h =
        each nds
        ∙ any_at-any (λ t. t.impact_estimate.enabled)
            (λ nd t. nd.certname == t.certname && shown_in i nd.resource_changes) 0 ts nds
      where
        at_node :
            (o : Option TargetPolicy) (nd : NodeDiff)
            → lookup nd.certname (policies 0 ts []) ≡ or_else o none
            → lookup nd.certname (policies 0 ts []) ≡ o
        at_node none nd p = p
        at_node (some x) nd p = p

        each :
            (nds : List NodeDiff)
            → any (λ nd. grants T i (lookup nd.certname (policies 0 ts [])) nd.resource_changes) nds
              ≡ any (λ nd. any_at T (named nd.certname (shown_in i nd.resource_changes)) 0 ts) nds
        each [] = refl
        each (nd ∷ nds) =
            let p = at_node (find nd.certname 0 ts) nd (lookup-policies nd.certname 0 ts [] h) in
            let q =
              ap (λ o. grants T i o nd.resource_changes) p
              ∙ grants-find nd.certname nd.resource_changes 0 ts h in
            ground (arith, q, each nds)
