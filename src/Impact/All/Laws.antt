-- ===== src/Impact/All/Laws.antt =====
-- Which identities internal/impact/estimate_all.go estimates, by its table of the policies.
use piace.Base.{
  Bool, true, false, ◌&&◌, ◌||◌, not, Option, none, some, List, [], ◌∷◌, map, ◌==◌, string_eq,
  lookup, contains, any, ◌≡◌, refl, ap, arith, inl, inr, Bool-cases, beq-cases, is_some,
}
use piace.Base.Sort.{sort, any-sort}
use piace.Config.{Target}
use piace.Model.Catalog.{ResourceIdentity, identity_eq, identity_le}
use piace.Model.Change.{ResourceChange, NodeDiff}
use piace.Impact.All.{
  TargetPolicy, Winner, put, Policies, Selected, policies, is_edge_kind, wins, select_one,
  select_changes, select_node, select_nodes, ImpactQuerier, limits_of, ask_each, keys, selected,
  estimate_all,
}

-- A node whose target has the estimate enabled shows a change of this resource, other than of an edge.
abbrev pub shows : ResourceIdentity → List ResourceChange → Bool
shows i [] = false
shows i (c ∷ cs) = (not (is_edge_kind c.kind) && c.identity == i) || shows i cs

abbrev pub policy_shows : ResourceIdentity → Option TargetPolicy → List ResourceChange → Bool
policy_shows i none cs = false
policy_shows i (some p) cs = p.enabled && shows i cs

abbrev pub exhibits : Policies → ResourceIdentity → NodeDiff → Bool
exhibits ps i nd = policy_shows i (lookup nd.certname ps) nd.resource_changes

module _ (i : ResourceIdentity) where
  pub contains-keys : (m : Selected) → contains i (keys m) ≡ is_some (lookup i m)
  unfolding keys
  contains-keys [] = refl
  contains-keys ((j, w) ∷ m) = ground (arith, contains-keys m)

  pub lookup-put-is_some :
      (j : ResourceIdentity) (w : Winner) (m : Selected)
      → is_some (lookup i (put j w m)) ≡ (j == i || is_some (lookup i m))
  unfolding put
  lookup-put-is_some j w [] = ground arith
  lookup-put-is_some j w ((k, v) ∷ m) = elim (beq-cases k j) [
    | inl (e, p) ↦ rw e (ground (arith, ap (λ x. x == i) p))
    | inr (e, _) ↦ rw e (ground (arith, lookup-put-is_some j w m))
  ]

  lookup-select_one-is_some :
      (p : TargetPolicy) (j : ResourceIdentity) (m : Selected)
      → is_some (lookup i (select_one p j m)) ≡ (j == i || is_some (lookup i m))
  unfolding select_one wins
  lookup-select_one-is_some p j m = elim (Bool-cases (wins p (lookup j m))) [
    | inl e ↦ rw e (lookup-put-is_some j (record { order = p.order; limits = p.limits }) m)
    | inr e ↦ rw e (elim (beq-cases j i) [
      | inl (h, q) ↦ ground (arith, h, losing p (lookup j m) e, ap (λ x. is_some (lookup x m)) q)
      | inr (h, _) ↦ ground (arith, h)
    ])
  ]
    where
      losing : (p : TargetPolicy) (o : Option Winner) → wins p o ≡ false → is_some o ≡ true
      losing p none h = absurd (cc)
      losing p (some w) h = refl

  lookup-select_changes :
      (p : TargetPolicy) (cs : List ResourceChange) (m : Selected)
      → is_some (lookup i (select_changes p cs m)) ≡ (shows i cs || is_some (lookup i m))
  unfolding select_changes
  lookup-select_changes p [] m = refl
  lookup-select_changes p (c ∷ cs) m = elim (Bool-cases (is_edge_kind c.kind)) [
    | inl e ↦ rw e (lookup-select_changes p cs m)
    | inr e ↦ rw e (
        ground (
          arith,
          lookup-select_changes p cs (select_one p c.identity m),
          lookup-select_one-is_some p c.identity m,
        ))
  ]

  lookup-select_node :
      (o : Option TargetPolicy) (cs : List ResourceChange) (m : Selected)
      → is_some (lookup i (select_node o cs m)) ≡ (policy_shows i o cs || is_some (lookup i m))
  unfolding select_node
  lookup-select_node none cs m = refl
  lookup-select_node (some p) cs m = elim (Bool-cases p.enabled) [
    | inl e ↦ rw e (lookup-select_changes p cs m)
    | inr e ↦ rw e refl
  ]

  lookup-select_nodes :
      (ps : Policies) (nds : List NodeDiff) (m : Selected)
      → is_some (lookup i (select_nodes ps nds m))
        ≡ (any (exhibits ps i) nds || is_some (lookup i m))
  unfolding select_nodes
  lookup-select_nodes ps [] m = refl
  lookup-select_nodes ps (nd ∷ nds) m = ground (
    arith,
    lookup-select_nodes ps nds (select_node (lookup nd.certname ps) nd.resource_changes m),
    lookup-select_node (lookup nd.certname ps) nd.resource_changes m,
  )

pub ask_each-identities :
    (q : ImpactQuerier) (m : Selected) (is : List ResourceIdentity)
    → map (λ e. e.identity) (ask_each q m is).0 ≡ is
unfolding ask_each
ask_each-identities q m [] = refl
ask_each-identities q m (i ∷ is) =
    rw (q.estimate-identity i (limits_of (lookup i m)), ask_each-identities q m is)

-- The resources that have an estimate, by the table of the policies.
pub estimate_all-exhibited :
    (q : ImpactQuerier) (targets : List Target) (nds : List NodeDiff) (i : ResourceIdentity)
    → contains i (map (λ e. e.identity) (estimate_all q targets nds).0)
      ≡ any (exhibits (policies 0 targets []) i) nds
unfolding estimate_all selected
estimate_all-exhibited q targets nds i =
    let m = select_nodes (policies 0 targets []) nds [] in
    ground (
      arith,
      ap (contains i) (ask_each-identities q m (sort identity_le (keys m))),
      any-sort identity_le (λ x. x == i) (keys m),
      contains-keys i m,
      lookup-select_nodes i (policies 0 targets []) nds [],
    )
