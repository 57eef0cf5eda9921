-- ===== src/Impact/All/First.antt =====
-- Which policy wins a resource in internal/impact/estimate_all.go.
use piace.Base.{
  ℕ, Bool, true, false, ◌&&◌, ◌||◌, Option, none, some, List, [], ◌∷◌, ◌==◌, string_eq,
  if◌then◌else◌, leb, lookup, any, All, ◌≡◌, ap, arith, inl, inr, Bool-cases, beq-cases, subst,
}
use piace.Config.{Target}
use piace.Model.Catalog.{ResourceIdentity, identity_eq, identity_beq_iff}
use piace.Model.Change.{ResourceChange, NodeDiff}
use piace.Impact.All.{
  TargetPolicy, Winner, put, Policies, Selected, policies, is_edge_kind, wins, select_one,
  select_changes, select_node, select_nodes, selected,
}
use piace.Impact.All.Laws.{shows, policy_shows, exhibits}

abbrev pub holds : (Winner → Bool) → Option Winner → Bool
holds t none = false
holds t (some w) = t w

abbrev pub winner_of : TargetPolicy → Winner
winner_of p = record { order = p.order; limits = p.limits }

-- The policy shows the resource, and its order and limits pass the test.
abbrev pub grants :
    (Winner → Bool) → ResourceIdentity → Option TargetPolicy → List ResourceChange → Bool
grants t i none cs = false
grants t i (some p) cs = p.enabled && (shows i cs && t (winner_of p))

abbrev pub order_of : Option TargetPolicy → ℕ
order_of none = 0
order_of (some p) = p.order

module _ (i : ResourceIdentity) (t : Winner → Bool) where
  lookup-put :
      (j : ResourceIdentity) (w : Winner) (m : Selected)
      → holds t (lookup i (put j w m)) ≡ (if j == i then t w else holds t (lookup i m))
  unfolding put
  lookup-put j w [] = ground arith
  lookup-put j w ((k, v) ∷ m) = elim (beq-cases k j) [
    | inl (e, p) ↦ rw e (ground (arith, ap (λ x. x == i) p))
    | inr (e, n) ↦ rw e (elim (beq-cases k i) [
      | inl (h, q) ↦
          ground (arith, h, e, lookup-put j w m, ap (λ x. x == j) q, beq-cases i j, beq-cases j i)
      | inr (h, _) ↦ ground (arith, h, lookup-put j w m)
    ])
  ]

  holds-select_one :
      (p : TargetPolicy) (j : ResourceIdentity) (m : Selected)
      → holds t (lookup i (select_one p j m)) ≡ true
      → ((j == i && t (winner_of p)) || holds t (lookup i m)) ≡ true
  unfolding select_one
  holds-select_one p j m = elim (Bool-cases (wins p (lookup j m))) [
    | inl e ↦ rw e (λ h. ground (arith, h, lookup-put j (winner_of p) m))
    | inr e ↦ rw e (λ h. ground (arith, h))
  ]

  holds-select_changes :
      (p : TargetPolicy) (cs : List ResourceChange) (m : Selected)
      → holds t (lookup i (select_changes p cs m)) ≡ true
      → ((shows i cs && t (winner_of p)) || holds t (lookup i m)) ≡ true
  unfolding select_changes
  holds-select_changes p [] m = λ h. ground (arith, h)
  holds-select_changes p (c ∷ cs) m = elim (Bool-cases (is_edge_kind c.kind)) [
    | inl e ↦ rw e (λ h. holds-select_changes p cs m h)
    | inr e ↦ rw e (λ h. ground (
      arith,
      holds-select_changes p cs (select_one p c.identity m) h,
      holds-select_one p c.identity m,
    ))
  ]

  holds-select_node :
      (o : Option TargetPolicy) (cs : List ResourceChange) (m : Selected)
      → holds t (lookup i (select_node o cs m)) ≡ true
      → (grants t i o cs || holds t (lookup i m)) ≡ true
  unfolding select_node
  holds-select_node none cs m = λ h. h
  holds-select_node (some p) cs m = elim (Bool-cases p.enabled) [
    | inl e ↦ rw e (holds-select_changes p cs m)
    | inr e ↦ rw e (λ h. h)
  ]

  holds-select_nodes :
      (ps : Policies) (nds : List NodeDiff) (m : Selected)
      → holds t (lookup i (select_nodes ps nds m)) ≡ true
      → (any (λ nd. grants t i (lookup nd.certname ps) nd.resource_changes) nds
          || holds t (lookup i m))
        ≡ true
  unfolding select_nodes
  holds-select_nodes ps [] m h = h
  holds-select_nodes ps (nd ∷ nds) m h = ground (
    arith,
    holds-select_nodes ps nds (select_node (lookup nd.certname ps) nd.resource_changes m) h,
    holds-select_node (lookup nd.certname ps) nd.resource_changes m,
  )

abbrev pub at_most : ℕ → Winner → Bool
at_most n w = leb w.order n

module _ (i : ResourceIdentity) (n : ℕ) where
  abbrev Bounded : Selected → Type 0
  Bounded m = holds (at_most n) (lookup i m) ≡ true

  lower :
      (p : TargetPolicy) (o : Option Winner)
      → holds (at_most n) o ≡ true
      → wins p o ≡ true
      → leb p.order n ≡ true
  unfolding wins
  lower p none h k = absurd (cc)
  lower p (some w) h k = ground arith

  select_one-Bounded :
      (p : TargetPolicy) (j : ResourceIdentity) (m : Selected)
      → Bounded m
      → Bounded (select_one p j m)
  unfolding select_one
  select_one-Bounded p j m h = elim (Bool-cases (wins p (lookup j m))) [
    | inl e ↦ rw e (elim (beq-cases j i) [
      | inl (k, q) ↦ ground (
        arith,
        k,
        lower p (lookup i m) h (subst (λ x. wins p (lookup x m) ≡ true) q e),
        lookup-put i (at_most n) j (winner_of p) m,
      )
      | inr (k, _) ↦ ground (arith, k, h, lookup-put i (at_most n) j (winner_of p) m)
    ])
    | inr e ↦ rw e h
  ]

  select_changes-Bounded :
      (p : TargetPolicy) (cs : List ResourceChange) (m : Selected)
      → Bounded m
      → Bounded (select_changes p cs m)
  unfolding select_changes
  select_changes-Bounded p [] m h = h
  select_changes-Bounded p (c ∷ cs) m h = elim (Bool-cases (is_edge_kind c.kind)) [
    | inl e ↦ rw e (select_changes-Bounded p cs m h)
    | inr e ↦ rw e (select_changes-Bounded p cs _ (select_one-Bounded p c.identity m h))
  ]

  select_node-Bounded :
      (o : Option TargetPolicy) (cs : List ResourceChange) (m : Selected)
      → Bounded m
      → Bounded (select_node o cs m)
  unfolding select_node
  select_node-Bounded none cs m h = h
  select_node-Bounded (some p) cs m h = elim (Bool-cases p.enabled) [
    | inl e ↦ rw e (select_changes-Bounded p cs m h)
    | inr e ↦ rw e h
  ]

  select_nodes-Bounded :
      (ps : Policies) (nds : List NodeDiff) (m : Selected)
      → Bounded m
      → Bounded (select_nodes ps nds m)
  unfolding select_nodes
  select_nodes-Bounded ps [] m h = h
  select_nodes-Bounded ps (nd ∷ nds) m h =
      select_nodes-Bounded ps nds _
        (select_node-Bounded (lookup nd.certname ps) nd.resource_changes m h)

module _ (i : ResourceIdentity) where
  kept :
      (p : TargetPolicy) (o : Option Winner) → wins p o ≡ false → holds (at_most p.order) o ≡ true
  unfolding wins
  kept p none h = absurd (cc)
  kept p (some w) h = ground arith

  select_one-own :
      (p : TargetPolicy) (j : ResourceIdentity) (m : Selected)
      → (j == i) ≡ true
      → Bounded i p.order (select_one p j m)
  unfolding select_one
  select_one-own p j m k = elim (Bool-cases (wins p (lookup j m))) [
    | inl e ↦ rw e (ground (arith, k, lookup-put i (at_most p.order) j (winner_of p) m))
    | inr e ↦ rw e (
        subst (λ x. holds (at_most p.order) (lookup x m) ≡ true) ((identity_beq_iff j i).0 k)
          (kept p (lookup j m) e))
  ]

  select_changes-own :
      (p : TargetPolicy) (cs : List ResourceChange) (m : Selected)
      → shows i cs ≡ true
      → Bounded i p.order (select_changes p cs m)
  unfolding select_changes
  select_changes-own p [] m h = absurd (ground (arith, h))
  select_changes-own p (c ∷ cs) m h = elim (Bool-cases (is_edge_kind c.kind)) [
    | inl e ↦ rw e (select_changes-own p cs m (ground (arith, h, e)))
    | inr e ↦ rw e (elim (Bool-cases (c.identity == i)) [
      | inl k ↦ select_changes-Bounded i p.order p cs _ (select_one-own p c.identity m k)
      | inr k ↦ select_changes-own p cs _ (ground (arith, h, k))
    ])
  ]

  select_node-own :
      (o : Option TargetPolicy) (cs : List ResourceChange) (m : Selected)
      → policy_shows i o cs ≡ true
      → Bounded i (order_of o) (select_node o cs m)
  unfolding select_node
  select_node-own none cs m h = absurd (ground (arith, h))
  select_node-own (some p) cs m h = elim (Bool-cases p.enabled) [
    | inl e ↦ rw e (select_changes-own p cs m (ground (arith, h)))
    | inr e ↦ absurd (ground (arith, h, e))
  ]

  -- The selected order is at most that of each node that exhibits the resource.
  abbrev IsLeast : Policies → Selected → NodeDiff → Type 0
  IsLeast ps m nd = exhibits ps i nd ≡ true → Bounded i (order_of (lookup nd.certname ps)) m

  select_nodes-IsLeast :
      (ps : Policies) (nds : List NodeDiff) (m : Selected)
      → All (IsLeast ps (select_nodes ps nds m)) nds
  unfolding select_nodes
  select_nodes-IsLeast ps [] m = tt
  select_nodes-IsLeast ps (nd ∷ nds) m = (
    λ h.
        select_nodes-Bounded i (order_of (lookup nd.certname ps)) ps nds _
          (select_node-own (lookup nd.certname ps) nd.resource_changes m h),
    select_nodes-IsLeast ps nds (select_node (lookup nd.certname ps) nd.resource_changes m),
  )

  pub selected-first :
      (targets : List Target) (nds : List NodeDiff) (t : Winner → Bool)
      → holds t (lookup i (selected targets nds)) ≡ true
      → any (λ nd. grants t i (lookup nd.certname (policies 0 targets [])) nd.resource_changes) nds
        ≡ true
  unfolding selected
  selected-first targets nds t h =
      ground (arith, holds-select_nodes i t (policies 0 targets []) nds [] h)

  holds-at_most :
      (m n : ℕ) (o : Option Winner)
      → holds (at_most m) o ≡ true
      → leb m n ≡ true
      → holds (at_most n) o ≡ true
  holds-at_most m n none h k = h
  holds-at_most m n (some w) h k = ground (arith, h, k)

  grants-order :
      (n : ℕ) (o : Option TargetPolicy) (cs : List ResourceChange)
      → grants (at_most n) i o cs ≡ true
      → (policy_shows i o cs ≡ true) × (leb (order_of o) n ≡ true)
  grants-order n none cs h = absurd (ground (arith, h))
  grants-order n (some p) cs h = (ground (arith, h), ground (arith, h))

  IsLeast-any :
      (ps : Policies) (n : ℕ) (m : Selected) (nds : List NodeDiff)
      → All (IsLeast ps m) nds
      → any (λ nd. grants (at_most n) i (lookup nd.certname ps) nd.resource_changes) nds ≡ true
      → holds (at_most n) (lookup i m) ≡ true
  IsLeast-any ps n m [] h k = absurd (ground (arith, k))
  IsLeast-any ps n m (nd ∷ nds) (h, hs) k =
      elim (Bool-cases (grants (at_most n) i (lookup nd.certname ps) nd.resource_changes)) [
        | inl e ↦
            let (a, b) = grants-order n (lookup nd.certname ps) nd.resource_changes e in
            holds-at_most (order_of (lookup nd.certname ps)) n (lookup i m) (h a) b
        | inr e ↦ IsLeast-any ps n m nds hs (ground (arith, k, e))
      ]

  pub selected-least :
      (targets : List Target) (nds : List NodeDiff) (n : ℕ)
      → any
          (λ nd.
            grants (at_most n) i (lookup nd.certname (policies 0 targets [])) nd.resource_changes)
          nds
        ≡ true
      → holds (at_most n) (lookup i (selected targets nds)) ≡ true
  unfolding selected
  selected-least targets nds n h =
      IsLeast-any (policies 0 targets []) n (selected targets nds) nds
        (select_nodes-IsLeast (policies 0 targets []) nds []) h
