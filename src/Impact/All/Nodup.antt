-- ===== src/Impact/All/Nodup.antt =====
-- That internal/impact/estimate_all.go estimates no resource twice.
use piace.Base.{
  ◌||◌, Option, none, some, List, [], ◌∷◌, map, ◌==◌, string_eq, lookup, contains, IsNodup, ◌≡◌,
  refl, arith, inl, inr, Bool-cases, beq-cases,
}
use piace.Base.Sort.{sort, IsSorted, sort-IsSorted, sort-IsNodup}
use piace.Config.{Target}
use piace.Model.Catalog.{
  ResourceIdentity, identity_eq, identity_le, identity_le_total, identity_le_trans,
}
use piace.Model.Change.{ResourceChange, NodeDiff}
use piace.Impact.All.{
  TargetPolicy, Winner, put, Policies, Selected, policies, is_edge_kind, wins, select_one,
  select_changes, select_node, select_nodes, ImpactQuerier, keys, selected, estimate_all,
}
use piace.Impact.All.Laws.{contains-keys, lookup-put-is_some, ask_each-identities}
use piace.Impact.All.First.{winner_of}

contains-put :
    (k j : ResourceIdentity) (w : Winner) (m : Selected)
    → contains k (keys (put j w m)) ≡ (j == k || contains k (keys m))
contains-put k j w m =
    ground (arith, contains-keys k (put j w m), contains-keys k m, lookup-put-is_some k j w m)

put-IsNodup :
    (j : ResourceIdentity) (w : Winner) (m : Selected)
    → IsNodup (keys m)
    → IsNodup (keys (put j w m))
unfolding put keys
put-IsNodup j w [] h = (refl, tt)
put-IsNodup j w ((k, v) ∷ m) (n, h) = elim (beq-cases k j) [
  | inl (e, _) ↦ rw e (n, h)
  | inr (e, _) ↦ rw e (
    ground (arith, contains-put k j w m, n, e, beq-cases k j, beq-cases j k),
    put-IsNodup j w m h,
  )
]

select_one-IsNodup :
    (p : TargetPolicy) (j : ResourceIdentity) (m : Selected)
    → IsNodup (keys m)
    → IsNodup (keys (select_one p j m))
unfolding select_one
select_one-IsNodup p j m h = elim (Bool-cases (wins p (lookup j m))) [
  | inl e ↦ rw e (put-IsNodup j (winner_of p) m h)
  | inr e ↦ rw e h
]

select_changes-IsNodup :
    (p : TargetPolicy) (cs : List ResourceChange) (m : Selected)
    → IsNodup (keys m)
    → IsNodup (keys (select_changes p cs m))
unfolding select_changes
select_changes-IsNodup p [] m h = h
select_changes-IsNodup p (c ∷ cs) m h = elim (Bool-cases (is_edge_kind c.kind)) [
  | inl e ↦ rw e (select_changes-IsNodup p cs m h)
  | inr e ↦ rw e (select_changes-IsNodup p cs _ (select_one-IsNodup p c.identity m h))
]

select_node-IsNodup :
    (o : Option TargetPolicy) (cs : List ResourceChange) (m : Selected)
    → IsNodup (keys m)
    → IsNodup (keys (select_node o cs m))
unfolding select_node
select_node-IsNodup none cs m h = h
select_node-IsNodup (some p) cs m h = elim (Bool-cases p.enabled) [
  | inl e ↦ rw e (select_changes-IsNodup p cs m h)
  | inr e ↦ rw e h
]

select_nodes-IsNodup :
    (ps : Policies) (nds : List NodeDiff) (m : Selected)
    → IsNodup (keys m)
    → IsNodup (keys (select_nodes ps nds m))
unfolding select_nodes
select_nodes-IsNodup ps [] m h = h
select_nodes-IsNodup ps (nd ∷ nds) m h =
    select_nodes-IsNodup ps nds _
      (select_node-IsNodup (lookup nd.certname ps) nd.resource_changes m h)

-- The estimates are in ascending order of their resources, and no resource has two.
pub estimate_all-IsNodup :
    (q : ImpactQuerier) (targets : List Target) (nds : List NodeDiff)
    → IsSorted identity_le (map (λ e. e.identity) (estimate_all q targets nds).0)
      × IsNodup (map (λ e. e.identity) (estimate_all q targets nds).0)
unfolding estimate_all selected keys
estimate_all-IsNodup q targets nds =
    let m = selected targets nds in
    rw (ask_each-identities q m (sort identity_le (keys m))) (
      sort-IsSorted identity_le identity_le_total identity_le_trans (keys m),
      sort-IsNodup identity_le (keys m) (select_nodes-IsNodup (policies 0 targets []) nds [] tt),
    )
