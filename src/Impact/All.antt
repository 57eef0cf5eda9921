-- ===== src/Impact/All.antt =====
-- internal/impact/estimate_all.go: the estimates of a run. A map is the list of its entries, one for
-- each key; its iteration order is not relied on, since the identities are sorted.
pub mod Laws
pub mod Nodup
pub mod First
pub mod Wants
pub mod Asked
use piace.Base.{
  ℕ, suc, String, Bool, true, false, ◌||◌, Option, none, some, List, [], ◌∷◌, map, ◌==◌, string_eq,
  Eq, if◌then◌else◌, ltb, lookup, ◌≡◌,
}
use piace.Base.Sort.{sort}
use piace.Config.{Target}
use piace.Model.Catalog.{ResourceIdentity, identity_eq, identity_le}
use piace.Model.Diagnostic.{Diagnostic}
use piace.Model.Change.{ChangeKind, ResourceChange, NodeDiff}
use piace.Model.Result.{ImpactEstimate}
use piace.Impact.Querier.{Limits, limits_from}

pub record TargetPolicy : Type 0 where
  pub order : ℕ
  pub enabled : Bool
  pub limits : Limits

pub record Winner : Type 0 where
  pub order : ℕ
  pub limits : Limits

-- `m[k] = v`.
unfoldable pub put {ℓ κ} :
    {K : Type ℓ} {V : Type κ} ⦃e : Eq K⦄ → K → V → List (K × V) → List (K × V)
put k v [] = (k, v) ∷ []
put k v ((j, w) ∷ m) = let rest = put k v m in if j == k then (j, v) ∷ m else (j, w) ∷ rest

abbrev pub Policies : Type 0
Policies = List (String × TargetPolicy)

abbrev pub Selected : Type 0
Selected = List (ResourceIdentity × Winner)

unfoldable pub policy_of : ℕ → Target → TargetPolicy
unfolding limits_from
policy_of i t = record {
  order = i;
  enabled = t.impact_estimate.enabled;
  limits = limits_from t.impact_estimate;
}

-- The loop over the targets from index `i`.
unfoldable pub policies : ℕ → List Target → Policies → Policies
unfolding put policy_of
policies i [] m = m
policies i (t ∷ ts) m = policies (suc i) ts (put t.certname (policy_of i t) m)

unfoldable pub is_edge_kind : ChangeKind → Bool
is_edge_kind ChangeKind.edge_added = true
is_edge_kind ChangeKind.edge_removed = true
is_edge_kind ChangeKind.resource_added = false
is_edge_kind ChangeKind.resource_removed = false
is_edge_kind ChangeKind.parameter_changed = false

-- `!seen || policy.order < prior.order`.
unfoldable pub wins : TargetPolicy → Option Winner → Bool
wins p none = true
wins p (some prior) = ltb p.order prior.order

unfoldable pub select_one : TargetPolicy → ResourceIdentity → Selected → Selected
unfolding put wins
select_one p i m =
    if wins p (lookup i m) then put i (record { order = p.order; limits = p.limits }) m else m

-- The loop over the changes of a node.
unfoldable pub select_changes : TargetPolicy → List ResourceChange → Selected → Selected
unfolding is_edge_kind select_one
select_changes p [] m = m
select_changes p (c ∷ cs) m =
    if is_edge_kind c.kind
    then select_changes p cs m
    else select_changes p cs (select_one p c.identity m)

unfoldable pub select_node : Option TargetPolicy → List ResourceChange → Selected → Selected
unfolding select_changes
select_node none cs m = m
select_node (some p) cs m = if p.enabled then select_changes p cs m else m

-- The loop over the node diffs.
unfoldable pub select_nodes : Policies → List NodeDiff → Selected → Selected
unfolding select_node
select_nodes ps [] m = m
select_nodes ps (nd ∷ nds) m =
    select_nodes ps nds (select_node (lookup nd.certname ps) nd.resource_changes m)

-- `ImpactQuerier`, with what its documentation promises: an estimate is of the identity asked for.
pub record ImpactQuerier : Type 0 where
  pub estimate : ResourceIdentity → Limits → ImpactEstimate × Option Diagnostic
  pub estimate-identity : (i : ResourceIdentity) (l : Limits) → (estimate i l).0.identity ≡ i

unfoldable pub no_limits : Limits
no_limits = record { timeout = 0; result_limit = 0 }

-- `selected[identity].limits`; a missing key gives the zero value.
unfoldable pub limits_of : Option Winner → Limits
unfolding no_limits
limits_of none = no_limits
limits_of (some w) = w.limits

unfoldable pub with_diagnostic : Option Diagnostic → List Diagnostic → List Diagnostic
with_diagnostic none ds = ds
with_diagnostic (some d) ds = d ∷ ds

-- The loop over the identities.
unfoldable pub ask_each :
    ImpactQuerier → Selected → List ResourceIdentity → List ImpactEstimate × List Diagnostic
unfolding limits_of with_diagnostic
ask_each q m [] = ([], [])
ask_each q m (i ∷ is) =
    let found = q.estimate i (limits_of (lookup i m)) in
    let rest = ask_each q m is in (found.0 ∷ rest.0, with_diagnostic found.1 rest.1)

unfoldable pub keys : Selected → List ResourceIdentity
keys m = map (λ e. e.0) m

unfoldable pub selected : List Target → List NodeDiff → Selected
unfolding select_nodes policies
selected targets node_diffs = select_nodes (policies 0 targets []) node_diffs []

unfoldable pub estimate_all :
    ImpactQuerier → List Target → List NodeDiff → List ImpactEstimate × List Diagnostic
unfolding ask_each keys selected
estimate_all q targets node_diffs =
    ask_each q (selected targets node_diffs) (sort identity_le (keys (selected targets node_diffs)))
