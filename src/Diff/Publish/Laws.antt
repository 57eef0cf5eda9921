-- ===== src/Diff/Publish/Laws.antt =====
-- What a published change can show.
use piace.Base.{
  String, Bool, true, false, Option, none, some, List, ◌==◌, string_eq, ◌≡◌, refl, inl, inr,
  Bool-cases, lookup,
}
use piace.Model.Value.{Value, obj, Fields, end, field, get, at, map_fields}
use piace.Model.Disclosure.{contains_sensitive}
use piace.Model.Catalog.{identity_eq, Resource, FileContentEvidence}
use piace.Model.Change.{ChangeKind}
use piace.Config.{RedactionSelector}
use piace.Diff.Raw.{RawChange}
use piace.Diff.Redact.Safety.{redact_pair-IsSafe}
use piace.Diff.Resources.{Index}
use piace.Diff.Publish.{
  is_selected, is_withheld, published_value, publish_parameters, published_map, published_pair,
  parameter_pair, published_values, publish_change,
}

-- A value of a change that holds no Sensitive wrapper. The map of the parameters of an added or
-- removed resource is no value itself: a parameter may be called like a wrapper's key.
abbrev pub HidesSecrets : ChangeKind → Value → Type 0
HidesSecrets ChangeKind.resource_added (obj m) = (k : String) → contains_sensitive (at k m) ≡ false
HidesSecrets ChangeKind.resource_removed (obj m) =
    (k : String) → contains_sensitive (at k m) ≡ false
HidesSecrets _ v = contains_sensitive v ≡ false

at-map_fields :
    (g : String → Value → Value)
    → ((n : String) (v : Value) → contains_sensitive (g n v) ≡ false)
    → (k : String) (m : Fields) → contains_sensitive (at k (map_fields g m)) ≡ false
unfolding get map_fields contains_sensitive
at-map_fields g safe k end = refl
at-map_fields g safe k (field j v fs) = elim (Bool-cases (j == k)) [
  | inl e ↦ rw e (safe j v)
  | inr e ↦ rw e (at-map_fields g safe k fs)
]

published_value-IsSafe : (b : Bool) (v : Value) → contains_sensitive (published_value b v) ≡ false
unfolding published_value contains_sensitive
published_value-IsSafe true v = refl
published_value-IsSafe false v = (redact_pair-IsSafe v v).0

at-publish_parameters-IsSafe :
    (selectors : List RedactionSelector) (r : Resource) (k : String)
    → contains_sensitive (at k (publish_parameters selectors r)) ≡ false
unfolding publish_parameters
at-publish_parameters-IsSafe selectors r k =
    at-map_fields _ (λ n v. published_value-IsSafe (is_withheld selectors r n) v) k r.parameters

added_map-HidesSecrets :
    (selectors : List RedactionSelector) (o : Option Resource)
    → HidesSecrets ChangeKind.resource_added (published_map selectors o)
unfolding published_map get contains_sensitive
added_map-HidesSecrets selectors none = λ k. refl
added_map-HidesSecrets selectors (some r) = at-publish_parameters-IsSafe selectors r

removed_map-HidesSecrets :
    (selectors : List RedactionSelector) (o : Option Resource)
    → HidesSecrets ChangeKind.resource_removed (published_map selectors o)
unfolding published_map get contains_sensitive
removed_map-HidesSecrets selectors none = λ k. refl
removed_map-HidesSecrets selectors (some r) = at-publish_parameters-IsSafe selectors r

BothHide : ChangeKind → Value × Value → Type 0
BothHide kind p = HidesSecrets kind p.0 × HidesSecrets kind p.1

parameter_pair-BothHide :
    (b : Bool) (o : Option FileContentEvidence) (raw : RawChange)
    → BothHide ChangeKind.parameter_changed (parameter_pair b o raw)
unfolding BothHide parameter_pair published_pair contains_sensitive
parameter_pair-BothHide b (some evidence) raw = (refl, refl)
parameter_pair-BothHide true none raw = (refl, refl)
parameter_pair-BothHide false none raw = redact_pair-IsSafe raw.before raw.after

published_values-BothHide :
    (selectors : List RedactionSelector) (br ar : Option Resource) (kind : ChangeKind)
    (raw : RawChange)
    → BothHide kind (published_values selectors br ar kind raw)
unfolding BothHide published_values contains_sensitive
published_values-BothHide selectors br ar ChangeKind.resource_added raw =
    (refl, added_map-HidesSecrets selectors ar)
published_values-BothHide selectors br ar ChangeKind.resource_removed raw =
    (removed_map-HidesSecrets selectors br, refl)
published_values-BothHide selectors br ar ChangeKind.parameter_changed raw =
    parameter_pair-BothHide (is_selected selectors br ar raw.identity.type raw.parameter)
      raw.file_content raw
published_values-BothHide selectors br ar ChangeKind.edge_added raw = (refl, refl)
published_values-BothHide selectors br ar ChangeKind.edge_removed raw = (refl, refl)

-- No value of a published change holds a Sensitive wrapper at any depth: neither value of a changed
-- parameter, and no parameter of an added or removed resource, whatever the raw change, the
-- selectors and the two resource maps are.
pub publish_change-HidesSecrets :
    (selectors : List RedactionSelector) (before after : Index) (raw : RawChange)
    → HidesSecrets raw.kind (publish_change selectors before after raw).before
      × HidesSecrets raw.kind (publish_change selectors before after raw).after
unfolding publish_change BothHide
publish_change-HidesSecrets selectors before after raw =
    published_values-BothHide selectors (lookup raw.identity before) (lookup raw.identity after)
      raw.kind raw
