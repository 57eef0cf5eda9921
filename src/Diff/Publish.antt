-- ===== src/Diff/Publish.antt =====
-- internal/diff/redact.go: the only conversion of raw changes to the changes of a report.
pub mod Laws
pub mod Shown
use piace.Base.{
  String, Bool, true, false, not, ◌&&◌, ◌||◌, Option, none, some, List, [], ◌∷◌, map, any, contains,
  ◌==◌, string_eq, if◌then◌else◌, is_some, lookup,
}
use piace.Model.Value.{Value, null, str, obj, Fields, end, at, map_fields, get}
use piace.Model.Disclosure.{content_bearing_parameters, is_content_bearing, contains_sensitive}
use piace.Model.Catalog.{ResourceIdentity, identity_eq, Resource, FileContentEvidence}
use piace.Model.Change.{ChangeKind, ResourceChange, redacted_value}
use piace.Config.{RedactionSelector}
use piace.Diff.Raw.{RawChange}
use piace.Diff.Redact.{marker, both_masked, redact_pair}
use piace.Diff.Resources.{Index, is_file}

unfoldable pub matches_redaction_selector : List RedactionSelector → String → String → Bool
matches_redaction_selector selectors type parameter =
    if parameter == ""
    then false
    else any (λ s. s.type == type && s.parameter == parameter) selectors

unfoldable pub parameter_sensitive : Resource → String → Bool
parameter_sensitive r name = contains name r.sensitive_parameters

-- A resource of a map of the source; for a missing one the zero value, which has no parameters.
unfoldable pub sensitive_at : Option Resource → String → Bool
unfolding parameter_sensitive
sensitive_at none name = false
sensitive_at (some r) name = parameter_sensitive r name

unfoldable pub parameters_at : Option Resource → Fields
parameters_at none = end
parameters_at (some r) = r.parameters

-- `selected`, for one parameter.
unfoldable pub is_selected :
    List RedactionSelector → Option Resource → Option Resource → String → String → Bool
unfolding sensitive_at matches_redaction_selector
is_selected selectors br ar type name =
    sensitive_at br name || sensitive_at ar name || matches_redaction_selector selectors type name

-- `selected`, after the loop over the content-bearing parameters.
unfoldable pub content_selected :
    List RedactionSelector → Option Resource → Option Resource → String → List String → Bool
unfolding is_selected sensitive_at parameters_at contains_sensitive get matches_redaction_selector
content_selected selectors br ar type [] = false
content_selected selectors br ar type (name ∷ names) =
    is_selected selectors br ar type name
    || contains_sensitive (at name (parameters_at br))
    || contains_sensitive (at name (parameters_at ar))
    || content_selected selectors br ar type names

-- The test of `publishParameters`.
unfoldable pub is_withheld : List RedactionSelector → Resource → String → Bool
unfolding parameter_sensitive matches_redaction_selector is_content_bearing
is_withheld selectors r name =
    (is_file r.identity && is_content_bearing name)
    || parameter_sensitive r name
    || matches_redaction_selector selectors r.identity.type name

published_value : Bool → Value → Value
unfolding redact_pair
published_value true value = marker
published_value false value = (redact_pair value value).0

unfoldable pub publish_parameters : List RedactionSelector → Resource → Fields
unfolding is_withheld published_value map_fields
publish_parameters selectors r =
    map_fields (λ name value. published_value (is_withheld selectors r name) value) r.parameters

published_map : List RedactionSelector → Option Resource → Value
unfolding publish_parameters
published_map selectors none = obj end
published_map selectors (some r) = obj (publish_parameters selectors r)

published_pair : Bool → RawChange → Value × Value
unfolding redact_pair
published_pair true raw = both_masked
published_pair false raw = redact_pair raw.before raw.after

parameter_pair : Bool → Option FileContentEvidence → RawChange → Value × Value
unfolding published_pair
parameter_pair selected none raw = published_pair selected raw
parameter_pair selected (some evidence) raw = (null, null)

-- The `switch` on the kind: the values of both sides.
unfoldable pub published_values :
    List RedactionSelector
    → Option Resource
    → Option Resource
    → ChangeKind
    → RawChange
    → Value × Value
unfolding published_map parameter_pair is_selected
published_values selectors br ar ChangeKind.resource_added raw = (null, published_map selectors ar)
published_values selectors br ar ChangeKind.resource_removed raw =
    (published_map selectors br, null)
published_values selectors br ar ChangeKind.parameter_changed raw =
    parameter_pair (is_selected selectors br ar raw.identity.type raw.parameter) raw.file_content
      raw
published_values selectors br ar ChangeKind.edge_added raw = (null, null)
published_values selectors br ar ChangeKind.edge_removed raw = (null, null)

unfoldable pub masked_if : Bool → String → String
masked_if true digest = redacted_value
masked_if false digest = digest

unfoldable pub mask_evidence : Bool → FileContentEvidence → FileContentEvidence
unfolding masked_if
mask_evidence false e = e
mask_evidence true e = record e {
  algorithm = "";
  before_digest = masked_if (is_some e.before) e.before_digest;
  after_digest = masked_if (is_some e.after) e.after_digest;
  redacted = true;
}

unfoldable pub published_evidence : Bool → Option FileContentEvidence → Option FileContentEvidence
unfolding mask_evidence
published_evidence selected none = none
published_evidence selected (some e) = some (mask_evidence selected e)

unfoldable pub publish_change : List RedactionSelector → Index → Index → RawChange → ResourceChange
unfolding published_values published_evidence is_selected content_selected
publish_change selectors before after raw =
    let br = lookup raw.identity before in
    let ar = lookup raw.identity after in
    let values = published_values selectors br ar raw.kind raw in
    record {
      kind = raw.kind;
      identity = raw.identity;
      parameter = raw.parameter;
      before = values.0;
      after = values.1;
      file_content =
          published_evidence
            (is_selected selectors br ar raw.identity.type raw.parameter
              || content_selected selectors br ar raw.identity.type content_bearing_parameters)
            raw.file_content;
      fingerprint = raw.fingerprint;
    }

unfoldable pub publish_changes :
    List RedactionSelector → List RawChange → Index → Index → List ResourceChange
unfolding publish_change
publish_changes selectors changes before after = map (publish_change selectors before after) changes
