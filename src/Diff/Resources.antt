-- ===== src/Diff/Resources.antt =====
-- internal/diff/resources.go: the resource and parameter changes of two catalogs, before exclusion
-- and publication. A Go map from identities to resources is the list of its entries.
pub mod Identity
pub mod Parameters
pub mod Same
use piace.Base.{
  String, Bool, true, false, not, ◌&&◌, ◌||◌, Option, none, some, List, [], ◌∷◌, ◌++◌, map, keep,
  any, ◌==◌, string_eq, if◌then◌else◌, is_some, lookup,
}
use piace.Base.Order.{str_le}
use piace.Base.Sort.{sort}
use piace.Base.Distinct.{distinct}
use piace.Model.Value.{Value, null, obj, Fields, end, field, get, at, keys}
use piace.Model.Value.Equal.{deep_equal}
use piace.Model.Disclosure.{file_resource_type, content_bearing_parameters, is_content_bearing}
use piace.Model.Catalog.{
  ResourceIdentity, identity_eq, identity_le, Resource, ContentContext, FileContentState,
  FileContentEvidence,
}
use piace.Model.Change.{ChangeKind}
use piace.Model.Diagnostic.{Diagnostic}
use piace.FileContent.{Retriever, Side, Options, needs_evidence}
use piace.FileContent.Evidence.{resolve_membership_evidence, resolve_file_content_evidence}
use piace.Diff.Raw.{RawChange}
use piace.Diff.Fidelity.{Fidelity, equal_at, fidelity_diagnostic}

abbrev pub Index : Type 0
Index = List (ResourceIdentity × Resource)

-- A later resource of the same identity takes the place of an earlier one.
unfoldable pub index_resources : List Resource → Index
index_resources [] = []
index_resources (r ∷ rs) =
    let rest = index_resources rs in
    if is_some (lookup r.identity rest) then rest else (r.identity, r) ∷ rest

abbrev identities : Index → List ResourceIdentity
identities m = map (λ (identity, r). identity) m

unfoldable pub union_identities : Index → Index → List ResourceIdentity
unfolding distinct identity_le
union_identities a b = sort identity_le (distinct [] (identities a ++ identities b))

unfoldable pub union_parameter_names : Fields → Fields → List String
unfolding distinct
union_parameter_names a b = sort str_le (distinct [] (keys a ++ keys b))

content_fields : Fields → List String → Fields
content_fields p [] = end
content_fields p (name ∷ names) =
    let rest = content_fields p names in
    elim (get name p) [ none ↦ rest | some v ↦ field name v rest ]

unfoldable pub content_parameters : Fields → Fields
unfolding content_fields get
content_parameters p = content_fields p content_bearing_parameters

-- What a run of the differ is given besides the two catalogs: the hash of inline content, the file
-- server, the options, and the name of the target.
pub record Services : Type 0 where
  pub hash : String → String
  pub retriever : Option Retriever
  pub options : Options
  pub certname : String

abbrev pub Findings : Type 0
Findings = List RawChange × List Diagnostic

abbrev pub nothing : Findings
nothing = ([], [])

abbrev pub and_then : Findings → Findings → Findings
and_then (cs, ds) (cs', ds') = (cs ++ cs', ds ++ ds')

abbrev reported : Option Diagnostic → List Diagnostic
reported none = []
reported (some d) = d ∷ []

raw_parameter_change : ResourceIdentity → String → Value → Value → RawChange
raw_parameter_change identity name before after = record {
  kind = ChangeKind.parameter_changed;
  identity = identity;
  parameter = name;
  before = before;
  after = after;
  file_content = none;
  fingerprint = "";
}

-- What follows `f.equal(bv, av)`.
differing : Services → ResourceIdentity → String → Value → Value → Bool × String → Findings
differing s identity name bv av (true, type_name) = nothing
differing s identity name bv av (false, type_name) = (
  raw_parameter_change identity name bv av ∷ [],
  if type_name == "" then [] else fidelity_diagnostic s.certname identity name type_name ∷ [],
)

-- The loop's body for a parameter that is compared by itself.
unfoldable pub compare_parameter :
    Services → Fidelity → ResourceIdentity → String → Value → Value → Findings
unfolding deep_equal equal_at differing raw_parameter_change fidelity_diagnostic
compare_parameter s f identity name bv av =
    if deep_equal bv av then nothing else differing s identity name bv av (equal_at f bv av)

unfoldable pub compare_parameters :
    Services → Fidelity → ResourceIdentity → Fields → Fields → List String → Findings
unfolding compare_parameter get
compare_parameters s f identity before after [] = nothing
compare_parameters s f identity before after (name ∷ names) =
    and_then (compare_parameter s f identity name (at name before) (at name after))
      (compare_parameters s f identity before after names)

-- The states that are a row of the report.
unfoldable pub is_reportable : FileContentState → Bool
is_reportable FileContentState.unchanged = false
is_reportable FileContentState.not_managed = false
is_reportable FileContentState.indeterminate = false
is_reportable _ = true

content_row : ResourceIdentity → Fields → Fields → FileContentEvidence → List RawChange
unfolding is_reportable content_parameters
content_row identity before after evidence =
    if is_reportable evidence.state
    then record {
      kind = ChangeKind.parameter_changed;
      identity = identity;
      parameter = "content";
      before = obj (content_parameters before);
      after = obj (content_parameters after);
      file_content = some evidence;
      fingerprint = "";
    }
      ∷ []
    else []

content_findings :
    ResourceIdentity → Fields → Fields → FileContentEvidence × Option Diagnostic → Findings
content_findings identity before after (evidence, diag) =
    (content_row identity before after evidence, reported diag)

abbrev pub is_file : ResourceIdentity → Bool
is_file identity = identity.type == file_resource_type

unfoldable pub content_differs : Fields → Fields → List String → Bool
unfolding deep_equal is_content_bearing get
content_differs before after names =
    any (λ name. is_content_bearing name && not (deep_equal (at name before) (at name after))) names

-- The names that are compared by themselves.
unfoldable pub plain_names : ResourceIdentity → List String → List String
unfolding is_content_bearing
plain_names identity names = keep (λ name. not (is_file identity && is_content_bearing name)) names

-- The changes of the parameters that are compared by themselves.
unfoldable pub plain_findings : Services → Fidelity → ResourceIdentity → Fields → Fields → Findings
unfolding union_parameter_names compare_parameters plain_names
plain_findings s f identity before after =
    compare_parameters s f identity before after
      (plain_names identity (union_parameter_names before after))

-- The condition on which the evidence of a file is resolved.
unfoldable pub resolves_content : ResourceIdentity → Resource → Resource → Bool
unfolding content_differs union_parameter_names needs_evidence
resolves_content identity before after =
    is_file identity
    && (content_differs before.parameters after.parameters
          (union_parameter_names before.parameters after.parameters)
        || needs_evidence before
        || needs_evidence after)

with_content : Bool → Findings → Findings → Findings
with_content true plain content = and_then plain content
with_content false plain content = plain

unfoldable pub diff_parameters : Services → Fidelity → ResourceIdentity → Side → Side → Findings
unfolding plain_findings resolves_content with_content content_findings content_row
    resolve_file_content_evidence
diff_parameters s f identity before after =
    with_content (resolves_content identity before.resource after.resource)
      (plain_findings s f identity before.resource.parameters after.resource.parameters)
      (content_findings identity before.resource.parameters after.resource.parameters (
        resolve_file_content_evidence s.hash s.options s.certname identity before after
          s.retriever))

membership_row : ChangeKind → Resource → Option FileContentEvidence → RawChange
membership_row ChangeKind.resource_added r evidence = record {
  kind = ChangeKind.resource_added;
  identity = r.identity;
  parameter = "";
  before = null;
  after = obj r.parameters;
  file_content = evidence;
  fingerprint = "";
}
membership_row kind r evidence = record {
  kind = kind;
  identity = r.identity;
  parameter = "";
  before = obj r.parameters;
  after = null;
  file_content = evidence;
  fingerprint = "";
}

with_evidence : ChangeKind → Resource → FileContentEvidence × Option Diagnostic → Findings
with_evidence kind r (evidence, diag) = (membership_row kind r (some evidence) ∷ [], reported diag)

unfoldable pub membership_change : Services → ChangeKind → Side → Findings
unfolding membership_row with_evidence needs_evidence resolve_membership_evidence
membership_change s kind side =
    if not (needs_evidence side.resource)
    then (membership_row kind side.resource none ∷ [], [])
    else with_evidence kind side.resource
        (resolve_membership_evidence s.hash s.options s.certname kind side s.retriever)

side_of : Resource → ContentContext → Side
side_of r context = record { resource = r; context = context }

-- The `switch` of the loop; an identity of neither map does not occur.
compare_resource :
    Services
    → Fidelity
    → ContentContext
    → ContentContext
    → ResourceIdentity
    → Option Resource
    → Option Resource
    → Findings
compare_resource s f bc ac identity (some b) none =
    membership_change s ChangeKind.resource_removed (side_of b bc)
compare_resource s f bc ac identity none (some a) =
    membership_change s ChangeKind.resource_added (side_of a ac)
compare_resource s f bc ac identity (some b) (some a) =
    diff_parameters s f identity (side_of b bc) (side_of a ac)
compare_resource s f bc ac identity none none = nothing

unfoldable pub diff_each :
    Services
    → Fidelity
    → ContentContext
    → ContentContext
    → Index
    → Index
    → List ResourceIdentity
    → Findings
unfolding compare_resource membership_change diff_parameters side_of
diff_each s f bc ac before after [] = nothing
diff_each s f bc ac before after (identity ∷ ids) =
    and_then (compare_resource s f bc ac identity (lookup identity before) (lookup identity after))
      (diff_each s f bc ac before after ids)

unfoldable pub diff_resources :
    Services → Fidelity → ContentContext → ContentContext → Index → Index → Findings
unfolding diff_each union_identities
diff_resources s f bc ac before after =
    diff_each s f bc ac before after (union_identities before after)
