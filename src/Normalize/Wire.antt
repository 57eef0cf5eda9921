-- ===== src/Normalize/Wire.antt =====
-- internal/normalize/wire.go: the rows of a catalog. A raw message is its text; what encoding/json
-- reads from it is an argument, `none` where it fails, and the text of its error is left out.
use piace.Base.{
  String, Bool, false, ◌&&◌, ◌||◌, not, Option, none, some, List, [], ◌∷◌, ◌==◌, string_eq,
  if◌then◌else◌, lookup, contains, ◌⊎◌, inl, inr,
}
use piace.Base.Text.{opens_with, opens_array, trim_space}
use piace.Base.Order.{str_le}
use piace.Base.Sort.{sort}
use Prim.Native.String.{◌++◌ as ◌<>◌}
use piace.Model.Value.{Value}
use piace.Model.Catalog.{ResourceIdentity, StaticFileMetadata}
use piace.Normalize.Reference.{parse_reference}

pub record ResourceWire : Type 0 where
  pub type : String
  pub title : String
  pub parameters : String
  pub sensitive_parameters : String

pub record EdgeWire : Type 0 where
  pub source_type : String
  pub source_title : String
  pub target_type : String
  pub target_title : String

pub record PdbEdgeEntry : Type 0 where
  pub source_type : String
  pub source_title : String
  pub target_type : String
  pub target_title : String
  pub relationship : String

-- The source and the target as they stand in the message; `none` is a missing key.
pub record CompilerEdgeEntry : Type 0 where
  pub source : Option String
  pub target : Option String
  pub relationship : String

-- The decoders of encoding/json that the package calls, and its encoder.
pub record Json : Type 0 where
  pub text : String → Option String
  pub names : String → Option (List String)
  pub object : String → Option (List (String × String))
  pub value : String → Option Value
  pub marshal : Value → Option String
  pub identity : String → Option ResourceIdentity
  pub resources : String → Option (List ResourceWire)
  pub pdb_edges : String → Option (List PdbEdgeEntry)
  pub compiler_edges : String → Option (List CompilerEdgeEntry)
  pub metadata : String → Option (List (String × StaticFileMetadata))

abbrev pub containment_relationship : String
containment_relationship = "contains"

unfoldable pub is_synthesized_relationship : String → Bool
is_synthesized_relationship r = not (r == "") && not (r == containment_relationship)

unfoldable pub complete_identity : Option ResourceIdentity → Option ResourceIdentity
complete_identity none = none
complete_identity (some r) = if r.type == "" || r.title == "" then none else some r

unfoldable pub parse_text : Option String → Option ResourceIdentity
unfolding parse_reference
parse_text none = none
parse_text (some ref) = parse_reference ref

-- `resourceSpecWire.UnmarshalJSON`.
unfoldable pub resource_spec : Json → String → Option ResourceIdentity
unfolding parse_text complete_identity opens_with trim_space
resource_spec json body =
    if opens_with 0x22 body
    then parse_text (json.text (trim_space body))
    else complete_identity (json.identity (trim_space body))

-- A missing key leaves the zero value.
unfoldable pub spec_or_blank : Json → Option String → Option ResourceIdentity
unfolding resource_spec
spec_or_blank json none = some (record { type = ""; title = "" })
spec_or_blank json (some body) = resource_spec json body

pub data Shape : Type 0 where
  missing neither object array : Shape

-- `shapeContainer`.
unfoldable pub shape_container : String → Shape
unfolding trim_space opens_with opens_array
shape_container raw =
    if trim_space raw == ""
    then missing
    else if opens_with 0x7b raw
    then object
    else if opens_array raw
    then array
    else neither

unfoldable pub data_array : Option String → String ⊎ String
unfolding opens_array
data_array none = inl "{href, data}-shaped field is missing its required \"data\" key"
data_array (some body) = if opens_array body then inr body else inl "data must be an array"

unfoldable pub data_of : Option (List (String × String)) → String ⊎ String
unfolding data_array
data_of none = inl "decoding {href, data} object"
data_of (some probe) = data_array (lookup "data" probe)

-- A field's error behind the name of the field, or its rows.
unfoldable pub decoded : {A : Type 0} → String → Option A → String ⊎ A
decoded t none = inl t
decoded t (some a) = inr a

-- `hrefDataArray`.
unfoldable pub from_data :
    {A : Type 0} → String → (String → Option A) → String ⊎ String → String ⊎ A
unfolding decoded
from_data name decode (inl t) = inl (name <> t)
from_data name decode (inr body) = decoded (name <> "decoding \"data\" array") (decode body)

unfoldable pub resources_of : Json → String → Shape → String ⊎ List ResourceWire
unfolding from_data decoded data_of
resources_of json raw missing = inl "resources: field is missing or empty"
resources_of json raw neither = inl "resources: field is neither a {href, data} object nor an array"
resources_of json raw object =
    from_data "resources: " json.resources (data_of (json.object (trim_space raw)))
resources_of json raw array = decoded "resources: decoding array" (json.resources (trim_space raw))

unfoldable pub extract_resources : Json → String → String ⊎ List ResourceWire
unfolding resources_of shape_container
extract_resources json raw = resources_of json raw (shape_container raw)

-- The loop over the rows of PuppetDB.
unfoldable pub pdb_wires : List PdbEdgeEntry → List EdgeWire
unfolding is_synthesized_relationship
pdb_wires [] = []
pdb_wires (e ∷ es) =
    let rest = pdb_wires es in
    if is_synthesized_relationship e.relationship
    then rest
    else record {
      source_type = e.source_type;
      source_title = e.source_title;
      target_type = e.target_type;
      target_title = e.target_title;
    }
      ∷ rest

unfoldable pub with_edge :
    Bool
    → Option ResourceIdentity
    → Option ResourceIdentity
    → Option (List EdgeWire)
    → Option (List EdgeWire)
with_edge skipped none t rest = none
with_edge skipped (some s) none rest = none
with_edge skipped (some s) (some t) none = none
with_edge skipped (some s) (some t) (some es) =
    if skipped
    then some es
    else some (
        record {
          source_type = s.type;
          source_title = s.title;
          target_type = t.type;
          target_title = t.title;
        }
        ∷ es)

-- The decoding of the references, and the loop over the rows of the compiler.
unfoldable pub compiler_wires : Json → List CompilerEdgeEntry → Option (List EdgeWire)
unfolding with_edge spec_or_blank is_synthesized_relationship
compiler_wires json [] = some []
compiler_wires json (e ∷ es) =
    with_edge (is_synthesized_relationship e.relationship) (spec_or_blank json e.source)
      (spec_or_blank json e.target) (compiler_wires json es)

unfoldable pub pdb_rows : String ⊎ List PdbEdgeEntry → String ⊎ List EdgeWire
unfolding pdb_wires
pdb_rows (inl t) = inl t
pdb_rows (inr es) = inr (pdb_wires es)

unfoldable pub compiler_rows : Json → Option (List CompilerEdgeEntry) → Option (List EdgeWire)
unfolding compiler_wires
compiler_rows json none = none
compiler_rows json (some es) = compiler_wires json es

unfoldable pub edges_of : Json → String → Shape → String ⊎ List EdgeWire
unfolding pdb_rows from_data data_of decoded compiler_rows
edges_of json raw missing = inl "edges: field is missing or empty"
edges_of json raw neither = inl "edges: field is neither a {href, data} object nor an array"
edges_of json raw object =
    pdb_rows (from_data "edges: " json.pdb_edges (data_of (json.object (trim_space raw))))
edges_of json raw array =
    decoded "edges: decoding array" (compiler_rows json (json.compiler_edges (trim_space raw)))

unfoldable pub extract_edges : Json → String → String ⊎ List EdgeWire
unfolding edges_of shape_container
extract_edges json raw = edges_of json raw (shape_container raw)

unfoldable pub has_bad_name : List String → List String → Bool
has_bad_name seen [] = false
has_bad_name seen (name ∷ names) =
    (name == "" || contains name seen) || has_bad_name (name ∷ seen) names

unfoldable pub sensitivity_of : Option (List String) → String ⊎ List String
unfolding has_bad_name sort
sensitivity_of none = inl "sensitive_parameters must be an array of parameter names"
sensitivity_of (some names) =
    if has_bad_name [] names
    then inl "sensitive_parameters contains an empty or duplicate name"
    else inr (sort str_le names)

-- `decodeSensitivity`.
unfoldable pub decode_sensitivity : Json → String → String ⊎ List String
unfolding sensitivity_of trim_space
decode_sensitivity json raw =
    if raw == ""
    then inr []
    else if trim_space raw == "null"
    then inl "sensitive_parameters must be an array of parameter names"
    else sensitivity_of (json.names raw)
