-- ===== src/Normalize/Catalog.antt =====
-- internal/normalize/catalog.go: a catalog in one form.
pub mod Laws
use piace.Base.{
  ℕ, suc, String, Bool, true, false, ◌&&◌, ◌||◌, not, Option, none, some, List, [], ◌∷◌, ◌++◌, ◌==◌,
  string_eq, if◌then◌else◌, lookup, contains, is_some, ◌⊎◌, inl, inr,
}
use piace.Base.Decimal.{decimal}
use piace.Base.Order.{str_lt}
use piace.Base.Sort.{sort}
use Prim.Native.String.{◌++◌ as ◌<>◌}
use piace.Model.Value.{Fields}
use piace.Model.Catalog.{
  ResourceIdentity, identity_eq, identity_le, to_string, Resource, Edge, ContentContext,
  ContentDigest, StaticFileMetadata, NormalizedCatalog,
}
use piace.Model.Diagnostic.{Diagnostic, Severity, Operation}
use piace.Normalize.Wire.{
  Json, ResourceWire, EdgeWire, extract_resources, extract_edges, decode_sensitivity,
}
use piace.Normalize.Values.{Numbers, ValueError, numeric_budget, invalid, decode_parameters}

-- `puppetdb.Catalog`.
pub record RawCatalog : Type 0 where
  pub certname : String
  pub version : String
  pub environment : String
  pub hash : String
  pub transaction_uuid : String
  pub catalog_uuid : String
  pub code_id : String
  pub producer_timestamp : String
  pub producer : String
  pub resources : String
  pub edges : String
  pub metadata : String
  pub recursive_metadata : String
  pub captured_content : List (String × ContentDigest)
  pub stringified_rich : Bool

-- What the catalog says of files, by their titles.
pub record FileNotes : Type 0 where
  pub metadata : List (String × StaticFileMetadata)
  pub captured : List (String × ContentDigest)
  pub recursive : List (String × String)

unfoldable pub with_notes : FileNotes → Resource → Resource
with_notes notes r =
    if r.identity.type == "File"
    then record r {
      static_content = lookup r.identity.title notes.metadata;
      captured_content = lookup r.identity.title notes.captured;
      recursive_content = is_some (lookup r.identity.title notes.recursive);
    }
    else r

unfoldable pub value_reason : ValueError → String
value_reason numeric_budget =
    "a numeric value with more digits or a larger exponent than PIACE compares"
value_reason invalid = "invalid parameters or sensitivity wrapper"

unfoldable pub built :
    FileNotes → ResourceIdentity → String ⊎ List String → ValueError ⊎ Fields → String ⊎ Resource
unfolding with_notes value_reason to_string
built notes identity (inl t) params = inl t
built notes identity (inr names) (inl e) =
    inl ("resource " <> (to_string identity <> (": " <> value_reason e)))
built notes identity (inr names) (inr params) = inr (
    with_notes notes (record {
      identity = identity;
      parameters = params;
      sensitive_parameters = names;
      static_content = none;
      captured_content = none;
      recursive_content = false;
    }))

unfoldable pub cons_row {ℓ} : {A : Type ℓ} → String ⊎ A → String ⊎ List A → String ⊎ List A
cons_row (inl t) rest = inl t
cons_row (inr a) (inl t) = inl t
cons_row (inr a) (inr rows) = inr (a ∷ rows)

abbrev pub identity_of : ResourceWire → ResourceIdentity
identity_of rw' = record { type = rw'.type; title = rw'.title }

-- The loop over the resources, from index `i` and with the identities seen.
unfoldable pub resource_rows :
    Json
    → Numbers
    → FileNotes
    → ℕ
    → List ResourceIdentity
    → List ResourceWire
    → String ⊎ List Resource
unfolding cons_row built decode_sensitivity decode_parameters to_string
resource_rows json numbers notes i seen [] = inr []
resource_rows json numbers notes i seen (wire ∷ wires) =
    let identity = identity_of wire in
    let rows =
      cons_row
        (built notes identity (decode_sensitivity json wire.sensitive_parameters)
          (decode_parameters json numbers wire.parameters))
        (resource_rows json numbers notes (suc i) (identity ∷ seen) wires) in
    if wire.type == "" || wire.title == ""
    then inl ("resource at index " <> (decimal i <> " is missing a required type or title"))
    else if contains identity seen
    then inl ("duplicate resource identity " <> (to_string identity <> " in catalog"))
    else rows

unfoldable pub is_incomplete : EdgeWire → Bool
is_incomplete e =
    (e.source_type == "" || e.source_title == "") || (e.target_type == "" || e.target_title == "")

unfoldable pub edge_of : EdgeWire → Edge
unfolding to_string
edge_of e = record {
  source = to_string (record { type = e.source_type; title = e.source_title });
  target = to_string (record { type = e.target_type; title = e.target_title });
}

-- The loop over the edges.
unfoldable pub edge_rows : ℕ → List EdgeWire → String ⊎ List Edge
unfolding is_incomplete edge_of cons_row
edge_rows i [] = inr []
edge_rows i (e ∷ es) =
    let rest = cons_row (inr (edge_of e)) (edge_rows (suc i) es) in
    if is_incomplete e
    then inl
        ("edge at index " <> (decimal i <> " is missing a required source or target type/title"))
    else rest

unfoldable pub edge_less : Edge → Edge → Bool
edge_less a b =
    if not (a.source == b.source) then str_lt a.source b.source else str_lt a.target b.target

unfoldable pub edge_le : Edge → Edge → Bool
unfolding edge_less
edge_le a b = not (edge_less b a)

unfoldable pub resource_le : Resource → Resource → Bool
unfolding identity_le
resource_le a b = identity_le a.identity b.identity

unfoldable pub no_context : ContentContext
no_context = record { source = ""; environment = ""; historical = false; catalog_identity = "" }

unfoldable pub finished :
    RawCatalog → String ⊎ List Resource → String ⊎ List Edge → String ⊎ NormalizedCatalog
unfolding sort resource_le edge_le no_context
finished raw (inl t) es = inl t
finished raw (inr rs) (inl t) = inl t
finished raw (inr rs) (inr es) = inr (record {
  certname = raw.certname;
  environment = raw.environment;
  resources = sort resource_le rs;
  edges = sort edge_le es;
  content_context = no_context;
  stringified_rich = raw.stringified_rich;
})

unfoldable pub from_wires :
    Json
    → Numbers
    → RawCatalog
    → FileNotes
    → String ⊎ List ResourceWire
    → String ⊎ List EdgeWire
    → String ⊎ NormalizedCatalog
unfolding finished resource_rows edge_rows
from_wires json numbers raw notes (inl t) es = inl t
from_wires json numbers raw notes (inr rs) (inl t) = inl t
from_wires json numbers raw notes (inr rs) (inr es) =
    finished raw (resource_rows json numbers notes 0 [] rs) (edge_rows 0 es)

-- `len(raw) > 0 && Unmarshal(raw, &m) != nil`; an absent message leaves the map empty.
unfoldable pub optional : {A : Type 0} → (String → Option (List A)) → String → Option (List A)
optional decode raw = if raw == "" then some [] else decode raw

unfoldable pub with_metadata :
    Json
    → Numbers
    → RawCatalog
    → Option (List (String × StaticFileMetadata))
    → Option (List (String × String))
    → String ⊎ NormalizedCatalog
unfolding from_wires extract_resources extract_edges
with_metadata json numbers raw none recursive = inl "malformed static catalog metadata"
with_metadata json numbers raw (some m) none = inl "malformed static catalog metadata"
with_metadata json numbers raw (some m) (some recursive) =
    from_wires json numbers raw
      (record { metadata = m; captured = raw.captured_content; recursive = recursive })
      (extract_resources json raw.resources) (extract_edges json raw.edges)

unfoldable pub normalize_diagnostic : String → String → Diagnostic
normalize_diagnostic certname message = record {
  severity = Severity.error;
  operation = Operation.normalize;
  certname = certname;
  source = "";
  message = message;
}

unfoldable pub or_diagnostic : String → String ⊎ NormalizedCatalog → Diagnostic ⊎ NormalizedCatalog
unfolding normalize_diagnostic
or_diagnostic certname (inl t) = inl (normalize_diagnostic certname t)
or_diagnostic certname (inr c) = inr c

-- `Catalog`.
unfoldable pub normalize_catalog : Json → Numbers → RawCatalog → Diagnostic ⊎ NormalizedCatalog
unfolding or_diagnostic with_metadata optional
normalize_catalog json numbers raw = or_diagnostic raw.certname (
    with_metadata json numbers raw (optional json.metadata raw.metadata)
      (optional json.object raw.recursive_metadata))
