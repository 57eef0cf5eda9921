-- ===== src/Model/Catalog.antt =====
-- internal/model/catalog.go: identities, resources, edges, catalogs and file-content evidence.
-- A pointer that may be nil is an `Option`.
use Prim.Native.String.{◌++◌ as ◌<>◌}
use piace.Base.{
  String, Bool, true, false, ◌&&◌, not, Option, List, ◌==◌, string_eq, Eq, ◌≡◌, ◌↔◌, arith, eq_iff,
  if◌then◌else◌,
}
use piace.Base.Order.{Ord, str_lt, str_le_total, str_le_trans, str_le_antisymm}
use piace.Model.Value.{Fields}

pub record ResourceIdentity : Type 0 where
  pub type : String
  pub title : String

unfoldable pub to_string : ResourceIdentity → String
to_string r = (r.type <> "[") <> (r.title <> "]")

pub record StaticFileMetadata : Type 0 where
  pub type : String
  pub checksum_type : String
  pub checksum_value : String

pub record ContentDigest : Type 0 where
  pub algorithm : String
  pub digest : String

pub record Resource : Type 0 where
  pub identity : ResourceIdentity
  pub parameters : Fields
  pub sensitive_parameters : List String
  pub static_content : Option StaticFileMetadata
  pub captured_content : Option ContentDigest
  pub recursive_content : Bool

pub record Edge : Type 0 where
  pub source : String
  pub target : String

pub record ContentContext : Type 0 where
  pub source : String
  pub environment : String
  pub historical : Bool
  pub catalog_identity : String

pub record NormalizedCatalog : Type 0 where
  pub certname : String
  pub environment : String
  pub resources : List Resource
  pub edges : List Edge
  pub content_context : ContentContext
  pub stringified_rich : Bool

-- `unset` is the empty string, which a side without evidence keeps.
pub data EvidenceSource : Type 0 where
  unset inline compiled_checksum compiler_retrieval static_metadata captured mixed : EvidenceSource

pub data FileContentState : Type 0 where
  added removed unchanged changed reference_changed indeterminate not_managed : FileContentState

pub record FileSideEvidence : Type 0 where
  pub context : ContentContext
  pub source : EvidenceSource
  pub verified : Bool

pub record FileContentEvidence : Type 0 where
  pub state : FileContentState
  pub evidence_source : EvidenceSource
  pub algorithm : String
  pub before_digest : String
  pub after_digest : String
  pub redacted : Bool
  pub before : Option FileSideEvidence
  pub after : Option FileSideEvidence
  pub reference_changed : Bool

pub record FileSideSummary : Type 0 where
  pub source : EvidenceSource
  pub verified : Bool

pub record FileContentSummary : Type 0 where
  pub state : FileContentState
  pub evidence_source : EvidenceSource
  pub redacted : Bool
  pub reference_changed : Bool
  pub before : Option FileSideSummary
  pub after : Option FileSideSummary

abbrev pub identity_beq : ResourceIdentity → ResourceIdentity → Bool
identity_beq a b = a.type == b.type && a.title == b.title

pub identity_beq_iff : (a b : ResourceIdentity) → (identity_beq a b ≡ true) ↔ (a ≡ b)
identity_beq_iff a b = ground (arith, eq_iff a.type b.type, eq_iff a.title b.title)

instance abbrev pub identity_eq : Eq ResourceIdentity
identity_eq = record { eqb = identity_beq; eqb_iff = identity_beq_iff }

-- `resourceLess` of internal/normalize, and the same comparison in internal/diff and internal/impact.
unfoldable pub resource_less : ResourceIdentity → ResourceIdentity → Bool
resource_less a b = if not (a.type == b.type) then str_lt a.type b.type else str_lt a.title b.title

unfoldable pub identity_le : ResourceIdentity → ResourceIdentity → Bool
unfolding resource_less
identity_le a b = not (resource_less b a)

pub identity_le_total : (a b : ResourceIdentity) → identity_le a b ≡ false → identity_le b a ≡ true
unfolding identity_le
identity_le_total a b h = ground (
  arith,
  eq_iff a.type b.type,
  eq_iff b.type a.type,
  str_le_total a.type b.type,
  str_le_total a.title b.title,
)

pub identity_le_antisymm :
    (a b : ResourceIdentity) → identity_le a b ≡ true → identity_le b a ≡ true → a ≡ b
unfolding identity_le
identity_le_antisymm a b h k = ground (
  arith,
  eq_iff a.type b.type,
  eq_iff b.type a.type,
  str_le_antisymm a.type b.type,
  str_le_antisymm a.title b.title,
)

pub identity_le_trans :
    (a b c : ResourceIdentity)
    → identity_le a b ≡ true
    → identity_le b c ≡ true
    → identity_le a c ≡ true
unfolding identity_le
identity_le_trans a b c h k = ground (
  arith,
  eq_iff b.type a.type,
  eq_iff c.type b.type,
  eq_iff c.type a.type,
  str_le_trans a.type b.type c.type,
  str_le_antisymm a.type b.type,
  str_le_antisymm c.type b.type,
  str_le_trans a.title b.title c.title,
)

instance abbrev pub identity_ord : Ord ResourceIdentity
identity_ord = record {
  le = identity_le;
  le_total = identity_le_total;
  le_trans = identity_le_trans;
  le_antisymm = identity_le_antisymm;
}

abbrev pub edge_beq : Edge → Edge → Bool
edge_beq a b = a.source == b.source && a.target == b.target

pub edge_beq_iff : (a b : Edge) → (edge_beq a b ≡ true) ↔ (a ≡ b)
edge_beq_iff a b = ground (arith, eq_iff a.source b.source, eq_iff a.target b.target)

instance abbrev pub edge_eq : Eq Edge
edge_eq = record { eqb = edge_beq; eqb_iff = edge_beq_iff }
