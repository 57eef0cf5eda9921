-- ===== src/FileContent.antt =====
-- internal/filecontent/evidence.go: content evidence of a managed file, on one side or on both.
-- The hash of inline content and the compiler's file server are parameters.
pub mod Digest
pub mod Evidence
use piace.Base.{
  String, Bool, true, false, not, ◌&&◌, ◌||◌, Option, none, some, List, [], ◌∷◌, ◌==◌, string_eq,
  if◌then◌else◌, is_some,
}
use piace.Base.Text.{equal_fold}
use piace.Model.Value.{
  Value, null, bool, str, num, arr, obj, Items, nil, cons, Fields, end, field, get, at, map_fields,
}
use piace.Model.Disclosure.{is_sensitive_wrapper}
use piace.Model.Catalog.{Resource, ResourceIdentity, ContentContext, StaticFileMetadata}

pub record DigestEvidence : Type 0 where
  pub algorithm : String
  pub digest : String

pub record RetrievalContext : Type 0 where
  pub certname : String
  pub identity : ResourceIdentity
  pub environment : String

-- The sentinel errors of the package; `failure` is any other error.
pub data EvidenceError : Type 0 where
  not_byte_comparable historical_evidence unsupported_source_scheme : EvidenceError
  no_content_or_source invalid_checksum unsafe_source_path : EvidenceError
  source_not_found retriever_unavailable missing_environment failure : EvidenceError

pub data Fallible {ℓ} (A : Type ℓ) : Type ℓ where
  ok : A → Fallible A
  err : EvidenceError → Fallible A

-- `ContentRetriever.Digest`.
abbrev pub Retriever : Type 0
Retriever = String → RetrievalContext → Fallible DigestEvidence

pub record Side : Type 0 where
  pub resource : Resource
  pub context : ContentContext

pub record Options : Type 0 where
  pub suppress_source_content_warnings : Bool

abbrev pub is_null : Value → Bool
is_null null = true
is_null _ = false

abbrev pub is_set : String → Fields → Bool
is_set k p = not (is_null (at k p))

unfoldable pub needs_evidence : Resource → Bool
unfolding get
needs_evidence r =
    r.identity.type == "File"
    && (is_set "content" r.parameters
        || is_set "source" r.parameters
        || is_set "checksum_value" r.parameters
        || is_some r.static_content
        || is_some r.captured_content
        || r.recursive_content)

unfoldable mutual
  unfolding is_sensitive_wrapper

  pub unwrap : Value → Value
  unwrap (obj m) = let inner = unwrap_pvalue m in if is_sensitive_wrapper m then inner else obj m
  unwrap v = v

  pub unwrap_pvalue : Fields → Value
  unwrap_pvalue end = null
  unwrap_pvalue (field j v fs) =
      let here = unwrap v in let later = unwrap_pvalue fs in if j == "__pvalue" then here else later

unfoldable pub parameters : Resource → Fields
unfolding unwrap map_fields
parameters r = map_fields (λ k v. unwrap v) r.parameters

abbrev pub string_of : Option Value → Option String
string_of (some (str s)) = some s
string_of _ = none

-- `getStringParam`.
unfoldable pub get_string_param : Fields → String → Option String
unfolding get
get_string_param p k = string_of (get k p)

folds_to : Option String → String → Bool
folds_to none t = false
folds_to (some s) t = equal_fold s t

unfoldable pub manages_content : Fields → Bool
unfolding folds_to get_string_param equal_fold
manages_content p =
    let ensure = get_string_param p "ensure" in
    not (folds_to ensure "absent") && not (folds_to ensure "link")

is_recursive_value : Value → Bool
is_recursive_value (bool b) = b
is_recursive_value (str v) = not (v == "") && not (equal_fold v "false") && not (v == "0")
is_recursive_value (num n) = not (n == "0")
is_recursive_value _ = false

unfoldable pub is_directory_or_recursive : Fields → Bool
unfolding folds_to get_string_param equal_fold is_recursive_value
is_directory_or_recursive p =
    folds_to (get_string_param p "ensure") "directory" || is_recursive_value (at "recurse" p)

is_no_file : Option StaticFileMetadata → Bool
is_no_file none = false
is_no_file (some m) = not (m.type == "file")

unfoldable pub non_byte_comparable : Resource → Fields → Bool
unfolding is_directory_or_recursive is_no_file
non_byte_comparable r p =
    r.recursive_content || is_directory_or_recursive p || is_no_file r.static_content
