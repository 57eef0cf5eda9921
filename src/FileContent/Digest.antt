-- ===== src/FileContent/Digest.antt =====
-- `validateDigest`, `references` and `ResolveSide` of internal/filecontent/evidence.go.
pub mod Laws
use Prim.Native.String.{len}
use piace.Base.{
  ℕ, String, Bool, true, false, not, ◌&&◌, ◌||◌, Option, none, some, List, [], ◌∷◌, ◌==◌, string_eq,
  if◌then◌else◌, nat_eq, lookup,
}
use piace.Base.Text.{to_lower, is_hex, braced}
use piace.Model.Value.{Value, null, str, arr, Items, nil, cons, Fields, get, at}
use piace.Model.Catalog.{
  Resource, ResourceIdentity, ContentContext, StaticFileMetadata, ContentDigest, EvidenceSource,
}
use piace.FileContent.{
  DigestEvidence, RetrievalContext, EvidenceError, Fallible, ok, err, Retriever, Side,
  get_string_param, parameters, non_byte_comparable,
}

abbrev pub digest_lengths : List (String × ℕ)
digest_lengths =
    ("md5", 32) ∷ ("sha256", 64) ∷ ("sha224", 56) ∷ ("sha384", 96) ∷ ("sha512", 128) ∷ []

-- The value without its matching `{algorithm}` prefix; `none` for a prefix that does not match.
strip_prefix : String → String → Option (Option (String × String)) → Option String
strip_prefix algorithm value none = some value
strip_prefix algorithm value (some none) = none
strip_prefix algorithm value (some (some (name, rest))) =
    if to_lower name == algorithm then some rest else none

checked : String → ℕ → Option String → Fallible DigestEvidence
checked algorithm n none = err EvidenceError.invalid_checksum
checked algorithm n (some value) =
    if not (nat_eq (len value) n)
    then err EvidenceError.invalid_checksum
    else if is_hex value
    then ok (record { algorithm = algorithm; digest = to_lower value })
    else err EvidenceError.invalid_checksum

validated : String → String → Option ℕ → Fallible DigestEvidence
validated algorithm value none = err EvidenceError.invalid_checksum
validated algorithm value (some n) =
    checked algorithm n (strip_prefix algorithm value (braced value))

unfoldable pub validate_digest : String → String → Fallible DigestEvidence
unfolding validated checked strip_prefix to_lower is_hex braced
validate_digest algorithm value =
    let lowered = to_lower algorithm in validated lowered value (lookup lowered digest_lengths)

-- The references of a list; `none` if one is no text, or empty.
reference_items : Items → Option (List String)
reference_items nil = some []
reference_items (cons (str s) vs) =
    let rest = reference_items vs in
    if s == "" then none else elim rest [ none ↦ none | some refs ↦ some (s ∷ refs) ]
reference_items (cons v vs) = none

or_no_source : Option (List String) → Fallible (List String)
or_no_source none = err EvidenceError.no_content_or_source
or_no_source (some []) = err EvidenceError.no_content_or_source
or_no_source (some refs) = ok refs

unfoldable pub references : Value → Fallible (List String)
unfolding reference_items or_no_source
references (str s) = if s == "" then err EvidenceError.no_content_or_source else ok (s ∷ [])
references (arr vs) = or_no_source (reference_items vs)
references v = err EvidenceError.no_content_or_source

-- What one side comes to: `err == nil` with its evidence, or the error; both with a source.
pub record SideAnswer : Type 0 where
  pub evidence : Fallible DigestEvidence
  pub source : EvidenceSource

abbrev answer : EvidenceSource → Fallible DigestEvidence → SideAnswer
answer source evidence = record { evidence = evidence; source = source }

abbrev refusal : EvidenceError → SideAnswer
refusal e = answer EvidenceSource.unset (err e)

revalidated : DigestEvidence → SideAnswer
revalidated d = answer EvidenceSource.compiler_retrieval (validate_digest d.algorithm d.digest)

-- The loop over the references: only a source that was not found is passed over.
unfoldable pub retrieve : Retriever → RetrievalContext → List String → SideAnswer
unfolding revalidated
retrieve fetch rc [] = refusal EvidenceError.source_not_found
retrieve fetch rc (reference ∷ rest) =
    let later = retrieve fetch rc rest in
    elim (fetch reference rc) [
      | err EvidenceError.source_not_found ↦ later
      | err e ↦ refusal e
      | ok d ↦ revalidated d
    ]

-- From `side.Context.Historical` on, with the references of the source.
live_side : String → Side → Option Retriever → Fallible (List String) → SideAnswer
live_side certname side retriever (err e) = refusal e
live_side certname side none (ok refs) = refusal EvidenceError.retriever_unavailable
live_side certname side (some fetch) (ok refs) =
    if side.context.environment == ""
    then refusal EvidenceError.missing_environment
    else retrieve fetch
        (record {
          certname = certname;
          identity = side.resource.identity;
          environment = side.context.environment;
        })
        refs

-- `checksum` beside a `checksum_value`: sha256 where it is absent.
checksum_answer : Option Value → Value → SideAnswer
checksum_answer none (str v) = answer EvidenceSource.compiled_checksum (validate_digest "sha256" v)
checksum_answer (some (str algorithm)) (str v) =
    answer EvidenceSource.compiled_checksum (validate_digest algorithm v)
checksum_answer _ _ = refusal EvidenceError.invalid_checksum

captured_or : Option ContentDigest → SideAnswer → SideAnswer
captured_or none later = later
captured_or (some d) later = answer EvidenceSource.captured (validate_digest d.algorithm d.digest)

static_or : Option StaticFileMetadata → SideAnswer → SideAnswer
static_or none later = later
static_or (some m) later =
    answer EvidenceSource.static_metadata (validate_digest m.checksum_type m.checksum_value)

checksum_or : Option Value → Fields → SideAnswer → SideAnswer
checksum_or none p later = later
checksum_or (some null) p later = later
checksum_or (some value) p later = checksum_answer (get "checksum" p) value

inline_or : (String → String) → Option String → SideAnswer → SideAnswer
inline_or hash none later = later
inline_or hash (some content) later =
    answer EvidenceSource.inline (ok (record { algorithm = "sha256"; digest = hash content }))

unfoldable pub resolve_side : (String → String) → String → Side → Option Retriever → SideAnswer
unfolding non_byte_comparable parameters get_string_param inline_or checksum_or checksum_answer
    static_or captured_or live_side references retrieve validate_digest
resolve_side hash certname side retriever =
    let p = parameters side.resource in
    let live = live_side certname side retriever (references (at "source" p)) in
    let retained =
      if side.context.historical then refusal EvidenceError.historical_evidence else live in
    if non_byte_comparable side.resource p
    then refusal EvidenceError.not_byte_comparable
    else inline_or hash (get_string_param p "content") (
        checksum_or (get "checksum_value" p) p (
          static_or side.resource.static_content
            (captured_or side.resource.captured_content retained)))
