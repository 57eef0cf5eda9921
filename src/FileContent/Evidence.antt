-- ===== src/FileContent/Evidence.antt =====
-- `ResolveMembershipEvidence`, `ResolveFileContentEvidence` and `classifyEvidenceError` of
-- internal/filecontent/evidence.go.
pub mod Laws
use Prim.Native.String.{◌++◌ as ◌<>◌}
use piace.Base.{
  String, Bool, true, false, not, ◌&&◌, ◌||◌, Option, none, some, List, [], ◌∷◌, ◌==◌, string_eq,
  if◌then◌else◌, any,
}
use piace.Model.Value.{Value, get, at}
use piace.Model.Value.Equal.{deep_equal}
use piace.Model.Catalog.{
  Resource, ResourceIdentity, to_string, ContentContext, EvidenceSource, FileContentState,
  FileSideEvidence, FileContentEvidence,
}
use piace.Model.Change.{ChangeKind}
use piace.Model.Diagnostic.{Severity, Operation, Diagnostic}
use piace.FileContent.{
  DigestEvidence, EvidenceError, Fallible, ok, err, Retriever, Side, Options, is_set, parameters,
  manages_content, non_byte_comparable,
}
use piace.FileContent.Digest.{SideAnswer, resolve_side}

abbrev pub non_byte_reason : String
non_byte_reason =
    "directory, recursive or non-file source: byte-level content comparison is unsupported; recursive sourceselect rules are not evaluated"

abbrev pub algorithms_reason : String
algorithms_reason =
    "the two catalogs carry content digests of different algorithms, which cannot be compared"

unfoldable pub classify_evidence_error : EvidenceError → String × Severity
classify_evidence_error EvidenceError.not_byte_comparable = (non_byte_reason, Severity.warning)
classify_evidence_error EvidenceError.historical_evidence = (
  "historical catalog has no retained content digest; current environment bytes cannot verify historical content",
  Severity.warning,
)
classify_evidence_error EvidenceError.unsupported_source_scheme = (
  "content source is not an authority-free puppet:/// reference, so the compiler's file server cannot serve its bytes",
  Severity.warning,
)
classify_evidence_error EvidenceError.no_content_or_source =
    ("resource names neither inline content nor a content source", Severity.warning)
classify_evidence_error EvidenceError.invalid_checksum = (
  "invalid content checksum: expected a supported algorithm and a full hexadecimal digest",
  Severity.error,
)
classify_evidence_error EvidenceError.unsafe_source_path =
    ("content source path was refused rather than resolved against the compiler", Severity.error)
classify_evidence_error _ = (
  "content retrieval or comparison could not establish comparable bytes for this resource",
  Severity.error,
)

abbrev is_verified : Option FileSideEvidence → Bool
is_verified none = true
is_verified (some s) = s.verified

abbrev is_warning : Severity → Bool
is_warning Severity.warning = true
is_warning _ = false

unfoldable pub suppress_source_warning : Options → Severity → FileContentEvidence → List Side → Bool
suppress_source_warning o severity e sides =
    if not o.suppress_source_content_warnings || not (is_warning severity)
    then false
    else if is_verified e.before && is_verified e.after
    then false
    else any (λ side. is_set "source" side.resource.parameters) sides

unfoldable pub verify_content_diagnostic :
    Severity → String → ResourceIdentity → String → Diagnostic
verify_content_diagnostic severity certname identity reason = record {
  severity = severity;
  operation = Operation.verify_content;
  certname = certname;
  source = "";
  message = to_string identity <> (": " <> reason);
}

-- A diagnostic that the options may silence.
notice :
    Options
    → List Side
    → Severity
    → String
    → ResourceIdentity
    → String
    → FileContentEvidence
    → FileContentEvidence × Option Diagnostic
notice o sides severity certname identity reason e =
    if suppress_source_warning o severity e sides
    then (e, none)
    else (e, some (verify_content_diagnostic severity certname identity reason))

abbrev pub blank : FileContentState → FileContentEvidence
blank state = record {
  state = state;
  evidence_source = EvidenceSource.unset;
  algorithm = "";
  before_digest = "";
  after_digest = "";
  redacted = false;
  before = none;
  after = none;
  reference_changed = false;
}

side_evidence : Side → EvidenceSource → Bool → FileSideEvidence
side_evidence s source verified = record {
  context = s.context;
  source = source;
  verified = verified;
}

abbrev is_added : ChangeKind → Bool
is_added ChangeKind.resource_added = true
is_added _ = false

membership_sides : ChangeKind → EvidenceSource → FileSideEvidence → FileContentEvidence
membership_sides kind source s =
    if is_added kind
    then record (blank FileContentState.added) { evidence_source = source; after = some s }
    else record (blank FileContentState.removed) { evidence_source = source; before = some s }

membership_answer :
    Options
    → String
    → ChangeKind
    → Side
    → EvidenceSource
    → Fallible DigestEvidence
    → FileContentEvidence × Option Diagnostic
membership_answer o certname kind side source (err x) =
    let s = side_evidence side source false in
    let e = record (membership_sides kind source s) { state = FileContentState.indeterminate } in
    let (reason, severity) = classify_evidence_error x in
    notice o (side ∷ []) severity certname side.resource.identity
      ("resource membership changed; " <> reason) e
membership_answer o certname kind side source (ok d) =
    let s = side_evidence side source true in
    let e = record (membership_sides kind source s) { algorithm = d.algorithm } in
    if is_added kind
    then (record e { after_digest = d.digest }, none)
    else (record e { before_digest = d.digest }, none)

unfoldable pub resolve_membership_evidence :
    (String → String)
    → Options
    → String
    → ChangeKind
    → Side
    → Option Retriever
    → FileContentEvidence × Option Diagnostic
unfolding membership_answer membership_sides side_evidence notice verify_content_diagnostic
    classify_evidence_error suppress_source_warning manages_content parameters
resolve_membership_evidence hash o certname kind side retriever =
    let a = resolve_side hash certname side retriever in
    if not (manages_content (parameters side.resource))
    then (blank FileContentState.not_managed, none)
    else membership_answer o certname kind side a.source a.evidence

unfoldable pub state_from_digests : String → String → FileContentState
state_from_digests before after =
    if before == after then FileContentState.unchanged else FileContentState.changed

unfoldable pub source_code : EvidenceSource → String
source_code EvidenceSource.unset = ""
source_code EvidenceSource.inline = "inline_content"
source_code EvidenceSource.compiled_checksum = "compiled_checksum"
source_code EvidenceSource.compiler_retrieval = "compiler_retrieval"
source_code EvidenceSource.static_metadata = "static_metadata"
source_code EvidenceSource.captured = "captured_digest"
source_code EvidenceSource.mixed = "mixed"

unfoldable pub same_source : EvidenceSource → EvidenceSource → Bool
unfolding source_code
same_source a b = source_code a == source_code b

abbrev is_ok : Fallible DigestEvidence → Bool
is_ok (ok d) = true
is_ok (err x) = false

-- The state where no two comparable digests were found.
abbrev unverified_state : Bool → FileContentState
unverified_state reference_changed =
    if reference_changed then FileContentState.reference_changed else FileContentState.indeterminate

is_error : Severity → Bool
is_error Severity.error = true
is_error _ = false

-- One round of the loop over the two errors; the candidate's side comes first.
worse_reason : String × Severity → Fallible DigestEvidence → String × Severity
worse_reason (reason, severity) (ok d) = (reason, severity)
worse_reason (reason, severity) (err x) =
    let (r, sev) = classify_evidence_error x in
    if reason == "" || is_error sev || not (is_error severity) then (r, sev) else (reason, severity)

unfoldable pub unverified_reason :
    Fallible DigestEvidence → Fallible DigestEvidence → String × Severity
unfolding worse_reason is_error classify_evidence_error
unverified_reason b a =
    if is_ok b && is_ok a
    then (algorithms_reason, Severity.warning)
    else worse_reason (worse_reason ("", Severity.warning) a) b

comparable :
    FileContentEvidence
    → EvidenceSource
    → EvidenceSource
    → DigestEvidence
    → DigestEvidence
    → FileContentEvidence × Option Diagnostic
comparable e bs as' b a = (
  record e {
    state = state_from_digests b.digest a.digest;
    algorithm = b.algorithm;
    before_digest = b.digest;
    after_digest = a.digest;
    evidence_source = if same_source bs as' then bs else EvidenceSource.mixed;
  },
  none,
)

two_sided : Bool → FileSideEvidence → FileSideEvidence → FileContentEvidence
two_sided reference_changed before after = record (blank (unverified_state reference_changed)) {
  before = some before;
  after = some after;
  reference_changed = reference_changed;
}

-- The answer for two sides, from `if be == nil && ae == nil && ...` on.
compared :
    FileContentEvidence × Option Diagnostic
    → FileContentEvidence
    → EvidenceSource
    → EvidenceSource
    → Fallible DigestEvidence
    → Fallible DigestEvidence
    → FileContentEvidence × Option Diagnostic
compared otherwise e bs as' (ok b) (ok a) =
    if b.algorithm == a.algorithm then comparable e bs as' b a else otherwise
compared otherwise e bs as' b a = otherwise

unfoldable pub resolve_file_content_evidence :
    (String → String)
    → Options
    → String
    → ResourceIdentity
    → Side
    → Side
    → Option Retriever
    → FileContentEvidence × Option Diagnostic
unfolding compared comparable two_sided side_evidence state_from_digests same_source
    unverified_reason notice verify_content_diagnostic suppress_source_warning manages_content
    parameters non_byte_comparable deep_equal
resolve_file_content_evidence hash o certname identity before after retriever =
    let bp = parameters before.resource in
    let ap = parameters after.resource in
    let reference_changed = not (deep_equal (at "source" bp) (at "source" ap)) in
    let b = resolve_side hash certname before retriever in
    let a = resolve_side hash certname after retriever in
    let untried =
      two_sided reference_changed (side_evidence before EvidenceSource.unset false)
        (side_evidence after EvidenceSource.unset false) in
    let e =
      two_sided reference_changed (side_evidence before b.source (is_ok b.evidence))
        (side_evidence after a.source (is_ok a.evidence)) in
    let (reason, severity) = unverified_reason b.evidence a.evidence in
    let unverified = notice o (before ∷ after ∷ []) severity certname identity reason e in
    let refused =
      notice o (before ∷ after ∷ []) Severity.warning certname identity non_byte_reason untried in
    if not (manages_content bp) || not (manages_content ap)
    then (blank FileContentState.not_managed, none)
    else if non_byte_comparable before.resource bp || non_byte_comparable after.resource ap
    then refused
    else compared unverified e b.source a.source b.evidence a.evidence
