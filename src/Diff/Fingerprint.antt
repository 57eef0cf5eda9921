-- ===== src/Diff/Fingerprint.antt =====
-- internal/diff/fingerprint.go: the evidence that a fingerprint is the digest of.
-- `digest` stands for the canonical encoding and its SHA-256: the text behind `sha256:`, or the
-- text of an encoding error.
use Prim.Native.String.{◌++◌ as ◌<>◌}
use piace.Base.{String, Option, none, some}
use piace.Model.Value.{Value, str, obj, Fields, end, field}
use piace.Model.Catalog.{to_string, FileContentState, FileContentEvidence}
use piace.FileContent.Evidence.{source_code}
use piace.Diff.Raw.{RawChange}
use piace.Diff.Edges.{kind_text}

pub data Digested : Type 0 where
  digested refused : String → Digested

abbrev pub Digester : Type 0
Digester = Value → Digested

state_text : FileContentState → String
state_text FileContentState.added = "resource_added"
state_text FileContentState.removed = "resource_removed"
state_text FileContentState.unchanged = "unchanged"
state_text FileContentState.changed = "changed"
state_text FileContentState.reference_changed = "reference_changed"
state_text FileContentState.indeterminate = "content_indeterminate"
state_text FileContentState.not_managed = "not_managed"

content_field : Option FileContentEvidence → Fields
unfolding state_text source_code
content_field none = end
content_field (some fc) =
    field "file_content"
      (obj (
        field "state" (str (state_text fc.state)) (
          field "evidence_source" (str (source_code fc.evidence_source)) (
            field "algorithm" (str fc.algorithm) (
              field "before_digest" (str fc.before_digest)
                (field "after_digest" (str fc.after_digest) end))))))
      end

-- `json.Number` and `model.Number` are both the digits, so `fingerprintable` changes nothing here.
unfoldable pub fingerprint_evidence : RawChange → Value
unfolding content_field kind_text
fingerprint_evidence c = obj (
    field "kind" (str (kind_text c.kind)) (
      field "type" (str c.identity.type) (
        field "title" (str c.identity.title) (
          field "parameter" (str c.parameter)
            (field "before" c.before (field "after" c.after (content_field c.file_content)))))))

prefixed : RawChange → Digested → Digested
unfolding to_string
prefixed c (digested hex) = digested ("sha256:" <> hex)
prefixed c (refused reason) =
    refused (("fingerprinting " <> to_string c.identity) <> (": " <> reason))

unfoldable pub fingerprint_resource_change : Digester → RawChange → Digested
unfolding fingerprint_evidence prefixed
fingerprint_resource_change digest c = prefixed c (digest (fingerprint_evidence c))
