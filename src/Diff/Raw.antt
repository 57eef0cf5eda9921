-- ===== src/Diff/Raw.antt =====
-- internal/diff/raw.go: a difference before exclusion and publication.
use piace.Base.{String, Option}
use piace.Model.Value.{Value}
use piace.Model.Catalog.{ResourceIdentity, FileContentEvidence}
use piace.Model.Change.{ChangeKind}

pub record RawChange : Type 0 where
  pub kind : ChangeKind
  pub identity : ResourceIdentity
  pub parameter : String
  pub before : Value
  pub after : Value
  pub file_content : Option FileContentEvidence
  pub fingerprint : String
