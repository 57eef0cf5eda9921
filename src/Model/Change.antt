-- ===== src/Model/Change.antt =====
-- internal/model/diff.go: changes of one target, exclusion outcomes, and aggregate groups.
use piace.Base.{ℕ, String, Bool, Option, List}
use piace.Model.Value.{Value}
use piace.Model.Catalog.{ResourceIdentity, Edge, FileContentEvidence, FileContentSummary}

abbrev pub redacted_value : String
redacted_value = "<redacted>"

pub data ChangeKind : Type 0 where
  resource_added resource_removed parameter_changed edge_added edge_removed : ChangeKind

pub record ResourceChange : Type 0 where
  pub kind : ChangeKind
  pub identity : ResourceIdentity
  pub parameter : String
  pub before : Value
  pub after : Value
  pub file_content : Option FileContentEvidence
  pub fingerprint : String

pub record EdgeChange : Type 0 where
  pub kind : ChangeKind
  pub edge : Edge

pub record ExclusionRuleRef : Type 0 where
  pub type : String
  pub title : String

pub record ExclusionOutcome : Type 0 where
  pub rule : ExclusionRuleRef
  pub suppressed_resources : ℕ
  pub suppressed_parameters : ℕ
  pub suppressed_edges : ℕ

pub record NodeDiff : Type 0 where
  pub certname : String
  pub resource_changes : List ResourceChange
  pub edge_changes : List EdgeChange
  pub exclusions : List ExclusionOutcome
  pub has_difference : Bool

pub record AggregateChangeKey : Type 0 where
  pub kind : ChangeKind
  pub identity : Option ResourceIdentity
  pub parameter : String
  pub edge : Option Edge

pub record NodeChangeRef : Type 0 where
  pub certname : String
  pub index : ℕ

pub record AggregateGroup : Type 0 where
  pub key : AggregateChangeKey
  pub file_content : Option FileContentSummary
  pub before : Value
  pub after : Value
  pub certnames : List String
  pub node_change_refs : List NodeChangeRef
