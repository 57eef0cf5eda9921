-- ===== src/Model/Result.antt =====
-- internal/model/result.go and impact.go: the result of one target, and the document of a run.
use piace.Base.{ℕ, String, Bool, Option, List}
use piace.Exitcode.{Outcome, Code}
use piace.Model.Catalog.{ResourceIdentity}
use piace.Model.Diagnostic.{Diagnostic}
use piace.Model.Change.{NodeDiff, AggregateGroup}
use piace.Model.Provenance.{SourceProvenance, CandidateProvenance, ConfigProvenance}

pub data ImpactStatus : Type 0 where
  pending completed timeout failed : ImpactStatus

pub record ImpactRequest : Type 0 where
  pub path : String
  pub limit : ℕ
  pub order_by : String

pub record ImpactEstimate : Type 0 where
  pub identity : ResourceIdentity
  pub pql : String
  pub request : ImpactRequest
  pub result_limit : ℕ
  pub timeout : String
  pub status : ImpactStatus
  pub certnames : List String
  pub result_count : ℕ
  pub truncated : Bool
  pub failure_reason : String

pub record ServiceProvenance : Type 0 where
  pub compiler : String
  pub puppetdb : String

pub record Invocation : Type 0 where
  pub tool_version : String
  pub timestamp_utc : String
  pub services : Option ServiceProvenance

pub record TargetResult : Type 0 where
  pub certname : String
  pub outcome : Outcome
  pub baseline : Option SourceProvenance
  pub facts : Option SourceProvenance
  pub candidate : Option CandidateProvenance
  pub config : Option ConfigProvenance
  pub node_diff : Option NodeDiff
  pub diagnostics : List Diagnostic

pub record Result : Type 0 where
  pub schema_version : ℕ
  pub invocation : Invocation
  pub targets : List TargetResult
  pub aggregate : List AggregateGroup
  pub impact_estimates : List ImpactEstimate
  pub diagnostics : List Diagnostic
  pub outcome : Outcome
  pub exit_code : Code
  pub reasons : List String
