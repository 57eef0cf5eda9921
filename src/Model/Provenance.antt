-- ===== src/Model/Provenance.antt =====
-- internal/model/provenance.go. String-typed enumerations stay strings here: nothing branches on
-- them but the comparison with a constant.
use piace.Base.{String, Bool, Option, List}
use piace.Model.Value.{Fields}
use piace.Model.Change.{ExclusionRuleRef}

pub record BaselineCapture : Type 0 where
  pub requested_api : String
  pub effective_api : String
  pub fell_back_from_v4 : Bool
  pub trusted_facts_source : String
  pub fact_source : String
  pub v3_warning : String

pub record SourceProvenance : Type 0 where
  pub kind : String
  pub certname : String
  pub environment : String
  pub producer_timestamp : String
  pub catalog_identity : String
  pub producer : String
  pub capture : Option BaselineCapture

pub record CandidateProvenance : Type 0 where
  pub requested_api : String
  pub effective_api : String
  pub environment : String
  pub fact_source : String
  pub factset_identity : String
  pub trusted_facts_source : String
  pub fell_back_from_v4 : Bool
  pub v3_warning : String

pub record RedactionSelectorRef : Type 0 where
  pub type : String
  pub parameter : String

pub record ConfigProvenance : Type 0 where
  pub candidate : Fields
  pub facts : Fields
  pub baseline : Fields
  pub exclude : List ExclusionRuleRef
  pub redact : List RedactionSelectorRef
  pub impact_estimate : Fields
  pub fail_on_diff : Bool
