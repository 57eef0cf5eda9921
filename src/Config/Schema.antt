-- ===== src/Config/Schema.antt =====
-- The target file (internal/config/target.go). A pointer that may be nil is an `Option`.
use piace.Base.{String, Bool, Option, List}
use piace.Base.Integer.{ℤ}
use piace.Config.{ExclusionRule, RedactionSelector}

pub record CandidateConfig : Type 0 where
  pub environment : String
  pub catalog_api : String
  pub allow_v3_fallback : Option Bool
  pub trusted_facts_compiler_lookup : Option Bool

pub record FactsConfig : Type 0 where
  pub source : String
  pub file : String

pub record BaselineConfig : Type 0 where
  pub source : String
  pub environment : String
  pub file : String

pub record ImpactEstimateConfig : Type 0 where
  pub enabled : Option Bool
  pub timeout : String
  pub result_limit : Option ℤ

pub record Defaults : Type 0 where
  pub candidate : CandidateConfig
  pub facts : FactsConfig
  pub baseline : BaselineConfig
  pub exclude : List ExclusionRule
  pub redact : List RedactionSelector
  pub impact_estimate : ImpactEstimateConfig
  pub fail_on_diff : Option Bool

pub record TargetEntry : Type 0 where
  pub certname : String
  pub candidate : Option CandidateConfig
  pub facts : Option FactsConfig
  pub baseline : Option BaselineConfig
  pub exclude : List ExclusionRule
  pub redact : List RedactionSelector
  pub impact_estimate : Option ImpactEstimateConfig
  pub fail_on_diff : Option Bool

pub record TargetFile : Type 0 where
  pub version : ℤ
  pub defaults : Defaults
  pub targets : List TargetEntry

abbrev pub api_v3 : String
api_v3 = "v3"

abbrev pub api_v4 : String
api_v4 = "v4"

abbrev pub source_puppetdb : String
source_puppetdb = "puppetdb"

abbrev pub source_file : String
source_file = "file"
