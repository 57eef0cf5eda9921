-- ===== src/Config.antt =====
-- The resolved configuration of a target (internal/config and internal/config/resolve/types.go).
pub mod Schema
pub mod Paths
pub mod Resolve
pub mod Run
pub mod Provenance
pub mod Services
use piace.Base.{ℕ, String, Bool, List}

pub record ExclusionRule : Type 0 where
  pub type : String
  pub title : String

pub record RedactionSelector : Type 0 where
  pub type : String
  pub parameter : String

pub record Candidate : Type 0 where
  pub environment : String
  pub catalog_api : String
  pub allow_v3_fallback : Bool
  pub trusted_facts_compiler_lookup : Bool

pub record Facts : Type 0 where
  pub source : String
  pub file : String

pub record Baseline : Type 0 where
  pub source : String
  pub environment : String
  pub file : String

-- The timeout is a number of nanoseconds.
pub record ImpactPolicy : Type 0 where
  pub enabled : Bool
  pub timeout : ℕ
  pub result_limit : ℕ

pub record Target : Type 0 where
  pub certname : String
  pub candidate : Candidate
  pub facts : Facts
  pub baseline : Baseline
  pub exclude : List ExclusionRule
  pub redact : List RedactionSelector
  pub impact_estimate : ImpactPolicy
  pub fail_on_diff : Bool
