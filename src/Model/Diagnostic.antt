-- ===== src/Model/Diagnostic.antt =====
-- internal/model/diagnostic.go. `other` stands for a string that is none of the constants.
use piace.Base.{String}

pub data Severity : Type 0 where
  warning error : Severity
  other : String → Severity

pub data Operation : Type 0 where
  configure load_facts load_baseline request_candidate normalize verify_content : Operation
  estimate_impact snapshot request_candidate_transport : Operation
  other : String → Operation

pub record Diagnostic : Type 0 where
  pub severity : Severity
  pub operation : Operation
  pub certname : String
  pub source : String
  pub message : String

unfoldable pub operation_text : Operation → String
operation_text Operation.configure = "configure"
operation_text Operation.load_facts = "load_facts"
operation_text Operation.load_baseline = "load_baseline"
operation_text Operation.request_candidate = "request_candidate"
operation_text Operation.normalize = "normalize"
operation_text Operation.verify_content = "verify_content"
operation_text Operation.estimate_impact = "estimate_impact"
operation_text Operation.snapshot = "snapshot"
operation_text Operation.request_candidate_transport = "request_candidate_transport"
operation_text (Operation.other s) = s
