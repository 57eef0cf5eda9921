-- ===== src/Outcome.antt =====
-- internal/model/outcome.go and `Finalize` of result.go: the outcome class of a target, the reduced
-- outcome of a run, and the ordered list of reasons.
pub mod Reasons
pub mod Classify
pub mod Run
use Prim.Native.String.{◌++◌ as ◌<>◌}
use piace.Base.{
  ℕ, String, Bool, true, false, not, ◌≡◌, Option, none, some, List, [], ◌∷◌, ◌++◌, map, ◌==◌,
  string_eq, if◌then◌else◌, length,
}
use piace.Base.Decimal.{decimal}
use piace.Exitcode
use piace.Exitcode.{
  Outcome, clean, differences_allowed, policy_disallowed_difference, compilation_failure,
  operational_error, for_outcome, reduce_all, outcome_text, precedence, index_from,
}
use piace.Model.Diagnostic.{Severity, Operation, Diagnostic, operation_text}
use piace.Model.Change.{NodeDiff}
use piace.Model.Provenance.{ConfigProvenance}
use piace.Model.Result.{TargetResult, Result}

-- The table `diagnosticOutcome`.
unfoldable pub diagnostic_outcome : Operation → Option Outcome
diagnostic_outcome Operation.request_candidate = some compilation_failure
diagnostic_outcome (Operation.other s) = none
diagnostic_outcome _ = some operational_error

or_operational : Option Outcome → Outcome
or_operational none = operational_error
or_operational (some o) = o

outcome_of : Severity → Operation → Option Outcome
outcome_of Severity.error op = some (or_operational (diagnostic_outcome op))
outcome_of _ op = none

-- `none` where the second result is false.
unfoldable pub outcome_for_diagnostic : Diagnostic → Option Outcome
unfolding outcome_of or_operational diagnostic_outcome
outcome_for_diagnostic d = outcome_of d.severity d.operation

-- One round of the loop; the sentinel `""` of the source is `none`.
worst_step : Option Outcome → Option Outcome → Option Outcome
worst_step worst none = worst
worst_step none (some o) = some o
worst_step (some w) (some o) = some (Exitcode.reduce w o)

unfoldable pub worst_of : Option Outcome → List Diagnostic → Option Outcome
unfolding worst_step outcome_for_diagnostic
worst_of worst [] = worst
worst_of worst (d ∷ ds) = worst_of (worst_step worst (outcome_for_diagnostic d)) ds

fails_on_diff : Option ConfigProvenance → Bool
fails_on_diff none = false
fails_on_diff (some c) = c.fail_on_diff

diff_outcome : Option NodeDiff → Option ConfigProvenance → Outcome
diff_outcome none config = operational_error
diff_outcome (some nd) config =
    if not nd.has_difference
    then clean
    else if fails_on_diff config
    then policy_disallowed_difference
    else differences_allowed

settle : Option Outcome → Outcome → Outcome
settle none o = o
settle (some worst) o = worst

-- The outcome that `ClassifyOutcome` sets.
unfoldable pub outcome_of_target : TargetResult → Outcome
unfolding worst_of diff_outcome fails_on_diff settle
outcome_of_target t = settle (worst_of none t.diagnostics) (diff_outcome t.node_diff t.config)

unfoldable pub classify_outcome : TargetResult → TargetResult
unfolding outcome_of_target
classify_outcome t = record t { outcome = outcome_of_target t }

abbrev prepend : Option Outcome → List Outcome → List Outcome
prepend none os = os
prepend (some o) os = o ∷ os

-- The outcomes that run-level diagnostics contribute.
unfoldable pub contributions : List Diagnostic → List Outcome
unfolding outcome_for_diagnostic
contributions [] = []
contributions (d ∷ ds) = prepend (outcome_for_diagnostic d) (contributions ds)

unfoldable pub finalize : Result → Result
unfolding contributions
finalize r =
    let outcome = reduce_all (map (λ t. t.outcome) r.targets ++ contributions r.diagnostics) in
    record r { outcome = outcome; exit_code = for_outcome outcome }

-- An entry of the reason list with its sort keys.
pub record Reason : Type 0 where
  pub rank : ℕ
  pub certname : String
  pub text : String

-- The local `rank` of `buildReasons`: an outcome that is not listed has the most severe rank.
unfoldable pub rank_or_zero : Outcome → ℕ
unfolding Exitcode.rank
rank_or_zero o = elim (Exitcode.rank o) [ none ↦ 0 | some i ↦ i ]

unfoldable pub diagnostic_reason : Diagnostic → List Reason
unfolding outcome_for_diagnostic rank_or_zero outcome_text operation_text
diagnostic_reason d = elim (outcome_for_diagnostic d) [
  | none ↦ []
  | some o ↦
      record {
        rank = rank_or_zero o;
        certname = "";
        text = outcome_text o <> (" (" <> (operation_text d.operation <> ("): " <> d.message)));
      }
      ∷ []
]

no_match_text : Option NodeDiff → String → String
no_match_text none fallback =
    if not (fallback == "") then fallback else "no node diff was produced for this target"
no_match_text (some nd) fallback =
    if not (fallback == "") then fallback else "non-excluded difference"

message_from : Outcome → Option NodeDiff → String → List Diagnostic → String
unfolding no_match_text
message_from o nd fallback [] = no_match_text nd fallback
message_from o nd fallback (d ∷ ds) =
    let skip = message_from o nd fallback ds in
    let keep = message_from o nd (if fallback == "" then d.message else fallback) ds in
    elim (outcome_for_diagnostic d) [
      | none ↦ skip
      | some contributed ↦ if outcome_text contributed == outcome_text o then d.message else keep
    ]

unfoldable pub outcome_message : TargetResult → String
unfolding message_from outcome_for_diagnostic outcome_text
outcome_message t = message_from t.outcome t.node_diff "" t.diagnostics

reason_of : TargetResult → Outcome → List Reason
reason_of t operational_error =
    record {
      rank = rank_or_zero operational_error;
      certname = t.certname;
      text =
          "target "
          <> (t.certname
              <> (": " <> (outcome_text operational_error <> (": " <> outcome_message t))));
    }
    ∷ []
reason_of t compilation_failure =
    record {
      rank = rank_or_zero compilation_failure;
      certname = t.certname;
      text =
          "target "
          <> (t.certname
              <> (": " <> (outcome_text compilation_failure <> (": " <> outcome_message t))));
    }
    ∷ []
reason_of t policy_disallowed_difference =
    record {
      rank = rank_or_zero policy_disallowed_difference;
      certname = t.certname;
      text = "target " <> (t.certname <> ": non-excluded difference with fail_on_diff enabled");
    }
    ∷ []
reason_of t differences_allowed =
    record {
      rank = rank_or_zero differences_allowed;
      certname = t.certname;
      text = "target " <> (t.certname <> ": non-excluded difference allowed by policy");
    }
    ∷ []
reason_of t _ = []

unfoldable pub target_reason : TargetResult → List Reason
unfolding reason_of rank_or_zero outcome_text outcome_message
target_reason t = reason_of t t.outcome
