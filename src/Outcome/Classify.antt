-- ===== src/Outcome/Classify.antt =====
-- The outcome class of one target, against its diagnostics and its node diff.
use piace.Base.{
  ◌≤◌, max, ◌≡◌, refl, ◌↔◌, false, List, [], ◌∷◌, arith, Option, none, some, nat_eq, if◌then◌else◌,
  ◌&&◌, subst,
}
use piace.Exitcode.{Code, Outcome, clean, for_outcome}
use piace.Exitcode.Laws.{for_outcome-reduce}
use piace.Model.Diagnostic.{Severity, Operation, Diagnostic}
use piace.Model.Change.{NodeDiff}
use piace.Model.Provenance.{ConfigProvenance}
use piace.Model.Result.{TargetResult}
use piace.Outcome.{
  outcome_for_diagnostic, worst_step, worst_of, fails_on_diff, diff_outcome, outcome_of_target,
  settle,
}

-- An error of the compiler's answer counts 20, any other error 30, and a warning nothing.
abbrev pub diagnostic_code : Diagnostic → Code
diagnostic_code d = error_code d.severity d.operation
  where
    error_code : Severity → Operation → Code
    error_code Severity.error Operation.request_candidate = 20
    error_code Severity.error _ = 30
    error_code _ _ = 0

abbrev pub diagnostics_code : List Diagnostic → Code
diagnostics_code [] = 0
diagnostics_code (d ∷ ds) = max (diagnostic_code d) (diagnostics_code ds)

-- A target that was never compared counts 30; a difference counts 10 where the policy refuses it.
abbrev pub diff_code : Option NodeDiff → Option ConfigProvenance → Code
diff_code none config = 30
diff_code (some nd) none = 0
diff_code (some nd) (some c) = if nd.has_difference && c.fail_on_diff then 10 else 0

abbrev pub target_code : TargetResult → Code
target_code t =
    let errors = diagnostics_code t.diagnostics in
    if nat_eq errors 0 then diff_code t.node_diff t.config else errors

abbrev pub code_of : Option Outcome → Code
code_of none = 0
code_of (some o) = for_outcome o

abbrev pub IsError : Option Outcome → Type 0
IsError none = Unit
IsError (some o) = 20 ≤ for_outcome o

pub diagnostic_outcome_code :
    (d : Diagnostic)
    → (code_of (outcome_for_diagnostic d) ≡ diagnostic_code d) × IsError (outcome_for_diagnostic d)
unfolding outcome_for_diagnostic for_outcome
diagnostic_outcome_code d = ground arith

worst_step_code :
    (w o : Option Outcome)
    → IsError w
    → IsError o
    → (code_of (worst_step w o) ≡ max (code_of w) (code_of o)) × IsError (worst_step w o)
unfolding worst_step
worst_step_code none none h k = (omega arith, tt)
worst_step_code none (some o) h k = (omega arith, k)
worst_step_code (some w) none h k = (omega arith, h)
worst_step_code (some w) (some o) h k =
    (omega (arith, for_outcome-reduce w o), omega (arith, for_outcome-reduce w o))

worst_of_code :
    (w : Option Outcome) (ds : List Diagnostic)
    → IsError w
    → (code_of (worst_of w ds) ≡ max (code_of w) (diagnostics_code ds)) × IsError (worst_of w ds)
unfolding worst_of
worst_of_code w [] h = (omega arith, h)
worst_of_code w (d ∷ ds) h =
    let (code, error) = diagnostic_outcome_code d in
    let (code', error') = worst_step_code w (outcome_for_diagnostic d) h error in
    let (rest, last) = worst_of_code (worst_step w (outcome_for_diagnostic d)) ds error' in
    (omega arith, last)

diff_outcome_code :
    (nd : Option NodeDiff) (c : Option ConfigProvenance)
    → for_outcome (diff_outcome nd c) ≡ diff_code nd c
unfolding diff_outcome fails_on_diff for_outcome
diff_outcome_code nd c = ground arith

settle_code :
    (w : Option Outcome) (o : Outcome) (errors rest : Code)
    → code_of w ≡ errors
    → IsError w
    → for_outcome o ≡ rest
    → for_outcome (settle w o) ≡ (if nat_eq errors 0 then rest else errors)
unfolding settle
settle_code none o errors rest h k r = ground arith
settle_code (some w) o errors rest h k r = ground arith

-- The exit code of a target's outcome class: the most severe error diagnostic decides; without
-- one, a target that was not compared is an operational error, and a difference counts only where
-- the target has fail_on_diff enabled.
pub outcome_of_target_code : (t : TargetResult) → for_outcome (outcome_of_target t) ≡ target_code t
unfolding outcome_of_target
outcome_of_target_code t =
    let (code, error) = worst_of_code none t.diagnostics tt in
    settle_code (worst_of none t.diagnostics) (diff_outcome t.node_diff t.config)
      (diagnostics_code t.diagnostics) (diff_code t.node_diff t.config) (omega arith) error
      (diff_outcome_code t.node_diff t.config)

settle-eq-clean :
    (w : Option Outcome) (nd : Option NodeDiff) (c : Option ConfigProvenance)
    → IsError w
    → settle w (diff_outcome nd c) ≡ clean
    → (code_of w ≡ 0) × ((d : NodeDiff) × (nd ≡ some d) × (d.has_difference ≡ false))
unfolding settle diff_outcome fails_on_diff for_outcome
settle-eq-clean none (some d) c h e = (refl, (d, refl, ground arith))
settle-eq-clean none none c h e = ground arith
settle-eq-clean (some w) nd c h e = absurd (omega (arith, subst (λ o. 20 ≤ for_outcome o) e h))

settle_clean :
    (w : Option Outcome) (nd : Option NodeDiff) (c : Option ConfigProvenance)
    → IsError w
    → code_of w ≡ 0
    → (d : NodeDiff) × (nd ≡ some d) × (d.has_difference ≡ false)
    → settle w (diff_outcome nd c) ≡ clean
unfolding settle diff_outcome
settle_clean none nd c h z (d, same, none_found) = rw same (ground arith)
settle_clean (some w) nd c h z compared = absurd (omega arith)

-- A target is clean exactly when none of its diagnostics is an error, it was compared, and the
-- comparison found no difference.
pub outcome-eq-clean_iff :
    (t : TargetResult)
    → (outcome_of_target t ≡ clean) ↔ (
        (diagnostics_code t.diagnostics ≡ 0)
        × ((nd : NodeDiff) × (t.node_diff ≡ some nd) × (nd.has_difference ≡ false)))
unfolding outcome_of_target
outcome-eq-clean_iff t =
    let (code, error) = worst_of_code none t.diagnostics tt in
    (
      λ e.
          let (zero_code, compared) =
            settle-eq-clean (worst_of none t.diagnostics) t.node_diff t.config error e in
          (omega arith, compared),
      λ (zero_code, compared).
          settle_clean (worst_of none t.diagnostics) t.node_diff t.config error (omega arith)
            compared,
    )
