-- ===== src/Examples/Outcomes.antt =====
-- The outcome of example runs.
use piace.Base.{max, true, false, none, some, [], ◌∷◌, ◌≡◌, refl, ◌↔◌, All, arith}
use piace.Base.Sort.{SameItems}
use piace.Exitcode.{compilation_failure, for_outcome, reduce, reduce_all, success}
use piace.Model.Diagnostic.{Severity, Operation}
use piace.Model.Result.{TargetResult, Result}
use piace.Outcome.{outcome_of_target}
use piace.Outcome.Classify.{diagnostics_code}
use piace.Outcome.Reasons.{reduce_result}
use piace.Outcome.Reasons.Laws.{reasons_of_SameItems}
use piace.Outcome.Run.{targets_code, IsAllowed, exit_code-reduce_result, exit_success_iff}
use piace.Examples.Data.{diagnostic, changed_node, target_result, result}

abbrev quiet_target : TargetResult
quiet_target = target_result "web1" (some (changed_node false)) []

abbrev broken_target : TargetResult
broken_target = target_result "web2" none (
    diagnostic Severity.warning Operation.normalize
    ∷ diagnostic Severity.error Operation.request_candidate
    ∷ [])

abbrev changed_target : TargetResult
changed_target = target_result "web3" (some (changed_node true)) []

abbrev good_run : Result
good_run = result (quiet_target ∷ changed_target ∷ []) []

abbrev bad_run : Result
bad_run =
    result (quiet_target ∷ broken_target ∷ []) (diagnostic Severity.warning Operation.snapshot ∷ [])

broken_outcome : outcome_of_target broken_target ≡ compilation_failure
unfolding outcome_of_target
broken_outcome = refl

bad_code : (reduce_result bad_run).exit_code ≡ 20
unfolding reduce_result for_outcome reduce_all reduce
bad_code = refl

exit_code-reduce_result_example :
    (reduce_result bad_run).exit_code
    ≡ max (targets_code bad_run.targets) (diagnostics_code bad_run.diagnostics)
exit_code-reduce_result_example = exit_code-reduce_result bad_run

exit_success_iff_example :
    ((reduce_result good_run).exit_code ≡ success)
    ↔ (All IsAllowed good_run.targets × (diagnostics_code good_run.diagnostics ≡ 0))
exit_success_iff_example = exit_success_iff good_run

swapped : SameItems (quiet_target ∷ broken_target ∷ []) (broken_target ∷ quiet_target ∷ [])
swapped p = omega arith

reasons_of_SameItems_example :
    (reduce_result (result (quiet_target ∷ broken_target ∷ []) [])).reasons
    ≡ (reduce_result (result (broken_target ∷ quiet_target ∷ []) [])).reasons
reasons_of_SameItems_example =
    reasons_of_SameItems (result (quiet_target ∷ broken_target ∷ []) [])
      (result (broken_target ∷ quiet_target ∷ []) []) swapped (λ p. refl)
