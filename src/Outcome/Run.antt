-- ===== src/Outcome/Run.antt =====
-- The exit code of a run, against its targets and its run-level diagnostics.
use piace.Base.{
  max, ◌≡◌, refl, ◌↔◌, List, [], ◌∷◌, map, arith, Option, none, some, All, ◌∙◌, nat_eq,
  if◌then◌else◌,
}
use piace.Exitcode.{Code, Outcome, success}
use piace.Exitcode.Laws.{max_code, for_outcome-reduce_all, max_code-append}
use piace.Model.Diagnostic.{Diagnostic}
use piace.Model.Change.{NodeDiff}
use piace.Model.Provenance.{ConfigProvenance}
use piace.Model.Result.{TargetResult, Result}
use piace.Outcome.{
  outcome_for_diagnostic, outcome_of_target, classify_outcome, contributions, finalize,
}
use piace.Outcome.Reasons.{reduce_result}
use piace.Outcome.Classify.{
  code_of, diagnostics_code, diff_code, target_code, diagnostic_outcome_code,
  outcome_of_target_code,
}

abbrev pub targets_code : List TargetResult → Code
targets_code [] = 0
targets_code (t ∷ ts) = max (target_code t) (targets_code ts)

prepend_code :
    (o : Option Outcome) (os : List Outcome)
    → max_code (piace.Outcome.prepend o os) ≡ max (code_of o) (max_code os)
prepend_code none os = omega arith
prepend_code (some o) os = refl

contributions_code : (ds : List Diagnostic) → max_code (contributions ds) ≡ diagnostics_code ds
unfolding contributions
contributions_code [] = refl
contributions_code (d ∷ ds) = omega (
  arith,
  prepend_code (outcome_for_diagnostic d) (contributions ds),
  (diagnostic_outcome_code d).0,
  contributions_code ds,
)

classified_code :
    (ts : List TargetResult)
    → max_code (map (λ t. t.outcome) (map classify_outcome ts)) ≡ targets_code ts
unfolding classify_outcome
classified_code [] = refl
classified_code (t ∷ ts) = omega (arith, outcome_of_target_code t, classified_code ts)

-- The exit code of a run is the greatest of the codes of its targets and of its run-level
-- diagnostics: 30 for any operational error, else 20 for a compilation failure, else 10 for a
-- difference on a target with fail_on_diff enabled, else 0.
pub exit_code-reduce_result :
    (r : Result)
    → (reduce_result r).exit_code ≡ max (targets_code r.targets) (diagnostics_code r.diagnostics)
unfolding reduce_result
exit_code-reduce_result r =
    for_outcome-reduce_all _
    ∙ (max_code-append (map (λ t. t.outcome) (map classify_outcome r.targets)) _
        ∙ omega (arith, classified_code r.targets, contributions_code r.diagnostics))

-- A target that leaves a run successful.
abbrev pub IsAllowed : TargetResult → Type 0
IsAllowed t =
    (diagnostics_code t.diagnostics ≡ 0)
    × ((nd : NodeDiff) × (t.node_diff ≡ some nd) × (diff_code (some nd) t.config ≡ 0))

allowed_of_code :
    (errors : Code) (nd : Option NodeDiff) (c : Option ConfigProvenance)
    → (if nat_eq errors 0 then diff_code nd c else errors) ≡ 0
    → (errors ≡ 0) × ((d : NodeDiff) × (nd ≡ some d) × (diff_code (some d) c ≡ 0))
allowed_of_code errors none c h = ground arith
allowed_of_code errors (some d) c h = (ground arith, (d, refl, ground arith))

IsAllowed-code : (t : TargetResult) → IsAllowed t → target_code t ≡ 0
IsAllowed-code t (errors, (d, same, allowed)) = rw (errors, same) allowed

All-IsAllowed : (ts : List TargetResult) → targets_code ts ≡ 0 → All IsAllowed ts
All-IsAllowed [] h = tt
All-IsAllowed (t ∷ ts) h = (
  allowed_of_code (diagnostics_code t.diagnostics) t.node_diff t.config (omega arith),
  All-IsAllowed ts (omega arith),
)

targets_code-eq-zero : (ts : List TargetResult) → All IsAllowed ts → targets_code ts ≡ 0
targets_code-eq-zero [] h = refl
targets_code-eq-zero (t ∷ ts) (h, hs) =
    omega (arith, IsAllowed-code t h, targets_code-eq-zero ts hs)

-- A run exits with success exactly when no run-level diagnostic is an error and every target was
-- compared without an error diagnostic, with no difference that its policy refuses.
pub exit_success_iff :
    (r : Result)
    → ((reduce_result r).exit_code ≡ success)
      ↔ (All IsAllowed r.targets × (diagnostics_code r.diagnostics ≡ 0))
exit_success_iff r = (
  λ h. (
    All-IsAllowed r.targets (omega (arith, exit_code-reduce_result r)),
    omega (arith, exit_code-reduce_result r),
  ),
  λ (allowed, quiet).
      omega (arith, exit_code-reduce_result r, targets_code-eq-zero r.targets allowed),
)
