-- ===== src/Compare/Run/Laws.antt =====
-- Runs of internal/compare/workflow.go over all targets.
use piace.Base.{
  any, Bool, true, ◌&&◌, ◌||◌, ◌==◌, string_eq, ◌≢◌, Bool-cases, inl, inr, arith, String, Option,
  none, some, List, [], ◌∷◌, ◌++◌, map, All, ◌≡◌, refl, sym, ap, ◌∙◌, subst, arith,
}
use piace.Base.Order.{str_le}
use piace.Base.Sort.{sort}
use piace.Base.Sort.Items.{map-sort}
use piace.Exitcode.{success, operational_error_code}
use piace.Model.Change.{AggregateGroup}
use piace.Model.Diagnostic.{Diagnostic}
use piace.Model.Result.{ImpactEstimate, TargetResult, Result}
use piace.Outcome.{classify_outcome, finalize}
use piace.Outcome.Reasons.{reduce_result}
use piace.Outcome.Run.{exit_code-reduce_result, exit_success_iff, IsAllowed}
use piace.Config.{Target}
use piace.Config.Provenance.{error_text}
use piace.Config.Run.{validate_comparison_targets, can_persist}
use piace.Aggregate.Build.{build}
use piace.Compare.{Workflow, RunConfig, compare_target, estimate_impact, new_result}
use piace.Compare.Laws.{compare_target-IsTargetResult}
use piace.Compare.Run.{
  persistence_problem, refusal, node_diffs, certname_le, reduced, run_targets, run_checked, run,
}

abbrev certnames : List TargetResult → List String
certnames trs = map (λ t. t.certname) trs

classified-certnames :
    (trs : List TargetResult) → certnames (map classify_outcome trs) ≡ certnames trs
unfolding classify_outcome
classified-certnames [] = refl
classified-certnames (t ∷ trs) = ap (λ l. t.certname ∷ l) (classified-certnames trs)

compared-certnames :
    (w : Workflow) (ts : List Target)
    → certnames (map (compare_target w) ts) ≡ map (λ t. t.certname) ts
compared-certnames w [] = refl
compared-certnames w (t ∷ ts) =
    let (e, _, _) = compare_target-IsTargetResult w t in rw (e, compared-certnames w ts) refl

reduced-certnames :
    (r : Result) (trs : List TargetResult) (estimates : List ImpactEstimate × List Diagnostic)
    (groups : Option (List AggregateGroup)) (s : Result)
    → reduced r trs estimates groups ≡ some s
    → certnames s.targets ≡ sort str_le (certnames trs)
unfolding reduced reduce_result finalize certname_le
reduced-certnames r trs estimates none s h = absurd (cc)
reduced-certnames r trs estimates (some groups) s h =
    ap (λ o. certnames (targets_of o)) (sym h)
    ∙ (classified-certnames (sort certname_le trs) ∙ map-sort (λ t. t.certname) str_le trs)
  where
    targets_of : Option Result → List TargetResult
    targets_of none = []
    targets_of (some x) = x.targets

-- A run that passes the check of a comparison has one result for each configured target and no other,
-- in ascending order of the certnames, whatever the sources and the compiler answer.
pub run-certnames :
    (w : Workflow) (cfg : RunConfig) (s : Result)
    → validate_comparison_targets cfg.targets ≡ []
    → run w cfg ≡ some s
    → map (λ t. t.certname) s.targets ≡ sort str_le (map (λ t. t.certname) cfg.targets)
unfolding run run_checked run_targets
run-certnames w cfg s e = rw e (λ h.
    reduced-certnames (new_result w cfg) (map (compare_target w) cfg.targets)
      (estimate_impact w cfg.targets (node_diffs (map (compare_target w) cfg.targets)))
      (build (node_diffs (map (compare_target w) cfg.targets))) s h
    ∙ ap (sort str_le) (compared-certnames w cfg.targets))

-- A run that passes the check of a comparison, and whose aggregation does not panic, gives a result,
-- whatever the sources, the compiler and the querier answer: one for each configured target and no
-- other, in ascending order of the certnames.
pub run_complete :
    (w : Workflow) (cfg : RunConfig) (groups : List AggregateGroup)
    → validate_comparison_targets cfg.targets ≡ []
    → build (node_diffs (map (compare_target w) cfg.targets)) ≡ some groups
    → (s : Result) × (run w cfg ≡ some s)
      × (map (λ t. t.certname) s.targets ≡ sort str_le (map (λ t. t.certname) cfg.targets))
unfolding run run_checked run_targets reduced
run_complete w cfg groups e b =
    let trs = map (compare_target w) cfg.targets in
    let estimates = estimate_impact w cfg.targets (node_diffs trs) in
    let s : Result = reduce_result (record (new_result w cfg) {
      targets = sort certname_le trs;
      aggregate = groups;
      impact_estimates = estimates.0;
      diagnostics = (new_result w cfg).diagnostics ++ estimates.1;
    }) in
    let done : run w cfg ≡ some s = rw (e, b) refl in (s, done, run-certnames w cfg s e done)

same_result : (r s : Result) → some r ≡ some s → r ≡ s
same_result r s h = cc

-- The result of a run whose comparison is refused.
abbrev refused_result : Workflow → RunConfig → String → Result
refused_result w cfg message = record (new_result w cfg) { diagnostics = refusal message ∷ [] }

refused-code :
    (w : Workflow) (cfg : RunConfig) (message : String)
    → (reduce_result (refused_result w cfg message)).exit_code ≡ 30
unfolding new_result refusal
refused-code w cfg message = exit_code-reduce_result (refused_result w cfg message) ∙ omega arith

refused-targets :
    (w : Workflow) (cfg : RunConfig) (message : String)
    → (reduce_result (refused_result w cfg message)).targets ≡ []
unfolding reduce_result finalize new_result
refused-targets w cfg message = refl

refused_run :
    (w : Workflow) (cfg : RunConfig) (cs : List String)
    → validate_comparison_targets cfg.targets ≡ cs
    → cs ≢ []
    → (s : Result) × (run w cfg ≡ some s)
      × (s.exit_code ≡ operational_error_code)
      × (s.targets ≡ [])
unfolding run run_checked
refused_run w cfg [] h k = absurd (k refl)
refused_run w cfg (c ∷ cs) h k =
    let message = error_text (map (persistence_problem w) (c ∷ cs)) in
    (
      reduce_result (refused_result w cfg message),
      rw h refl,
      refused-code w cfg message,
      refused-targets w cfg message,
    )

-- A target with a baseline of PuppetDB whose candidate may be compiled by the v3 API, which stores it.
abbrev pub may_persist : Target → Bool
may_persist t =
    t.baseline.source == "puppetdb"
    && (t.candidate.catalog_api == "v3" || t.candidate.allow_v3_fallback)

persisting-problem :
    (ts : List Target) → any may_persist ts ≡ true → validate_comparison_targets ts ≢ []
unfolding validate_comparison_targets can_persist
persisting-problem [] h = absurd (ground (arith, h))
persisting-problem (t ∷ ts) h = elim (Bool-cases (may_persist t)) [
  | inl e ↦ rw e (λ k. absurd (cc))
  | inr e ↦ rw e (persisting-problem ts (ground (arith, h, e)))
]

-- A run in which some target has a baseline of PuppetDB and a candidate that may be compiled by the v3
-- API, by its choice or as a fallback, is refused: it gives a result with the exit code of an
-- operational error and without targets.
pub run-refused :
    (w : Workflow) (cfg : RunConfig)
    → any may_persist cfg.targets ≡ true
    → (s : Result) × (run w cfg ≡ some s)
      × (s.exit_code ≡ operational_error_code)
      × (s.targets ≡ [])
run-refused w cfg h =
    refused_run w cfg (validate_comparison_targets cfg.targets) refl
      (persisting-problem cfg.targets h)

classified-IsAllowed :
    (trs : List TargetResult) → All IsAllowed trs → All IsAllowed (map classify_outcome trs)
unfolding classify_outcome
classified-IsAllowed [] h = tt
classified-IsAllowed (t ∷ trs) (h, hs) = (h, classified-IsAllowed trs hs)

reduced-IsAllowed :
    (r s : Result) → reduce_result r ≡ s → s.exit_code ≡ success → All IsAllowed s.targets
unfolding reduce_result finalize
reduced-IsAllowed r s e h =
    let code : (reduce_result r).exit_code ≡ success = ap (λ x. x.exit_code) e ∙ h in
    subst (λ x. All IsAllowed x.targets) e
      (classified-IsAllowed r.targets ((exit_success_iff r).0 code).0)

groups-IsAllowed :
    (r : Result) (trs : List TargetResult) (estimates : List ImpactEstimate × List Diagnostic)
    (groups : Option (List AggregateGroup)) (s : Result)
    → reduced r trs estimates groups ≡ some s
    → s.exit_code ≡ success
    → All IsAllowed s.targets
unfolding reduced
groups-IsAllowed r trs estimates none s e h = absurd (cc)
groups-IsAllowed r trs estimates (some groups) s e h =
    reduced-IsAllowed
      (record r {
        targets = sort certname_le trs;
        aggregate = groups;
        impact_estimates = estimates.0;
        diagnostics = r.diagnostics ++ estimates.1;
      })
      s (same_result _ s e) h

checked-success :
    (w : Workflow) (cfg : RunConfig) (cs : List String) (s : Result)
    → run_checked w cfg cs ≡ some s
    → s.exit_code ≡ success
    → (cs ≡ []) × All IsAllowed s.targets
unfolding run_checked run_targets
checked-success w cfg [] s e h = (
  refl,
  groups-IsAllowed (new_result w cfg) (map (compare_target w) cfg.targets)
      (estimate_impact w cfg.targets (node_diffs (map (compare_target w) cfg.targets)))
      (build (node_diffs (map (compare_target w) cfg.targets))) s e h,
)
checked-success w cfg (c ∷ cs) s e h =
    let message = error_text (map (persistence_problem w) (c ∷ cs)) in
    let code : s.exit_code ≡ 30 =
      ap (λ x. x.exit_code) (sym (same_result _ s e)) ∙ refused-code w cfg message in
    absurd (omega (arith, code, h))

-- A run ends with the exit code of success only if every configured target was compared: the check of
-- the comparison found no problem, each configured target has its result, and every result has a diff,
-- no diagnostic that counts as an error, and no difference that its policy refuses.
pub run-success :
    (w : Workflow) (cfg : RunConfig) (s : Result)
    → run w cfg ≡ some s
    → s.exit_code ≡ success
    → (validate_comparison_targets cfg.targets ≡ [])
      × (map (λ t. t.certname) s.targets ≡ sort str_le (map (λ t. t.certname) cfg.targets))
      × All IsAllowed s.targets
unfolding run
run-success w cfg s e h =
    let (clear, allowed) = checked-success w cfg (validate_comparison_targets cfg.targets) s e h in
    (clear, run-certnames w cfg s clear e, allowed)
