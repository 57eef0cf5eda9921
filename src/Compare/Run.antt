-- ===== src/Compare/Run.antt =====
-- internal/compare/workflow.go, `Run`: the targets one after the other, their results sorted, the
-- aggregation, the estimates and the outcome.
pub mod Laws
use piace.Base.{
  String, Bool, Option, none, some, List, [], ◌∷◌, ◌++◌, map, ◌==◌, string_eq, if◌then◌else◌,
}
use piace.Base.Order.{str_le}
use piace.Base.Sort.{sort}
use Prim.Native.String.{◌++◌ as ◌<>◌}
use piace.Model.Diagnostic.{Diagnostic, Severity, Operation}
use piace.Model.Change.{NodeDiff, AggregateGroup}
use piace.Model.Result.{ImpactEstimate, TargetResult, Result}
use piace.Outcome.Reasons.{reduce_result}
use piace.Config.{Target}
use piace.Config.Provenance.{error_text}
use piace.Config.Run.{validate_comparison_targets}
use piace.Aggregate.Build.{build}
use piace.Compare.{Workflow, RunConfig, compare_target, estimate_impact, new_result}

unfoldable pub persistence_problem : Workflow → String → String
persistence_problem w certname =
    "target "
    <> (w.quote certname
        <> ": baseline.source must be file when catalog_api is v3 or allow_v3_fallback is enabled; v3 can persist candidate facts and catalogs")

unfoldable pub refusal : String → Diagnostic
refusal message = record {
  severity = Severity.error;
  operation = Operation.configure;
  certname = "";
  source = "";
  message = message;
}

unfoldable pub with_node_diff : Option NodeDiff → List NodeDiff → List NodeDiff
with_node_diff none nds = nds
with_node_diff (some nd) nds = nd ∷ nds

-- The diffs of the targets that have one, in their order.
unfoldable pub node_diffs : List TargetResult → List NodeDiff
unfolding with_node_diff
node_diffs [] = []
node_diffs (tr ∷ trs) = with_node_diff tr.node_diff (node_diffs trs)

unfoldable pub certname_le : TargetResult → TargetResult → Bool
certname_le a b = str_le a.certname b.certname

unfoldable pub reduced :
    Result
    → List TargetResult
    → List ImpactEstimate × List Diagnostic
    → Option (List AggregateGroup)
    → Option Result
unfolding sort certname_le reduce_result
reduced r trs estimates none = none
reduced r trs estimates (some groups) = some (
    reduce_result (record r {
      targets = sort certname_le trs;
      aggregate = groups;
      impact_estimates = estimates.0;
      diagnostics = r.diagnostics ++ estimates.1;
    }))

unfoldable pub run_targets : Workflow → RunConfig → Option Result
unfolding reduced node_diffs build estimate_impact new_result
run_targets w cfg =
    let trs = map (compare_target w) cfg.targets in
    reduced (new_result w cfg) trs (estimate_impact w cfg.targets (node_diffs trs))
      (build (node_diffs trs))

unfoldable pub run_checked : Workflow → RunConfig → List String → Option Result
unfolding run_targets reduce_result refusal persistence_problem new_result error_text
run_checked w cfg [] = run_targets w cfg
run_checked w cfg (c ∷ cs) = some (
    reduce_result (record (new_result w cfg) {
      diagnostics = refusal (error_text (map (persistence_problem w) (c ∷ cs))) ∷ [];
    }))

-- `Run`.
unfoldable pub run : Workflow → RunConfig → Option Result
unfolding run_checked
run w cfg = run_checked w cfg (validate_comparison_targets cfg.targets)
