-- ===== src/Compare.antt =====
-- internal/compare/workflow.go: the pipeline of a run. The sources of facts and baselines, the compiler
-- and the estimates are the interfaces of the source, as functions; a clock, the printing of durations
-- and `strconv.Quote` are arguments. A panic of the aggregation is `none`.
pub mod Laws
pub mod Run
use piace.Base.{
  ℕ, String, Bool, true, false, ◌&&◌, ◌||◌, not, Option, none, some, List, [], ◌∷◌, ◌++◌, map, ◌==◌,
  string_eq, if◌then◌else◌, any, ◌⊎◌, inl, inr,
}
use piace.Base.Order.{str_le}
use piace.Base.Sort.{sort}
use Prim.Native.String.{◌++◌ as ◌<>◌}
use piace.Exitcode.{other}
use piace.Model.Catalog.{ContentContext, NormalizedCatalog}
use piace.Model.Diagnostic.{Diagnostic, Severity, Operation}
use piace.Model.Change.{NodeDiff}
use piace.Model.Provenance.{SourceProvenance, CandidateProvenance}
use piace.Model.Result.{ImpactEstimate, ServiceProvenance, TargetResult, Result}
use piace.Outcome.Reasons.{reduce_result}
use piace.Config.{Target}
use piace.Config.Provenance.{provenance, error_text}
use piace.Config.Run.{validate_comparison_targets}
use piace.Normalize.Wire.{Json}
use piace.Normalize.Values.{Numbers}
use piace.Normalize.Catalog.{RawCatalog, normalize_catalog}
use piace.Puppetdb.{
  Factset, FactSource, CatalogSource, FactJson, Flat, select_fact_source, select_catalog_source,
  validate_factset,
}
use piace.Diff.Run.{Environment, diff}
use piace.Aggregate.Build.{build}
use piace.Impact.All.{ImpactQuerier, estimate_all}

abbrev pub CatalogRequester : Type 0
CatalogRequester =
    Target → Factset → RawCatalog × CandidateProvenance × List String × Option Diagnostic

pub record Workflow : Type 0 where
  pub puppetdb_facts : FactSource
  pub file_facts : FactSource
  pub puppetdb_baseline : CatalogSource
  pub file_baseline : CatalogSource
  pub compiler : CatalogRequester
  pub environment : Environment
  pub impact_querier : Option ImpactQuerier
  pub tool_version : String
  pub now : String
  pub json : Json
  pub fact_json : FactJson
  pub numbers : Numbers
  pub show : ℕ → String
  pub quote : String → String

-- The hosts of the configured endpoints, and the targets.
pub record RunConfig : Type 0 where
  pub compiler_host : Option String
  pub puppetdb_host : Option String
  pub targets : List Target

unfoldable pub input_diagnostic : String → Operation → String → Diagnostic
input_diagnostic certname operation message = record {
  severity = Severity.error;
  operation = operation;
  certname = certname;
  source = "";
  message = message;
}

-- `tr.Diagnostics = append(tr.Diagnostics, d); return tr`.
unfoldable pub stopped : TargetResult → Diagnostic → TargetResult
stopped tr d = record tr { diagnostics = tr.diagnostics ++ (d ∷ []) }

unfoldable pub candidate_context : RawCatalog → NormalizedCatalog → NormalizedCatalog
candidate_context raw c = record c {
  content_context = record {
    source = "compiler";
    environment = c.environment;
    historical = false;
    catalog_identity = raw.code_id;
  };
}

unfoldable pub baseline_context : Target → SourceProvenance → NormalizedCatalog → NormalizedCatalog
baseline_context target p c = record c {
  content_context = record {
    source = target.baseline.source;
    environment = c.environment;
    historical = true;
    catalog_identity = p.catalog_identity;
  };
}

module _ (w : Workflow) (target : Target) where
  unfoldable pub diffed :
      TargetResult → NormalizedCatalog → RawCatalog → Diagnostic ⊎ NormalizedCatalog → TargetResult
  unfolding stopped candidate_context diff
  diffed tr baseline raw (inl d) = stopped tr d
  diffed tr baseline raw (inr candidate) =
      let found = diff w.environment target baseline (candidate_context raw candidate) in
      record tr { node_diff = some found.0; diagnostics = tr.diagnostics ++ found.1 }

  unfoldable pub after_request :
      TargetResult → NormalizedCatalog → RawCatalog → Option Diagnostic → TargetResult
  unfolding stopped input_diagnostic diffed normalize_catalog
  after_request tr baseline raw (some d) = stopped tr d
  after_request tr baseline raw none =
      if not (raw.certname == target.certname)
        || not (raw.environment == target.candidate.environment)
      then stopped tr (
          input_diagnostic target.certname Operation.request_candidate
            "candidate identity or environment does not match the requested target")
      else diffed tr baseline raw (normalize_catalog w.json w.numbers raw)

  unfoldable pub warning_of : String → Diagnostic
  warning_of message = record {
    severity = Severity.warning;
    operation = Operation.request_candidate;
    certname = target.certname;
    source = "";
    message = message;
  }

  -- The provenance of the candidate, and the warnings.
  unfoldable pub requested : TargetResult → CandidateProvenance → List String → TargetResult
  unfolding warning_of
  requested tr p warnings = record tr {
    candidate = if p.effective_api == "" then tr.candidate else some p;
    diagnostics = tr.diagnostics ++ map warning_of warnings;
  }

  unfoldable pub with_baseline :
      TargetResult → Factset → SourceProvenance → Diagnostic ⊎ NormalizedCatalog → TargetResult
  unfolding stopped after_request requested baseline_context
  with_baseline tr facts p (inl d) = stopped tr d
  with_baseline tr facts p (inr baseline) =
      let answer = w.compiler target facts in
      after_request (requested tr answer.1 answer.2) (baseline_context target p baseline) answer.0
        answer.3

  unfoldable pub after_baseline :
      TargetResult → Factset → RawCatalog → SourceProvenance → Option Diagnostic → TargetResult
  unfolding stopped input_diagnostic with_baseline normalize_catalog
  after_baseline tr facts raw p (some d) = stopped tr d
  after_baseline tr facts raw p none =
      if not (raw.certname == target.certname)
        || not (raw.environment == target.baseline.environment)
      then stopped tr (
          input_diagnostic target.certname Operation.load_baseline
            "baseline identity or environment does not match the requested target")
      else with_baseline (record tr { baseline = some p }) facts p
          (normalize_catalog w.json w.numbers raw)

  unfoldable pub with_facts :
      TargetResult → Factset → SourceProvenance → String ⊎ Flat → TargetResult
  unfolding stopped input_diagnostic after_baseline select_catalog_source
  with_facts tr facts p (inl t) =
      stopped tr (input_diagnostic target.certname Operation.load_facts t)
  with_facts tr facts p (inr flat) =
      let loaded = select_catalog_source target w.puppetdb_baseline w.file_baseline target in
      after_baseline (record tr { facts = some p }) facts loaded.0 loaded.1 loaded.2

  unfoldable pub after_facts :
      TargetResult → Factset → SourceProvenance → Option Diagnostic → TargetResult
  unfolding stopped with_facts validate_factset
  after_facts tr facts p (some d) = stopped tr d
  after_facts tr facts p none =
      with_facts tr facts p (validate_factset w.fact_json facts target.certname)

  unfoldable pub blank_result : TargetResult
  unfolding provenance
  blank_result = record {
    certname = target.certname;
    outcome = other "";
    baseline = none;
    facts = none;
    candidate = none;
    config = some (provenance w.show target);
    node_diff = none;
    diagnostics = [];
  }

  unfoldable pub compare_target : TargetResult
  unfolding after_facts blank_result select_fact_source
  compare_target =
      let loaded = select_fact_source target w.puppetdb_facts w.file_facts target in
      after_facts blank_result loaded.0 loaded.1 loaded.2

unfoldable pub any_estimate_enabled : List Target → Bool
any_estimate_enabled targets = any (λ t. t.impact_estimate.enabled) targets

unfoldable pub no_querier : Diagnostic
no_querier = record {
  severity = Severity.error;
  operation = Operation.estimate_impact;
  certname = "";
  source = "";
  message =
      "impact estimation is enabled for at least one target but no PuppetDB impact querier is configured";
}

unfoldable pub with_querier :
    Option ImpactQuerier → List Target → List NodeDiff → List ImpactEstimate × List Diagnostic
unfolding no_querier estimate_all
with_querier none targets nds = ([], no_querier ∷ [])
with_querier (some q) targets nds = estimate_all q targets nds

unfoldable pub estimate_impact :
    Workflow → List Target → List NodeDiff → List ImpactEstimate × List Diagnostic
unfolding with_querier any_estimate_enabled
estimate_impact w targets nds =
    if any_estimate_enabled targets then with_querier w.impact_querier targets nds else ([], [])

-- A missing URL has no host.
unfoldable pub host_or_blank : Option String → String
host_or_blank none = ""
host_or_blank (some h) = h

unfoldable pub service_provenance : RunConfig → Option ServiceProvenance
unfolding host_or_blank
service_provenance cfg =
    let compiler = host_or_blank cfg.compiler_host in
    let puppetdb = host_or_blank cfg.puppetdb_host in
    if compiler == "" && puppetdb == ""
    then none
    else some (record { compiler = compiler; puppetdb = puppetdb })

-- `model.NewResult`, with the services of the run.
unfoldable pub new_result : Workflow → RunConfig → Result
unfolding service_provenance
new_result w cfg = record {
  schema_version = 3;
  invocation = record {
    tool_version = w.tool_version;
    timestamp_utc = w.now;
    services = service_provenance cfg;
  };
  targets = [];
  aggregate = [];
  impact_estimates = [];
  diagnostics = [];
  outcome = other "";
  exit_code = 0;
  reasons = [];
}
