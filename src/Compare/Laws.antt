-- ===== src/Compare/Laws.antt =====
-- What the result of one target of internal/compare/workflow.go holds.
use piace.Base.{
  String, Bool, true, false, ◌||◌, not, Option, none, some, ◌==◌, string_eq, if◌then◌else◌, ◌⊎◌,
  inl, inr, ◌≡◌, refl, ap,
}
use piace.Model.Catalog.{NormalizedCatalog}
use piace.Model.Diagnostic.{Diagnostic, Operation}
use piace.Model.Change.{NodeDiff}
use piace.Model.Provenance.{SourceProvenance}
use piace.Model.Result.{TargetResult}
use piace.Config.{Target}
use piace.Config.Provenance.{provenance}
use piace.Normalize.Catalog.{RawCatalog, normalize_catalog}
use piace.Puppetdb.{Factset, Flat, validate_factset, select_fact_source, select_catalog_source}
use piace.Diff.Run.{diff, node_diff}
use piace.Compare.{
  Workflow, stopped, input_diagnostic, baseline_context, diffed, after_request, requested,
  with_baseline, after_baseline, with_facts, after_facts, blank_result, compare_target,
}

module _ (w : Workflow) (target : Target) where
  -- What the configured source of the facts says of them, and that of the baseline.
  abbrev pub facts_provenance : SourceProvenance
  facts_provenance =
      ((if target.facts.source == "file" then w.file_facts else w.puppetdb_facts) target).1

  abbrev pub baseline_provenance : SourceProvenance
  baseline_provenance =
      ((if target.baseline.source == "file" then w.file_baseline else w.puppetdb_baseline) target).1

  -- A diff is of this target, and comes with the provenance that its two sources gave.
  abbrev IsBacked : Option NodeDiff → Option SourceProvenance → Option SourceProvenance → Type 0
  IsBacked none facts baseline = Unit
  IsBacked (some nd) facts baseline =
      (nd.certname ≡ target.certname)
      × (facts ≡ some facts_provenance)
      × (baseline ≡ some baseline_provenance)

  abbrev pub IsTargetResult : TargetResult → Type 0
  IsTargetResult tr =
      (tr.certname ≡ target.certname)
      × (tr.config ≡ some (provenance w.show target))
      × IsBacked tr.node_diff tr.facts tr.baseline

  -- A result on the way: without a diff.
  abbrev IsOpen : TargetResult → Type 0
  IsOpen tr =
      (tr.certname ≡ target.certname)
      × (tr.config ≡ some (provenance w.show target))
      × (tr.node_diff ≡ none)

  if-IsTargetResult :
      (b : Bool) (x y : TargetResult)
      → IsTargetResult x
      → IsTargetResult y
      → IsTargetResult (if b then x else y)
  if-IsTargetResult true x y h k = h
  if-IsTargetResult false x y h k = k

  stopped-IsTargetResult :
      (tr : TargetResult) (d : Diagnostic) → IsOpen tr → IsTargetResult (stopped tr d)
  unfolding stopped
  stopped-IsTargetResult tr d (a, b, c) = (a, b, rw c tt)

  diffed-IsTargetResult :
      (tr : TargetResult) (baseline : NormalizedCatalog) (raw : RawCatalog)
      (o : Diagnostic ⊎ NormalizedCatalog)
      → IsOpen tr
      → tr.facts ≡ some facts_provenance
      → tr.baseline ≡ some baseline_provenance
      → IsTargetResult (diffed w target tr baseline raw o)
  unfolding diffed diff node_diff
  diffed-IsTargetResult tr baseline raw (inl d) h f b = stopped-IsTargetResult tr d h
  diffed-IsTargetResult tr baseline raw (inr candidate) (a, c, _) f b = (a, c, (refl, f, b))

  after_request-IsTargetResult :
      (tr : TargetResult) (baseline : NormalizedCatalog) (raw : RawCatalog) (o : Option Diagnostic)
      → IsOpen tr
      → tr.facts ≡ some facts_provenance
      → tr.baseline ≡ some baseline_provenance
      → IsTargetResult (after_request w target tr baseline raw o)
  unfolding after_request
  after_request-IsTargetResult tr baseline raw (some d) h f b = stopped-IsTargetResult tr d h
  after_request-IsTargetResult tr baseline raw none h f b =
      if-IsTargetResult
        (not (raw.certname == target.certname)
          || not (raw.environment == target.candidate.environment))
        _ _
        (stopped-IsTargetResult tr
          (input_diagnostic target.certname Operation.request_candidate
            "candidate identity or environment does not match the requested target")
          h)
        (diffed-IsTargetResult tr baseline raw (normalize_catalog w.json w.numbers raw) h f b)

  with_baseline-IsTargetResult :
      (tr : TargetResult) (facts : Factset) (p : SourceProvenance)
      (o : Diagnostic ⊎ NormalizedCatalog)
      → IsOpen tr
      → tr.facts ≡ some facts_provenance
      → tr.baseline ≡ some baseline_provenance
      → IsTargetResult (with_baseline w target tr facts p o)
  unfolding with_baseline requested
  with_baseline-IsTargetResult tr facts p (inl d) h f b = stopped-IsTargetResult tr d h
  with_baseline-IsTargetResult tr facts p (inr baseline) h f b =
      let answer = w.compiler target facts in
      after_request-IsTargetResult (requested w target tr answer.1 answer.2)
        (baseline_context target p baseline) answer.0 answer.3 h f b

  after_baseline-IsTargetResult :
      (tr : TargetResult) (facts : Factset) (raw : RawCatalog) (p : SourceProvenance)
      (o : Option Diagnostic)
      → p ≡ baseline_provenance
      → IsOpen tr
      → tr.facts ≡ some facts_provenance
      → IsTargetResult (after_baseline w target tr facts raw p o)
  unfolding after_baseline
  after_baseline-IsTargetResult tr facts raw p (some d) e h f = stopped-IsTargetResult tr d h
  after_baseline-IsTargetResult tr facts raw p none e h f =
      if-IsTargetResult
        (not (raw.certname == target.certname)
          || not (raw.environment == target.baseline.environment))
        _ _
        (stopped-IsTargetResult tr
          (input_diagnostic target.certname Operation.load_baseline
            "baseline identity or environment does not match the requested target")
          h)
        (with_baseline-IsTargetResult (record tr { baseline = some p }) facts p
          (normalize_catalog w.json w.numbers raw) h f (ap some e))

  with_facts-IsTargetResult :
      (tr : TargetResult) (facts : Factset) (p : SourceProvenance) (o : String ⊎ Flat)
      → p ≡ facts_provenance
      → IsOpen tr
      → IsTargetResult (with_facts w target tr facts p o)
  unfolding with_facts select_catalog_source
  with_facts-IsTargetResult tr facts p (inl t) e h =
      stopped-IsTargetResult tr (input_diagnostic target.certname Operation.load_facts t) h
  with_facts-IsTargetResult tr facts p (inr flat) e h =
      let loaded = select_catalog_source target w.puppetdb_baseline w.file_baseline target in
      after_baseline-IsTargetResult (record tr { facts = some p }) facts loaded.0 loaded.1 loaded.2
        refl h (ap some e)

  after_facts-IsTargetResult :
      (tr : TargetResult) (facts : Factset) (p : SourceProvenance) (o : Option Diagnostic)
      → p ≡ facts_provenance
      → IsOpen tr
      → IsTargetResult (after_facts w target tr facts p o)
  unfolding after_facts
  after_facts-IsTargetResult tr facts p (some d) e h = stopped-IsTargetResult tr d h
  after_facts-IsTargetResult tr facts p none e h =
      with_facts-IsTargetResult tr facts p (validate_factset w.fact_json facts target.certname) e h

  -- The result of a target is of that target and its configuration. A diff in it is of that target, and
  -- stands beside the provenance of the facts that the configured fact source gave and that of the
  -- baseline that the configured baseline source gave.
  pub compare_target-IsTargetResult : IsTargetResult (compare_target w target)
  unfolding compare_target blank_result select_fact_source
  compare_target-IsTargetResult =
      let loaded = select_fact_source target w.puppetdb_facts w.file_facts target in
      after_facts-IsTargetResult (blank_result w target) loaded.0 loaded.1 loaded.2 refl
        (refl, refl, refl)
