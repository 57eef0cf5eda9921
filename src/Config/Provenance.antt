-- ===== src/Config/Provenance.antt =====
-- internal/config/resolve/provenance.go and errors.go: the resolved configuration as it is published,
-- and the text of a configuration error. `time.Duration.String` is an argument.
use piace.Base.{ℕ, String, List, [], ◌∷◌, map, length}
use piace.Base.Decimal.{decimal}
use Prim.Native.String.{◌++◌ as ◌<>◌}
use piace.Model.Value.{bool, str, num, end, field}
use piace.Model.Change.{ExclusionRuleRef}
use piace.Model.Provenance.{ConfigProvenance, RedactionSelectorRef}
use piace.Config.{ExclusionRule, RedactionSelector, Target}

unfoldable pub rule_ref : ExclusionRule → ExclusionRuleRef
rule_ref r = record { type = r.type; title = r.title }

unfoldable pub selector_ref : RedactionSelector → RedactionSelectorRef
selector_ref r = record { type = r.type; parameter = r.parameter }

-- `Provenance`.
unfoldable pub provenance : (ℕ → String) → Target → ConfigProvenance
unfolding rule_ref selector_ref
provenance show t = record {
  candidate = field "environment" (str t.candidate.environment) (
      field "catalog_api" (str t.candidate.catalog_api) (
        field "allow_v3_fallback" (bool t.candidate.allow_v3_fallback) (
          field "trusted_facts_compiler_lookup" (bool t.candidate.trusted_facts_compiler_lookup)
            end)));
  facts = field "source" (str t.facts.source) (field "file" (str t.facts.file) end);
  baseline =
      field "source" (str t.baseline.source)
        (field "environment" (str t.baseline.environment) (field "file" (str t.baseline.file) end));
  exclude = map rule_ref t.exclude;
  redact = map selector_ref t.redact;
  impact_estimate = field "enabled" (bool t.impact_estimate.enabled) (
      field "timeout" (str (show t.impact_estimate.timeout))
        (field "result_limit" (num (decimal t.impact_estimate.result_limit)) end));
  fail_on_diff = t.fail_on_diff;
}

bullets : List String → String
bullets [] = ""
bullets (p ∷ ps) = "\n  - " <> (p <> bullets ps)

-- `ValidationError.Error`.
unfoldable pub error_text : List String → String
unfolding bullets
error_text [] = "invalid configuration"
error_text (p ∷ []) = "invalid configuration: " <> p
error_text (p ∷ q ∷ ps) =
    "invalid configuration ("
    <> (decimal (length (p ∷ q ∷ ps)) <> (" problems):" <> bullets (p ∷ q ∷ ps)))
