-- ===== src/Examples/Runs.antt =====
-- A run over one target whose catalogs are equal, with sources that answer from memory.
use piace.Base.{
  String, true, false, Option, none, some, List, [], ◌∷◌, ◌≡◌, refl, map, All, ◌⊎◌, inl, inr, ◌==◌,
  string_eq, if◌then◌else◌, lookup,
}
use piace.Base.Order.{str_le}
use piace.Base.Sort.{sort}
use piace.Base.Split.{has_code}
use piace.Exitcode.{success, operational_error_code, for_outcome, reduce_all}
use piace.Model.Value.{str, get}
use piace.Model.Catalog.{ResourceIdentity, NormalizedCatalog, to_string}
use piace.Model.Diagnostic.{Diagnostic}
use piace.Model.Provenance.{SourceProvenance, CandidateProvenance}
use piace.Model.Result.{Result}
use piace.Outcome.Run.{IsAllowed}
use piace.Config.Run.{validate_comparison_targets}
use piace.Normalize.Reference.{parse_reference}
use piace.Normalize.Reference.Laws.{parse_reference-to_string}
use piace.Normalize.Wire.{Json, ResourceWire, CompilerEdgeEntry, extract_resources}
use piace.Normalize.Values.{ValueError, canonicalize_value, canonicalize_fields}
use piace.Normalize.Values.Laws.{is_wrapped, canonicalize_value-wraps}
use piace.Normalize.Catalog.{RawCatalog, normalize_catalog}
use piace.Normalize.Catalog.Laws.{Sorted, normalize_catalog-Sorted}
use piace.Puppetdb.{Factset, FactJson, validate_factset}
use piace.Puppetdb.Laws.{IsTrusted, validate_factset-IsTrusted}
use piace.Compare.{Workflow, RunConfig, compare_target, new_result}
use piace.Compare.Laws.{IsTargetResult, compare_target-IsTargetResult}
use piace.Aggregate.Build.{build}
use piace.Compare.Run.{run, node_diffs}
use piace.Compare.Run.Laws.{run_complete, run-refused, run-success}
use piace.Examples.Data.{target, environment, before_catalog, secret}

abbrev row : String → String → ResourceWire
row type title = record {
  type = type;
  title = title;
  parameters = "{parameters}";
  sensitive_parameters = "";
}

abbrev rows : List ResourceWire
rows = row "Service" "nginx" ∷ row "File" "/etc/motd" ∷ []

abbrev contained : CompilerEdgeEntry
contained = record {
  source = some "\"Service[nginx]\"";
  target = some "\"File[/etc/motd]\"";
  relationship = "contains";
}

abbrev json : Json
json = record {
  text =
      λ raw. if raw == "\"Service[nginx]\"" then some "Service[nginx]" else some "File[/etc/motd]";
  names = λ raw. none;
  object = λ raw. some (("ensure", "\"present\"") ∷ ("alias", "\"web\"") ∷ []);
  value = λ raw. some (str "present");
  marshal = λ v. none;
  identity = λ raw. none;
  resources = λ raw. some rows;
  pdb_edges = λ raw. none;
  compiler_edges = λ raw. some (contained ∷ []);
  metadata = λ raw. none;
}

abbrev fact_json : FactJson
fact_json = record {
  text = λ raw. if raw == "\"web1\"" then some "web1" else some "remote";
  collection = λ raw. some "[facts]";
  entries = λ raw. some (("os", "{}") ∷ ("trusted", "{trusted}") ∷ []);
  object = λ raw. some (("certname", "\"web1\"") ∷ ("authenticated", "\"remote\"") ∷ []);
}

abbrev numbers : String → ValueError ⊎ String
numbers s = inr s

abbrev raw : RawCatalog
raw = record {
  certname = "web1";
  version = "1";
  environment = "production";
  hash = "";
  transaction_uuid = "";
  catalog_uuid = "";
  code_id = "c1";
  producer_timestamp = "";
  producer = "";
  resources = "[rows]";
  edges = "[edges]";
  metadata = "";
  recursive_metadata = "";
  captured_content = [];
  stringified_rich = false;
}

abbrev source : SourceProvenance
source = record {
  kind = "puppetdb";
  certname = "web1";
  environment = "production";
  producer_timestamp = "";
  catalog_identity = "c0";
  producer = "";
  capture = none;
}

abbrev candidate : CandidateProvenance
candidate = record {
  requested_api = "v4";
  effective_api = "v4";
  environment = "production";
  fact_source = "puppetdb";
  factset_identity = "";
  trusted_facts_source = "";
  fell_back_from_v4 = false;
  v3_warning = "";
}

abbrev factset : Factset
factset = record {
  certname = "web1";
  environment = "production";
  timestamp = "";
  producer_timestamp = "";
  producer = "";
  hash = "";
  facts = "{facts}";
}

abbrev workflow : Workflow
workflow = record {
  puppetdb_facts = λ t. (factset, source, none);
  file_facts = λ t. (factset, source, none);
  puppetdb_baseline = λ t. (raw, source, none);
  file_baseline = λ t. (raw, source, none);
  compiler = λ t facts. (raw, candidate, "deprecated" ∷ [], none);
  environment = environment;
  impact_querier = none;
  tool_version = "1.0";
  now = "2026-01-01T00:00:00Z";
  json = json;
  fact_json = fact_json;
  numbers = numbers;
  show = λ n. "0s";
  quote = λ s. s;
}

abbrev config : RunConfig
config = record {
  compiler_host = some "compiler";
  puppetdb_host = some "puppetdb";
  targets = target [] ∷ [];
}

abbrev fallback_config : RunConfig
fallback_config = record config {
  targets =
      record (target []) { candidate = record (target []).candidate { allow_v3_fallback = true } }
      ∷ [];
}

unproblematic : validate_comparison_targets config.targets ≡ []
unfolding validate_comparison_targets
unproblematic = refl

flat_of :
    validate_factset fact_json factset "web1" ≡ inr (("os", "{}") ∷ ("trusted", "{trusted}") ∷ [])
unfolding validate_factset
flat_of = refl

validate_factset-IsTrusted_example :
    (factset.certname ≡ "web1")
    × IsTrusted fact_json "web1"
        (lookup {A = String} "trusted" (("os", "{}") ∷ ("trusted", "{trusted}") ∷ []))
validate_factset-IsTrusted_example =
    validate_factset-IsTrusted fact_json factset "web1"
      (("os", "{}") ∷ ("trusted", "{trusted}") ∷ []) flat_of

compare_target-IsTargetResult_example :
    IsTargetResult workflow (target []) (compare_target workflow (target []))
compare_target-IsTargetResult_example = compare_target-IsTargetResult workflow (target [])

abbrev bracketed : ResourceIdentity
bracketed = record { type = "File"; title = "/etc/a[1]" }

parse_reference-to_string_example : parse_reference (to_string bracketed) ≡ some bracketed
unfolding has_code
parse_reference-to_string_example = parse_reference-to_string bracketed refl refl refl refl

accepted : canonicalize_value numbers secret ≡ inr secret
unfolding canonicalize_value canonicalize_fields get
accepted = refl

canonicalize_value-wraps_example : is_wrapped secret ≡ true
canonicalize_value-wraps_example = canonicalize_value-wraps numbers secret secret accepted

rows_of : extract_resources json raw.resources ≡ inr rows
unfolding extract_resources
rows_of = refl

catalog_or : NormalizedCatalog → Diagnostic ⊎ NormalizedCatalog → NormalizedCatalog
catalog_or c (inl d) = c
catalog_or c (inr d) = d

normalized : NormalizedCatalog
unfolding catalog_or normalize_catalog sort str_le
normalized = catalog_or before_catalog (normalize_catalog json numbers raw)

is_normalized : normalize_catalog json numbers raw ≡ inr normalized
unfolding normalized catalog_or normalize_catalog sort str_le
is_normalized = refl

normalize_catalog-Sorted_example : Sorted rows normalized.resources
normalize_catalog-Sorted_example =
    normalize_catalog-Sorted json numbers raw rows normalized rows_of is_normalized

result_or : Result → Option Result → Result
result_or r none = r
result_or r (some s) = s

quiet : Result
unfolding result_or run
quiet = result_or (new_result workflow config) (run workflow config)

is_quiet : run workflow config ≡ some quiet
unfolding quiet result_or run validate_comparison_targets compare_target str_le
is_quiet = refl

is_success : quiet.exit_code ≡ success
unfolding quiet result_or run validate_comparison_targets compare_target str_le for_outcome
    reduce_all
is_success = refl

no_groups : build (node_diffs (map (compare_target workflow) config.targets)) ≡ some []
unfolding build node_diffs compare_target validate_comparison_targets str_le
no_groups = refl

run_complete_example :
    (s : Result) × (run workflow config ≡ some s)
    × (map (λ t. t.certname) s.targets ≡ sort str_le (map (λ t. t.certname) config.targets))
run_complete_example = run_complete workflow config [] unproblematic no_groups

run-success_example :
    (validate_comparison_targets config.targets ≡ [])
    × (map (λ t. t.certname) quiet.targets ≡ sort str_le (map (λ t. t.certname) config.targets))
    × All IsAllowed quiet.targets
run-success_example = run-success workflow config quiet is_quiet is_success

run-refused_example :
    (s : Result) × (run workflow fallback_config ≡ some s)
    × (s.exit_code ≡ operational_error_code)
    × (s.targets ≡ [])
run-refused_example = run-refused workflow fallback_config refl
