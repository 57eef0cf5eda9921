-- ===== src/Examples/Configs.antt =====
-- Resolution of an example target file with two targets.
use piace.Base.{
  ◌<◌, String, true, none, some, List, [], ◌∷◌, ◌≡◌, refl, map, All, IsNodup, any, string_eq,
  length,
}
use piace.Base.Integer.{pos}
use piace.Base.Split.{split}
use piace.Config.{ExclusionRule, Target}
use piace.Config.Schema.{CandidateConfig, Defaults, TargetEntry, TargetFile}
use piace.Config.Paths.{
  FilePaths, resolve_file_path, good_path, bad_path, PathError, validate_certname, expand_all,
  path_separator,
}
use piace.Config.Paths.Laws.{AreComponents, expand_all-keeps_components}
use piace.Config.Resolve.{Platform, resolve_one_target}
use piace.Config.Resolve.Valid.{IsAdmissible}
use piace.Config.Run.{
  compare, needs, resolved, resolve_targets, apply_overrides, validate_comparison_targets, services,
}
use piace.Config.Run.Laws.{
  resolved_of, IsPlain, resolve_targets-IsAdmissible, resolve_targets-IsWellFormed,
}
use piace.Config.Run.Policy.{
  IsReadOnly, uses_puppetdb, apply_overrides-wins, validate_comparison_targets-IsReadOnly,
  services-puppetdb_iff,
}

abbrev file_paths : FilePaths
file_paths = record {
  from_slash = λ p. p;
  clean = λ p. p;
  join_path = λ dir p. p;
  abs = λ p. some p;
  rel = λ dir p. some p;
}

abbrev platform : Platform
platform = record {
  file_paths = file_paths;
  is_valid_glob = λ title. true;
  parse_duration = λ text. some (pos 10);
}

abbrev candidate : CandidateConfig
candidate = record {
  environment = "production";
  catalog_api = "v4";
  allow_v3_fallback = none;
  trusted_facts_compiler_lookup = none;
}

abbrev rule : ExclusionRule
rule = record { type = "File"; title = "/tmp/*" }

abbrev defaults : Defaults
defaults = record {
  candidate = candidate;
  facts = record { source = "puppetdb"; file = "" };
  baseline = record { source = "puppetdb"; environment = "production"; file = "" };
  exclude = rule ∷ [];
  redact = [];
  impact_estimate = record { enabled = some true; timeout = "10s"; result_limit = some (pos 5) };
  fail_on_diff = none;
}

abbrev entry : String → TargetEntry
entry certname = record {
  certname = certname;
  candidate = none;
  facts = none;
  baseline =
      some
        (record { source = "file"; environment = "production"; file = "catalogs/{certname}.json" });
  exclude = rule ∷ [];
  redact = [];
  impact_estimate = none;
  fail_on_diff = some true;
}

abbrev target_file : TargetFile
target_file = record {
  version = pos 1;
  defaults = defaults;
  targets = entry "web1" ∷ entry "web2" ∷ [];
}

slash : validate_certname "web/1" ≡ some path_separator
unfolding validate_certname
slash = refl

templated :
    resolve_file_path file_paths "catalogs/{certname}.json" "conf" "web1"
    ≡ good_path "catalogs/web1.json"
unfolding resolve_file_path
templated = refl

misplaced :
    resolve_file_path file_paths "{certname}-catalog.json" "conf" "web1"
    ≡ bad_path PathError.misplaced_token
unfolding resolve_file_path
misplaced = refl

traversal : resolve_file_path file_paths "../other" "conf" "web1" ≡ bad_path PathError.escapes
unfolding resolve_file_path
traversal = refl

abbrev targets : List Target
targets = map (resolved_of platform defaults "conf" (needs compare)) target_file.targets

two : length targets ≡ 2
two = refl

is_resolved : resolve_targets platform target_file "conf" compare ≡ resolved targets
unfolding resolve_targets resolve_one_target
is_resolved = refl

resolve_targets-IsAdmissible_example :
    (map (λ t. t.certname) targets ≡ "web1" ∷ "web2" ∷ [])
    × IsNodup (map (λ t. t.certname) targets)
    × All (IsAdmissible platform (needs compare)) targets
resolve_targets-IsAdmissible_example =
    resolve_targets-IsAdmissible platform target_file "conf" compare targets is_resolved

resolve_targets-IsWellFormed_example :
    (target_file.version ≡ pos 1)
    × (0 < length target_file.targets)
    × All (λ t. IsPlain t.certname) target_file.targets
resolve_targets-IsWellFormed_example =
    resolve_targets-IsWellFormed platform target_file "conf" compare targets is_resolved

abbrev changed : TargetFile
changed = apply_overrides "feature" target_file

abbrev changed_targets : List Target
changed_targets = map (resolved_of platform changed.defaults "conf" (needs compare)) changed.targets

is_changed :
    resolve_targets platform (apply_overrides "feature" target_file) "conf" compare
    ≡ resolved changed_targets
unfolding resolve_targets resolve_one_target apply_overrides
is_changed = refl

apply_overrides-wins_example : All (λ t. t.candidate.environment ≡ "feature") changed_targets
apply_overrides-wins_example =
    apply_overrides-wins platform target_file "conf" compare "feature" changed_targets refl
      is_changed

unproblematic : validate_comparison_targets targets ≡ []
unfolding validate_comparison_targets resolve_one_target
unproblematic = refl

validate_comparison_targets-IsReadOnly_example : All IsReadOnly targets
validate_comparison_targets-IsReadOnly_example =
    validate_comparison_targets-IsReadOnly platform target_file "conf" targets is_resolved
      unproblematic

services-puppetdb_iff_example : (services compare target_file).puppetdb ≡ any uses_puppetdb targets
services-puppetdb_iff_example =
    services-puppetdb_iff platform target_file "conf" targets is_resolved

valid_name : validate_certname "web1" ≡ none
unfolding validate_certname
valid_name = refl

expand_all-keeps_components_example :
    AreComponents
      (length (split b'/' "catalogs/{certname}.json"))
      (expand_all "web1" (split b'/' "catalogs/{certname}.json"))
expand_all-keeps_components_example =
    expand_all-keeps_components "web1" "catalogs/{certname}.json" valid_name
