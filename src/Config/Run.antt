-- ===== src/Config/Run.antt =====
-- internal/config/resolve/target.go, override.go, comparison.go and requirements.go: the targets of a
-- file, its overrides, and what a command needs.
pub mod Laws
pub mod Policy
use piace.Base.{
  ℕ, suc, String, Bool, true, false, ◌&&◌, ◌||◌, not, Option, none, some, List, [], ◌∷◌, ◌++◌, map,
  ◌==◌, string_eq, if◌then◌else◌, contains, any, nat_eq,
}
use piace.Base.Integer.{ℤ, pos, negsuc}
use piace.Config.{Target}
use piace.Config.Schema.{
  CandidateConfig, Defaults, TargetEntry, TargetFile, api_v3, source_puppetdb, source_file,
}
use piace.Config.Paths.{CertnameError, validate_certname}
use piace.Config.Resolve.{
  ResolvedScalars, merge_scalars, or_else, TargetNeeds, TargetProblem, Platform, resolve_one_target,
}

pub data Command : Type 0 where
  compare capture_facts capture_catalog : Command

unfoldable pub needs : Command → TargetNeeds
needs capture_facts = record {
  candidate_environment = false;
  candidate_api = false;
  baseline_source = false;
  baseline_environment = false;
}
needs capture_catalog = record {
  candidate_environment = false;
  candidate_api = true;
  baseline_source = true;
  baseline_environment = false;
}
needs compare = record {
  candidate_environment = true;
  candidate_api = true;
  baseline_source = true;
  baseline_environment = true;
}

pub data Problem : Type 0 where
  unsupported_version : ℤ → Problem
  no_targets : Problem
  bad_certname : ℕ → CertnameError → Problem
  duplicate_certname : ℕ → String → Problem
  at_target : String → TargetProblem → Problem

pub data Resolved : Type 0 where
  refused : List Problem → Resolved
  resolved : List Target → Resolved

unfoldable pub is_version_1 : ℤ → Bool
is_version_1 (pos n) = nat_eq n 1
is_version_1 (negsuc n) = false

-- `resolved` so far, and the problems.
abbrev pub Progress : Type 0
Progress = List Problem × List Target

unfoldable pub with_problem : Problem → Progress → Progress
with_problem p (ps, ts) = (p ∷ ps, ts)

-- The outcome for one target in front of that of the rest.
unfoldable pub with_target : String → List TargetProblem × Target → Progress → Progress
with_target certname ([], t) (ps, ts) = (ps, t ∷ ts)
with_target certname (p ∷ qs, t) (ps, ts) =
    (at_target certname p ∷ (map (λ q. at_target certname q) qs ++ ps), ts)

-- A valid certname: a duplicate, or a target.
unfoldable pub step_named :
    ℕ → String → Bool → List TargetProblem × Target → Progress → Progress → Progress
unfolding with_problem with_target
step_named i certname true found skipped rest = with_problem (duplicate_certname i certname) skipped
step_named i certname false found skipped rest = with_target certname found rest

unfoldable pub step :
    ℕ
    → String
    → Option CertnameError
    → Bool
    → List TargetProblem × Target
    → Progress
    → Progress
    → Progress
unfolding with_problem step_named
step i certname (some e) seen found skipped rest = with_problem (bad_certname i e) skipped
step i certname none seen found skipped rest = step_named i certname seen found skipped rest

-- The loop over the targets, from index `i` and with the certnames seen.
unfoldable pub resolve_all :
    Platform → Defaults → String → TargetNeeds → ℕ → List String → List TargetEntry → Progress
unfolding step validate_certname resolve_one_target
resolve_all platform defaults dir ns i seen [] = ([], [])
resolve_all platform defaults dir ns i seen (t ∷ ts) =
    step i t.certname (validate_certname t.certname) (contains t.certname seen)
      (resolve_one_target platform defaults t dir ns)
      (resolve_all platform defaults dir ns (suc i) seen ts)
      (resolve_all platform defaults dir ns (suc i) (t.certname ∷ seen) ts)

unfoldable pub settled : List Problem → Progress → Resolved
settled [] ([], ts) = resolved ts
settled [] (p ∷ ps, ts) = refused (p ∷ ps)
settled (p ∷ ps) (qs, ts) = refused (p ∷ (ps ++ qs))

unfoldable pub no_target : List TargetEntry → List Problem
no_target [] = no_targets ∷ []
no_target (t ∷ ts) = []

unfoldable pub file_problems : TargetFile → List Problem
unfolding is_version_1 no_target
file_problems tf =
    (if is_version_1 tf.version then [] else unsupported_version tf.version ∷ [])
    ++ no_target tf.targets

unfoldable pub resolve_targets : Platform → TargetFile → String → Command → Resolved
unfolding settled file_problems resolve_all needs
resolve_targets platform tf dir cmd =
    settled (file_problems tf) (resolve_all platform tf.defaults dir (needs cmd) 0 [] tf.targets)

unfoldable pub with_environment : String → CandidateConfig → CandidateConfig
with_environment env c = record {
  environment = env;
  catalog_api = c.catalog_api;
  allow_v3_fallback = c.allow_v3_fallback;
  trusted_facts_compiler_lookup = c.trusted_facts_compiler_lookup;
}

unfoldable pub override_candidate : String → Option CandidateConfig → Option CandidateConfig
unfolding with_environment
override_candidate env none = none
override_candidate env (some c) = some (with_environment env c)

unfoldable pub override_target : String → TargetEntry → TargetEntry
unfolding override_candidate
override_target env t = record {
  certname = t.certname;
  candidate = override_candidate env t.candidate;
  facts = t.facts;
  baseline = t.baseline;
  exclude = t.exclude;
  redact = t.redact;
  impact_estimate = t.impact_estimate;
  fail_on_diff = t.fail_on_diff;
}

unfoldable pub override_defaults : String → Defaults → Defaults
unfolding with_environment
override_defaults env d = record {
  candidate = with_environment env d.candidate;
  facts = d.facts;
  baseline = d.baseline;
  exclude = d.exclude;
  redact = d.redact;
  impact_estimate = d.impact_estimate;
  fail_on_diff = d.fail_on_diff;
}

-- `Overrides.apply`, for the environment of the flag.
unfoldable pub apply_overrides : String → TargetFile → TargetFile
unfolding override_defaults override_target
apply_overrides env tf = if env == "" then tf else record {
  version = tf.version;
  defaults = override_defaults env tf.defaults;
  targets = map (override_target env) tf.targets;
}

unfoldable pub can_persist : Target → Bool
can_persist t =
    t.baseline.source == source_puppetdb
    && (t.candidate.catalog_api == api_v3 || t.candidate.allow_v3_fallback)

-- `ValidateComparisonTargets`: the certnames of the targets with a problem.
unfoldable pub validate_comparison_targets : List Target → List String
unfolding can_persist
validate_comparison_targets [] = []
validate_comparison_targets (t ∷ ts) =
    let rest = validate_comparison_targets ts in if can_persist t then t.certname ∷ rest else rest

pub record ServiceSet : Type 0 where
  pub compiler : Bool
  pub puppetdb : Bool

unfoldable pub any_target : TargetFile → (ResolvedScalars → Bool) → Bool
unfolding merge_scalars
any_target tf pred = any (λ t. pred (merge_scalars tf.defaults t)) tf.targets

unfoldable pub services : Command → TargetFile → ServiceSet
unfolding any_target or_else
services capture_facts tf = record { compiler = false; puppetdb = true }
services capture_catalog tf = record {
  compiler = true;
  puppetdb =
      any_target tf (λ s. s.baseline.source == source_file && not (s.facts.source == source_file));
}
services compare tf = record {
  compiler = true;
  puppetdb = any_target tf (λ s.
      not (s.facts.source == source_file)
      || (not (s.baseline.source == source_file) || or_else false s.impact_estimate.enabled));
}
