-- ===== src/Config/Resolve.antt =====
-- internal/config/resolve/resolve.go and target.go: a target of the file merged with the defaults
-- and checked. A problem is the case of its message with the arguments; `path.Match` as a syntax
-- check and `time.ParseDuration` are arguments. `ok` of the source is that no problem was added.
pub mod Valid
use piace.Base.{
  ℕ, String, Bool, true, false, ◌&&◌, ◌||◌, not, Option, none, some, List, [], ◌∷◌, ◌++◌, concat,
  map, ◌==◌, string_eq, Eq, if◌then◌else◌, ◌≡◌, ◌↔◌, eq_iff, arith,
}
use piace.Base.Distinct.{distinct}
use piace.Base.Integer.{ℤ, positive}
use piace.Config.{ExclusionRule, RedactionSelector, Target}
use piace.Config.Schema.{
  CandidateConfig, FactsConfig, BaselineConfig, ImpactEstimateConfig, Defaults, TargetEntry, api_v3,
  api_v4, source_puppetdb, source_file,
}
use piace.Config.Paths.{FilePaths, PathError, PathAnswer, bad_path, good_path, resolve_file_path}

pub record ResolvedScalars : Type 0 where
  pub candidate : CandidateConfig
  pub facts : FactsConfig
  pub baseline : BaselineConfig
  pub impact_estimate : ImpactEstimateConfig
  pub fail_on_diff : Bool

-- `x = default; if p != nil { x = *p }`.
unfoldable pub or_else {ℓ} : {A : Type ℓ} → A → Option A → A
or_else a none = a
or_else a (some b) = b

unfoldable pub merge_scalars : Defaults → TargetEntry → ResolvedScalars
unfolding or_else
merge_scalars defaults t = record {
  candidate = or_else defaults.candidate t.candidate;
  facts = or_else defaults.facts t.facts;
  baseline = or_else defaults.baseline t.baseline;
  impact_estimate = or_else defaults.impact_estimate t.impact_estimate;
  fail_on_diff = or_else (or_else false defaults.fail_on_diff) t.fail_on_diff;
}

abbrev pub rule_beq : ExclusionRule → ExclusionRule → Bool
rule_beq a b = a.type == b.type && a.title == b.title

pub rule_beq_iff : (a b : ExclusionRule) → (rule_beq a b ≡ true) ↔ (a ≡ b)
rule_beq_iff a b = ground (arith, eq_iff a.type b.type, eq_iff a.title b.title)

instance abbrev pub rule_eq : Eq ExclusionRule
rule_eq = record { eqb = rule_beq; eqb_iff = rule_beq_iff }

abbrev pub selector_beq : RedactionSelector → RedactionSelector → Bool
selector_beq a b = a.type == b.type && a.parameter == b.parameter

pub selector_beq_iff : (a b : RedactionSelector) → (selector_beq a b ≡ true) ↔ (a ≡ b)
selector_beq_iff a b = ground (arith, eq_iff a.type b.type, eq_iff a.parameter b.parameter)

instance abbrev pub selector_eq : Eq RedactionSelector
selector_eq = record { eqb = selector_beq; eqb_iff = selector_beq_iff }

unfoldable pub merge_exclusions : List ExclusionRule → List ExclusionRule → List ExclusionRule
unfolding distinct
merge_exclusions defaults target = distinct [] (defaults ++ target)

unfoldable pub merge_redactions :
    List RedactionSelector → List RedactionSelector → List RedactionSelector
unfolding distinct
merge_redactions defaults target = distinct [] (defaults ++ target)

pub record TargetNeeds : Type 0 where
  pub candidate_environment : Bool
  pub candidate_api : Bool
  pub baseline_source : Bool
  pub baseline_environment : Bool

pub data TargetProblem : Type 0 where
  no_candidate_environment fallback_with_v3 lookup_with_v3 : TargetProblem
  facts_file_set facts_file_missing : TargetProblem
  no_baseline_environment baseline_file_set baseline_file_missing : TargetProblem
  bad_catalog_api bad_facts_source bad_baseline_source : String → TargetProblem
  facts_path baseline_path : PathError → TargetProblem
  untyped_rule : TargetProblem
  bad_glob : ExclusionRule → TargetProblem
  incomplete_selector : RedactionSelector → TargetProblem
  timeout_missing limit_missing : TargetProblem
  timeout_invalid timeout_not_positive : String → TargetProblem
  limit_not_positive : ℤ → TargetProblem

-- `if b { addf(p) }`.
unfoldable pub when : Bool → TargetProblem → List TargetProblem
when b p = if b then p ∷ [] else []

-- What the resolution takes from outside the repository.
pub record Platform : Type 0 where
  pub file_paths : FilePaths
  pub is_valid_glob : String → Bool
  pub parse_duration : String → Option ℤ

unfoldable pub is_supported_api : TargetNeeds → String → Bool
is_supported_api needs api =
    (api == api_v3 || api == api_v4) || (api == "" && not needs.candidate_api)

unfoldable pub candidate_problems : TargetNeeds → CandidateConfig → List TargetProblem
unfolding when is_supported_api or_else
candidate_problems needs c =
    when (needs.candidate_environment && c.environment == "") no_candidate_environment
    ++ (when (not (is_supported_api needs c.catalog_api)) (bad_catalog_api c.catalog_api)
        ++ (when (or_else false c.allow_v3_fallback && c.catalog_api == api_v3) fallback_with_v3
            ++ when (or_else false c.trusted_facts_compiler_lookup && c.catalog_api == api_v3)
                lookup_with_v3))

unfoldable pub facts_problems : FactsConfig → List TargetProblem
unfolding when
facts_problems f =
    if f.source == source_puppetdb
    then when (not (f.file == "")) facts_file_set
    else if f.source == source_file
    then when (f.file == "") facts_file_missing
    else bad_facts_source f.source ∷ []

unfoldable pub baseline_problems : TargetNeeds → BaselineConfig → List TargetProblem
unfolding when
baseline_problems needs b =
    when (needs.baseline_environment && b.environment == "") no_baseline_environment
    ++ (if b.source == ""
        then when needs.baseline_source (bad_baseline_source b.source)
        else if b.source == source_puppetdb
        then when (not (b.file == "")) baseline_file_set
        else if b.source == source_file
        then when (b.file == "") baseline_file_missing
        else bad_baseline_source b.source ∷ [])

-- The path of a file source, and its problem.
unfoldable pub answered : (PathError → TargetProblem) → PathAnswer → String × List TargetProblem
answered problem (bad_path e) = ("", problem e ∷ [])
answered problem (good_path p) = (p, [])

unfoldable pub file_of :
    Platform
    → String
    → String
    → (PathError → TargetProblem)
    → String
    → String
    → String × List TargetProblem
unfolding answered resolve_file_path
file_of platform dir certname problem source file =
    if source == source_file && not (file == "")
    then answered problem (resolve_file_path platform.file_paths file dir certname)
    else ("", [])

unfoldable pub rule_problems : Platform → List ExclusionRule → List TargetProblem
unfolding when
rule_problems platform [] = []
rule_problems platform (rule ∷ rules) =
    when (rule.type == "") untyped_rule
    ++ (when (not (platform.is_valid_glob rule.title)) (bad_glob rule)
        ++ rule_problems platform rules)

unfoldable pub selector_problems : List RedactionSelector → List TargetProblem
unfolding when
selector_problems [] = []
selector_problems (sel ∷ sels) =
    when (sel.type == "" || sel.parameter == "") (incomplete_selector sel) ++ selector_problems sels

-- A duration, and its problem.
unfoldable pub positive_duration : String → Option ℕ → ℕ × List TargetProblem
positive_duration text none = (0, timeout_not_positive text ∷ [])
positive_duration text (some n) = (n, [])

unfoldable pub parsed_duration : String → Option ℤ → ℕ × List TargetProblem
unfolding positive_duration positive
parsed_duration text none = (0, timeout_invalid text ∷ [])
parsed_duration text (some d) = positive_duration text (positive d)

unfoldable pub timeout_of : Platform → String → ℕ × List TargetProblem
unfolding parsed_duration
timeout_of platform text =
    if text == ""
    then (0, timeout_missing ∷ [])
    else parsed_duration text (platform.parse_duration text)

unfoldable pub positive_limit : ℤ → Option ℕ → ℕ × List TargetProblem
positive_limit l none = (0, limit_not_positive l ∷ [])
positive_limit l (some n) = (n, [])

unfoldable pub limit_of : Option ℤ → ℕ × List TargetProblem
unfolding positive_limit positive
limit_of none = (0, limit_missing ∷ [])
limit_of (some l) = positive_limit l (positive l)

unfoldable pub unset : ℕ × List TargetProblem
unset = (0, [])

-- The target with its files and limits, and the problems in the order in which they are found.
unfoldable pub resolve_one_target :
    Platform → Defaults → TargetEntry → String → TargetNeeds → List TargetProblem × Target
unfolding merge_scalars or_else candidate_problems facts_problems baseline_problems file_of
    merge_exclusions rule_problems merge_redactions selector_problems timeout_of limit_of unset
resolve_one_target platform defaults t dir needs =
    let s = merge_scalars defaults t in
    let facts_file = file_of platform dir t.certname facts_path s.facts.source s.facts.file in
    let baseline_file =
      file_of platform dir t.certname baseline_path s.baseline.source s.baseline.file in
    let exclude = merge_exclusions defaults.exclude t.exclude in
    let redact = merge_redactions defaults.redact t.redact in
    let enabled = or_else false s.impact_estimate.enabled in
    let timeout = if enabled then timeout_of platform s.impact_estimate.timeout else unset in
    let limit = if enabled then limit_of s.impact_estimate.result_limit else unset in
    (
      candidate_problems needs s.candidate
          ++ (facts_problems s.facts
              ++ (baseline_problems needs s.baseline
                  ++ (facts_file.1
                      ++ (baseline_file.1
                          ++ (rule_problems platform exclude
                              ++ (selector_problems redact ++ (timeout.1 ++ limit.1))))))),
      record {
        certname = t.certname;
        candidate = record {
          environment = s.candidate.environment;
          catalog_api = s.candidate.catalog_api;
          allow_v3_fallback = or_else false s.candidate.allow_v3_fallback;
          trusted_facts_compiler_lookup = or_else false s.candidate.trusted_facts_compiler_lookup;
        };
        facts = record { source = s.facts.source; file = facts_file.0 };
        baseline = record {
          source = s.baseline.source;
          environment = s.baseline.environment;
          file = baseline_file.0;
        };
        exclude = exclude;
        redact = redact;
        impact_estimate = record { enabled = enabled; timeout = timeout.0; result_limit = limit.0 };
        fail_on_diff = s.fail_on_diff;
      },
    )
