-- ===== src/Config/Resolve/Valid.antt =====
-- What the checks of internal/config/resolve/target.go leave of a target.
use piace.Base.{
  ℕ, zero, suc, ◌<◌, String, Bool, true, false, ◌&&◌, ◌||◌, not, Option, none, some, List, [], ◌∷◌,
  ◌++◌, ◌==◌, string_eq, if◌then◌else◌, all, IsNodup, ◌≡◌, refl, arith, inl, inr, Bool-cases,
}
use piace.Base.Distinct.{distinct-IsNodup}
use piace.Base.Integer.{ℤ, pos, negsuc, positive}
use piace.Config.{ExclusionRule, RedactionSelector, Candidate, Baseline, ImpactPolicy, Target}
use piace.Config.Schema.{
  FactsConfig, BaselineConfig, Defaults, TargetEntry, api_v3, source_puppetdb, source_file,
}
use piace.Config.Resolve.{
  or_else, merge_scalars, TargetNeeds, TargetProblem, Platform, when, is_supported_api,
  candidate_problems, facts_problems, baseline_problems, rule_problems, selector_problems,
  positive_duration, parsed_duration, timeout_of, positive_limit, limit_of, unset, rule_eq,
  selector_eq, merge_exclusions, merge_redactions, resolve_one_target, file_of, facts_path,
  baseline_path,
}

pub append-empty {ℓ} : {A : Type ℓ} (xs ys : List A) → (xs ++ ys) ≡ [] → (xs ≡ []) × (ys ≡ [])
append-empty [] ys h = (refl, h)
append-empty (x ∷ xs) ys h = absurd (cc)

when-empty : (b : Bool) (p : TargetProblem) → when b p ≡ [] → b ≡ false
unfolding when
when-empty true p h = absurd (cc)
when-empty false p h = refl

-- The catalog API is known, or not set where it is not needed; only v4 has the two options; and the
-- environment is set where it is needed.
abbrev pub IsGoodCandidate : TargetNeeds → Candidate → Type 0
IsGoodCandidate needs c =
    ((needs.candidate_environment && c.environment == "") ≡ false)
    × (is_supported_api needs c.catalog_api ≡ true)
    × ((c.allow_v3_fallback && c.catalog_api == api_v3) ≡ false)
    × ((c.trusted_facts_compiler_lookup && c.catalog_api == api_v3) ≡ false)

abbrev pub is_source : String → Bool
is_source s = s == source_puppetdb || s == source_file

abbrev pub IsGoodBaseline : TargetNeeds → Baseline → Type 0
IsGoodBaseline needs b =
    ((needs.baseline_environment && b.environment == "") ≡ false)
    × (((b.source == "" && not needs.baseline_source) || is_source b.source) ≡ true)

abbrev pub is_good_rule : Platform → ExclusionRule → Bool
is_good_rule platform rule = not (rule.type == "") && platform.is_valid_glob rule.title

abbrev pub is_good_selector : RedactionSelector → Bool
is_good_selector sel = not (sel.type == "") && not (sel.parameter == "")

abbrev pub IsGoodPolicy : ImpactPolicy → Type 0
IsGoodPolicy p = p.enabled ≡ true → (0 < p.timeout) × (0 < p.result_limit)

-- A target that the rest of the program may work on.
abbrev pub IsAdmissible : Platform → TargetNeeds → Target → Type 0
IsAdmissible platform needs t =
    IsGoodCandidate needs t.candidate
    × (is_source t.facts.source ≡ true)
    × IsGoodBaseline needs t.baseline
    × (all (is_good_rule platform) t.exclude ≡ true)
    × IsNodup t.exclude
    × (all is_good_selector t.redact ≡ true)
    × IsNodup t.redact
    × IsGoodPolicy t.impact_estimate

facts_problems-empty : (f : FactsConfig) → facts_problems f ≡ [] → is_source f.source ≡ true
unfolding facts_problems
facts_problems-empty f = elim (Bool-cases (f.source == source_puppetdb)) [
  | inl e ↦ rw e (λ h. refl)
  | inr e ↦ rw e (elim (Bool-cases (f.source == source_file)) [
    | inl k ↦ rw k (λ h. refl)
    | inr k ↦ rw k (λ h. absurd (cc))
  ])
]

baseline_source-empty :
    (needs : TargetNeeds) (b : BaselineConfig)
    → (if b.source == ""
        then when needs.baseline_source (TargetProblem.bad_baseline_source b.source)
        else if b.source == source_puppetdb
        then when (not (b.file == "")) TargetProblem.baseline_file_set
        else if b.source == source_file
        then when (b.file == "") TargetProblem.baseline_file_missing
        else TargetProblem.bad_baseline_source b.source ∷ [])
      ≡ []
    → ((b.source == "" && not needs.baseline_source) || is_source b.source) ≡ true
baseline_source-empty needs b = elim (Bool-cases (b.source == "")) [
  | inl e ↦ rw e (λ h.
      ground
        (arith, when-empty needs.baseline_source (TargetProblem.bad_baseline_source b.source) h))
  | inr e ↦ rw e (elim (Bool-cases (b.source == source_puppetdb)) [
    | inl k ↦ rw k (λ h. refl)
    | inr k ↦ rw k (elim (Bool-cases (b.source == source_file)) [
      | inl l ↦ rw l (λ h. refl)
      | inr l ↦ rw l (λ h. absurd (cc))
    ])
  ])
]

rule_problems-empty :
    (platform : Platform) (rules : List ExclusionRule)
    → rule_problems platform rules ≡ []
    → all (is_good_rule platform) rules ≡ true
unfolding rule_problems
rule_problems-empty platform [] h = refl
rule_problems-empty platform (rule ∷ rules) h =
    let (typed, rest) = append-empty (when (rule.type == "") TargetProblem.untyped_rule) _ h in
    let (valid, others) =
      append-empty (when (not (platform.is_valid_glob rule.title)) (TargetProblem.bad_glob rule))
        (rule_problems platform rules) rest in
    ground (
      arith,
      when-empty (rule.type == "") TargetProblem.untyped_rule typed,
      when-empty (not (platform.is_valid_glob rule.title)) (TargetProblem.bad_glob rule) valid,
      rule_problems-empty platform rules others,
    )

selector_problems-empty :
    (sels : List RedactionSelector) → selector_problems sels ≡ [] → all is_good_selector sels ≡ true
unfolding selector_problems
selector_problems-empty [] h = refl
selector_problems-empty (sel ∷ sels) h =
    let (complete, others) =
      append-empty
        (when (sel.type == "" || sel.parameter == "") (TargetProblem.incomplete_selector sel))
        (selector_problems sels) h in
    ground (
      arith,
      when-empty (sel.type == "" || sel.parameter == "") (TargetProblem.incomplete_selector sel)
          complete,
      selector_problems-empty sels others,
    )

positive-lt : (d : ℤ) (n : ℕ) → positive d ≡ some n → 0 < n
unfolding positive
positive-lt (pos zero) n h = absurd (cc)
positive-lt (pos (suc m)) n h = omega (arith, some_number h)
  where
    some_number : some (suc m) ≡ some n → suc m ≡ n
    some_number p = cc
positive-lt (negsuc m) n h = absurd (cc)

positive_duration-empty :
    (text : String) (d : ℤ) (o : Option ℕ)
    → positive d ≡ o
    → (positive_duration text o).1 ≡ []
    → 0 < (positive_duration text o).0
unfolding positive_duration
positive_duration-empty text d none e h = absurd (cc)
positive_duration-empty text d (some n) e h = positive-lt d n e

parsed_duration-empty :
    (text : String) (o : Option ℤ)
    → (parsed_duration text o).1 ≡ []
    → 0 < (parsed_duration text o).0
unfolding parsed_duration
parsed_duration-empty text none h = absurd (cc)
parsed_duration-empty text (some d) h = positive_duration-empty text d (positive d) refl h

timeout_of-empty :
    (platform : Platform) (text : String)
    → (timeout_of platform text).1 ≡ []
    → 0 < (timeout_of platform text).0
unfolding timeout_of
timeout_of-empty platform text = elim (Bool-cases (text == "")) [
  | inl e ↦ rw e (λ h. absurd (cc))
  | inr e ↦ rw e (parsed_duration-empty text (platform.parse_duration text))
]

positive_limit-empty :
    (l : ℤ) (o : Option ℕ)
    → positive l ≡ o
    → (positive_limit l o).1 ≡ []
    → 0 < (positive_limit l o).0
unfolding positive_limit
positive_limit-empty l none e h = absurd (cc)
positive_limit-empty l (some n) e h = positive-lt l n e

limit_of-empty : (o : Option ℤ) → (limit_of o).1 ≡ [] → 0 < (limit_of o).0
unfolding limit_of
limit_of-empty none h = absurd (cc)
limit_of-empty (some l) h = positive_limit-empty l (positive l) refl h

if-empty :
    (b : Bool) (x y : ℕ × List TargetProblem)
    → (x.1 ≡ [] → 0 < x.0)
    → (if b then x else y).1 ≡ []
    → b ≡ true
    → 0 < (if b then x else y).0
if-empty true x y f h e = f h
if-empty false x y f h e = absurd (cc)

unnegated : (b : Bool) → not b ≡ false → b ≡ true
unnegated b h = ground arith

-- A target without problems is admissible.
pub resolve_one_target-IsAdmissible :
    (platform : Platform) (defaults : Defaults) (t : TargetEntry) (dir : String)
    (needs : TargetNeeds)
    → (resolve_one_target platform defaults t dir needs).0 ≡ []
    → IsAdmissible platform needs (resolve_one_target platform defaults t dir needs).1
unfolding resolve_one_target candidate_problems baseline_problems merge_exclusions merge_redactions
resolve_one_target-IsAdmissible platform defaults t dir needs h =
    let s = merge_scalars defaults t in
    let (c, h1) = append-empty _ _ h in
    let (f, h2) = append-empty _ _ h1 in
    let (b, h3) = append-empty _ _ h2 in
    let facts_file = file_of platform dir t.certname facts_path s.facts.source s.facts.file in
    let baseline_file =
      file_of platform dir t.certname baseline_path s.baseline.source s.baseline.file in
    let (_, h4) = append-empty facts_file.1 _ h3 in
    let (_, h5) = append-empty baseline_file.1 _ h4 in
    let (r, h6) = append-empty _ _ h5 in
    let (l, h7) = append-empty _ _ h6 in
    let (tm, lm) = append-empty _ _ h7 in
    let (c1, c2) = append-empty _ _ c in
    let (c3, c4) = append-empty _ _ c2 in
    let (c5, c6) = append-empty _ _ c4 in
    let (b1, b2) = append-empty _ _ b in
    (
      (
        when-empty _ _ c1,
        unnegated (is_supported_api needs s.candidate.catalog_api) (when-empty _ _ c3),
        when-empty _ _ c5,
        when-empty _ _ c6,
      ),
      facts_problems-empty s.facts f,
      (when-empty _ _ b1, baseline_source-empty needs s.baseline b2),
      rule_problems-empty platform (merge_exclusions defaults.exclude t.exclude) r,
      distinct-IsNodup [] (defaults.exclude ++ t.exclude),
      selector_problems-empty (merge_redactions defaults.redact t.redact) l,
      distinct-IsNodup [] (defaults.redact ++ t.redact),
      λ e. (
        if-empty (or_else false s.impact_estimate.enabled) _ unset
            (timeout_of-empty platform s.impact_estimate.timeout) tm e,
        if-empty (or_else false s.impact_estimate.enabled) _ unset
            (limit_of-empty s.impact_estimate.result_limit) lm e,
      ),
    )
