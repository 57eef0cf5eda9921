-- ===== src/Config/Run/Policy.antt =====
-- Overrides, the check of a comparison, and the services a command needs
-- (internal/config/resolve/override.go, comparison.go and requirements.go).
use piace.Base.{
  String, Bool, true, false, ◌&&◌, ◌||◌, not, Option, none, some, List, [], ◌∷◌, map, ◌==◌,
  string_eq, any, All, ◌≡◌, refl, sym, ap, ◌∙◌, subst, arith, inl, inr, Bool-cases, eq_iff,
}
use piace.Config.{Target}
use piace.Config.Schema.{
  CandidateConfig, Defaults, TargetEntry, TargetFile, api_v4, source_puppetdb, source_file,
}
use piace.Config.Resolve.{
  or_else, merge_scalars, TargetNeeds, Platform, resolve_one_target, is_supported_api,
}
use piace.Config.Resolve.Valid.{IsAdmissible, is_source}
use piace.Config.Run.{
  Command, compare, needs, resolved, resolve_targets, apply_overrides, override_defaults,
  override_target, override_candidate, with_environment, can_persist, validate_comparison_targets,
  services, any_target,
}
use piace.Config.Run.Laws.{outcome, resolved_of, resolve_targets-IsAdmissible}

overridden-environment :
    (env : String) (c : CandidateConfig) (o : Option CandidateConfig)
    → (or_else (with_environment env c) (override_candidate env o)).environment ≡ env
unfolding or_else with_environment override_candidate
overridden-environment env c none = refl
overridden-environment env c (some d) = refl

overridden-All :
    (platform : Platform) (env : String) (defaults : Defaults) (dir : String) (ns : TargetNeeds)
    (ts : List TargetEntry)
    → All
        (λ t. t.candidate.environment ≡ env)
        (map
          (resolved_of platform (override_defaults env defaults) dir ns)
          (map (override_target env) ts))
unfolding resolve_one_target merge_scalars override_defaults override_target
overridden-All platform env defaults dir ns [] = tt
overridden-All platform env defaults dir ns (t ∷ ts) = (
  overridden-environment env defaults.candidate t.candidate,
  overridden-All platform env defaults dir ns ts,
)

-- The environment of the flag is the candidate environment of every target, whatever the file says.
pub apply_overrides-wins :
    (platform : Platform) (tf : TargetFile) (dir : String) (cmd : Command) (env : String)
    (ts : List Target)
    → (env == "") ≡ false
    → resolve_targets platform (apply_overrides env tf) dir cmd ≡ resolved ts
    → All (λ t. t.candidate.environment ≡ env) ts
unfolding apply_overrides
apply_overrides-wins platform tf dir cmd env ts e = rw e (λ h.
    let changed : TargetFile = record {
      version = tf.version;
      defaults = override_defaults env tf.defaults;
      targets = map (override_target env) tf.targets;
    } in
    let (_, _, p) = outcome platform changed dir cmd ts h in
    subst (All (λ t. t.candidate.environment ≡ env)) p
      (overridden-All platform env tf.defaults dir (needs cmd) tf.targets))

-- A comparison with a baseline of PuppetDB compiles its candidate with v4, and without the fallback.
abbrev pub IsReadOnly : Target → Type 0
IsReadOnly t =
    t.baseline.source ≡ source_puppetdb
    → (t.candidate.catalog_api ≡ api_v4) × (t.candidate.allow_v3_fallback ≡ false)

read_only :
    (platform : Platform) (ts : List Target)
    → All (IsAdmissible platform (needs compare)) ts
    → validate_comparison_targets ts ≡ []
    → All IsReadOnly ts
unfolding validate_comparison_targets can_persist needs is_supported_api
read_only platform [] a = λ h. tt
read_only platform (t ∷ ts) (d, a) = elim (Bool-cases (can_persist t)) [
  | inl e ↦ rw e (λ h. absurd (cc))
  | inr e ↦ rw e (λ h. (
    λ p.
        let (_, api, _, _) = d.0 in
        (
          ground (
            arith,
            api,
            e,
            eq_iff t.baseline.source source_puppetdb,
            eq_iff t.candidate.catalog_api api_v4,
            p,
          ),
          ground (arith, e, eq_iff t.baseline.source source_puppetdb, p),
        ),
    read_only platform ts a h,
  ))
]

-- Where the check of a comparison finds no problem in the resolved targets, no target with a baseline
-- of PuppetDB can reach the v3 API: it names v4, and the fallback is off.
pub validate_comparison_targets-IsReadOnly :
    (platform : Platform) (tf : TargetFile) (dir : String) (ts : List Target)
    → resolve_targets platform tf dir compare ≡ resolved ts
    → validate_comparison_targets ts ≡ []
    → All IsReadOnly ts
validate_comparison_targets-IsReadOnly platform tf dir ts h k =
    let (_, _, a) = resolve_targets-IsAdmissible platform tf dir compare ts h in
    read_only platform ts a k

-- A target that reads facts or a baseline from PuppetDB, or asks for the estimate.
abbrev pub uses_puppetdb : Target → Bool
uses_puppetdb t =
    t.facts.source == source_puppetdb
    || (t.baseline.source == source_puppetdb || t.impact_estimate.enabled)

file-not-puppetdb : (s : String) → (s == source_file) ≡ true → (s == source_puppetdb) ≡ false
file-not-puppetdb s h =
    subst (λ x. (x == source_puppetdb) ≡ false) (sym ((eq_iff s source_file).0 h)) refl

used :
    (facts baseline : String) (enabled : Bool)
    → is_source facts ≡ true
    → ((baseline == "" && false) || is_source baseline) ≡ true
    → (not (facts == source_file) || (not (baseline == source_file) || enabled))
      ≡ (facts == source_puppetdb || (baseline == source_puppetdb || enabled))
used facts baseline enabled h k =
    ground (arith, h, k, file-not-puppetdb facts, file-not-puppetdb baseline)

module _ (platform : Platform) (defaults : Defaults) (dir : String) where
  needs_puppetdb :
      (ts : List TargetEntry)
      → All
          (IsAdmissible platform (needs compare))
          (map (resolved_of platform defaults dir (needs compare)) ts)
      → any
          (λ t.
            let s = merge_scalars defaults t in
            not (s.facts.source == source_file)
            || (not (s.baseline.source == source_file) || or_else false s.impact_estimate.enabled))
          ts
        ≡ any uses_puppetdb (map (resolved_of platform defaults dir (needs compare)) ts)
  unfolding resolve_one_target needs
  needs_puppetdb [] h = refl
  needs_puppetdb (t ∷ ts) ((_, f, (_, b), _, _, _, _, _), h) =
      let s = merge_scalars defaults t in
      rw
        (
          used s.facts.source s.baseline.source (or_else false s.impact_estimate.enabled) f b,
          needs_puppetdb ts h,
        )
        refl

-- A comparison asks for the PuppetDB endpoint exactly if a resolved target uses PuppetDB.
pub services-puppetdb_iff :
    (platform : Platform) (tf : TargetFile) (dir : String) (ts : List Target)
    → resolve_targets platform tf dir compare ≡ resolved ts
    → (services compare tf).puppetdb ≡ any uses_puppetdb ts
unfolding services any_target
services-puppetdb_iff platform tf dir ts h =
    let (_, _, a) = resolve_targets-IsAdmissible platform tf dir compare ts h in
    let (_, _, p) = outcome platform tf dir compare ts h in
    needs_puppetdb platform tf.defaults dir tf.targets
      (subst (All (IsAdmissible platform (needs compare))) (sym p) a)
    ∙ ap (any uses_puppetdb) p
