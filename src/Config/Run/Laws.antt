-- ===== src/Config/Run/Laws.antt =====
-- The targets that internal/config/resolve gives.
use piace.Base.{
  ◌==◌, ◌||◌, ◌<◌, length, Bool-cases, nat_eq_iff, ℕ, suc, String, Bool, true, false, Option, none,
  some, List, [], ◌∷◌, map, string_eq, contains, All, IsNodup, ◌≡◌, refl, sym, ap, ◌∙◌, arith, inl,
  inr, beq-cases, subst, beq_refl,
}
use piace.Base.Integer.{ℤ, pos, negsuc}
use piace.Base.Split.{has_code, contains_text}
use piace.Config.{Target}
use piace.Config.Schema.{Defaults, TargetEntry, TargetFile}
use piace.Config.Paths.{CertnameError, validate_certname}
use piace.Config.Resolve.{TargetNeeds, TargetProblem, Platform, resolve_one_target}
use piace.Config.Resolve.Valid.{IsAdmissible, resolve_one_target-IsAdmissible}
use piace.Config.Run.{
  Command, needs, Problem, Progress, resolved, with_problem, with_target, step_named, step,
  resolve_all, settled, file_problems, no_target, is_version_1, resolve_targets,
}

-- What resolution gives for one entry.
abbrev Entry : Type 0
Entry = List TargetProblem × Target

with_target-empty :
    (certname : String) (e : Entry) (r : Progress)
    → (with_target certname e r).0 ≡ []
    → (e.0 ≡ []) × (r.0 ≡ []) × ((with_target certname e r).1 ≡ e.1 ∷ r.1)
unfolding with_target
with_target-empty certname ([], t) (ps, ts) h = (refl, h, refl)
with_target-empty certname (p ∷ qs, t) (ps, ts) h = absurd (cc)

step-empty :
    (i : ℕ) (certname : String) (o : Option CertnameError) (seen : Bool) (e : Entry)
    (skipped rest : Progress)
    → (step i certname o seen e skipped rest).0 ≡ []
    → (o ≡ none)
      × (seen ≡ false)
      × (e.0 ≡ [])
      × (rest.0 ≡ [])
      × ((step i certname o seen e skipped rest).1 ≡ e.1 ∷ rest.1)
unfolding step step_named with_problem
step-empty i certname (some x) seen e skipped rest h = absurd (cc)
step-empty i certname none true e skipped rest h = absurd (cc)
step-empty i certname none false e skipped rest h =
    let (a, b, c) = with_target-empty certname e rest h in (refl, refl, a, b, c)

module _ (platform : Platform) (defaults : Defaults) (dir : String) (ns : TargetNeeds) where
  abbrev At : ℕ → List String → List TargetEntry → Progress
  At i seen ts = resolve_all platform defaults dir ns i seen ts

  abbrev pub resolved_of : TargetEntry → Target
  resolved_of t = (resolve_one_target platform defaults t dir ns).1

  abbrev pub IsAccepted : List String → List TargetEntry → Type 0
  IsAccepted seen [] = Unit
  IsAccepted seen (t ∷ ts) =
      (validate_certname t.certname ≡ none)
      × (contains t.certname seen ≡ false)
      × ((resolve_one_target platform defaults t dir ns).0 ≡ [])
      × IsAccepted (t.certname ∷ seen) ts

  resolve_all-empty :
      (i : ℕ) (seen : List String) (ts : List TargetEntry)
      → (At i seen ts).0 ≡ []
      → IsAccepted seen ts × ((At i seen ts).1 ≡ map resolved_of ts)
  unfolding resolve_all
  resolve_all-empty i seen [] h = (tt, refl)
  resolve_all-empty i seen (t ∷ ts) h =
      let (a, b, c, d, e) =
        step-empty i t.certname (validate_certname t.certname) (contains t.certname seen)
          (resolve_one_target platform defaults t dir ns) _ _ h in
      let (x, y) = resolve_all-empty (suc i) (t.certname ∷ seen) ts d in
      ((a, b, c, x), e ∙ ap (λ l. resolved_of t ∷ l) y)

settled-resolved :
    (ps : List Problem) (r : Progress) (ts : List Target)
    → settled ps r ≡ resolved ts
    → (ps ≡ []) × (r.0 ≡ []) × (r.1 ≡ ts)
unfolding settled
settled-resolved [] ([], us) ts h = (refl, refl, same h)
  where
    same : resolved us ≡ resolved ts → us ≡ ts
    same p = cc
settled-resolved [] (p ∷ ps, us) ts h = absurd (cc)
settled-resolved (p ∷ ps) r ts h = absurd (cc)

accepted-fresh :
    (platform : Platform) (defaults : Defaults) (dir : String) (ns : TargetNeeds) (c : String)
    (seen : List String) (ts : List TargetEntry)
    → IsAccepted platform defaults dir ns seen ts
    → contains c seen ≡ true
    → contains c (map (λ t. t.certname) ts) ≡ false
accepted-fresh platform defaults dir ns c seen [] h k = refl
accepted-fresh platform defaults dir ns c seen (t ∷ ts) (_, b, _, h) k =
    elim (beq-cases t.certname c) [
      | inl (_, p) ↦ absurd (ground (arith, b, k, ap (λ x. contains x seen) p))
      | inr (e, _) ↦ ground (
        arith,
        e,
        accepted-fresh platform defaults dir ns c (t.certname ∷ seen) ts h (ground (arith, k)),
      )
    ]

accepted-IsNodup :
    (platform : Platform) (defaults : Defaults) (dir : String) (ns : TargetNeeds)
    (seen : List String) (ts : List TargetEntry)
    → IsAccepted platform defaults dir ns seen ts
    → IsNodup (map (λ t. t.certname) ts)
accepted-IsNodup platform defaults dir ns seen [] h = tt
accepted-IsNodup platform defaults dir ns seen (t ∷ ts) (_, _, _, h) = (
  accepted-fresh platform defaults dir ns t.certname (t.certname ∷ seen) ts h
      (ground (arith, beq_refl t.certname)),
  accepted-IsNodup platform defaults dir ns (t.certname ∷ seen) ts h,
)

resolved-certnames :
    (platform : Platform) (defaults : Defaults) (dir : String) (ns : TargetNeeds)
    (ts : List TargetEntry)
    → map (λ t. t.certname) (map (resolved_of platform defaults dir ns) ts)
      ≡ map (λ t. t.certname) ts
unfolding resolve_one_target
resolved-certnames platform defaults dir ns [] = refl
resolved-certnames platform defaults dir ns (t ∷ ts) =
    ap (λ l. t.certname ∷ l) (resolved-certnames platform defaults dir ns ts)

resolved-IsAdmissible :
    (platform : Platform) (defaults : Defaults) (dir : String) (ns : TargetNeeds)
    (seen : List String) (ts : List TargetEntry)
    → IsAccepted platform defaults dir ns seen ts
    → All (IsAdmissible platform ns) (map (resolved_of platform defaults dir ns) ts)
resolved-IsAdmissible platform defaults dir ns seen [] h = tt
resolved-IsAdmissible platform defaults dir ns seen (t ∷ ts) (_, _, e, h) = (
  resolve_one_target-IsAdmissible platform defaults t dir ns e,
  resolved-IsAdmissible platform defaults dir ns (t.certname ∷ seen) ts h,
)

-- A certname that is safe as a component of a path.
abbrev pub IsPlain : String → Type 0
IsPlain c =
    ((c == "") ≡ false)
    × (has_code 0 c ≡ false)
    × (has_code b'/' c ≡ false)
    × (has_code 0x5c c ≡ false)
    × (contains_text ".." c ≡ false)

validate_certname-IsPlain : (c : String) → validate_certname c ≡ none → IsPlain c
unfolding validate_certname
validate_certname-IsPlain c = elim (Bool-cases (c == "")) [
  | inl e ↦ rw e (λ h. absurd (cc))
  | inr e ↦ rw e (elim (Bool-cases (has_code 0 c)) [
    | inl k ↦ rw k (λ h. absurd (cc))
    | inr k ↦ rw k (elim (Bool-cases (has_code b'/' c || has_code 0x5c c)) [
      | inl l ↦ rw l (λ h. absurd (cc))
      | inr l ↦ elim (Bool-cases (contains_text ".." c)) [
        | inl m ↦ rw (l, m) (λ h. absurd (cc))
        | inr m ↦ λ h. (refl, refl, ground (arith, l), ground (arith, l), m)
      ]
    ])
  ])
]

accepted-IsPlain :
    (platform : Platform) (defaults : Defaults) (dir : String) (ns : TargetNeeds)
    (seen : List String) (ts : List TargetEntry)
    → IsAccepted platform defaults dir ns seen ts
    → All (λ t. IsPlain t.certname) ts
accepted-IsPlain platform defaults dir ns seen [] h = tt
accepted-IsPlain platform defaults dir ns seen (t ∷ ts) (a, _, _, h) = (
  validate_certname-IsPlain t.certname a,
  accepted-IsPlain platform defaults dir ns (t.certname ∷ seen) ts h,
)

version-1 : (v : ℤ) → is_version_1 v ≡ true → v ≡ pos 1
unfolding is_version_1
version-1 (pos n) h = ap pos ((nat_eq_iff n 1).0 h)
version-1 (negsuc n) h = absurd (ground (arith, h))

file_problems-empty :
    (tf : TargetFile) → file_problems tf ≡ [] → (tf.version ≡ pos 1) × (0 < length tf.targets)
unfolding file_problems no_target
file_problems-empty tf = elim (Bool-cases (is_version_1 tf.version)) [
  | inl e ↦ rw e (λ h. (version-1 tf.version e, some_target tf.targets h))
  | inr e ↦ rw e (λ h. absurd (cc))
]
  where
    some_target : (ts : List TargetEntry) → no_target ts ≡ [] → 0 < length ts
    some_target [] h = absurd (cc)
    some_target (t ∷ ts) h = ground arith

module _ (platform : Platform) (tf : TargetFile) (dir : String) (cmd : Command) where
  pub outcome :
      (ts : List Target)
      → resolve_targets platform tf dir cmd ≡ resolved ts
      → (file_problems tf ≡ [])
        × IsAccepted platform tf.defaults dir (needs cmd) [] tf.targets
        × (map (resolved_of platform tf.defaults dir (needs cmd)) tf.targets ≡ ts)
  unfolding resolve_targets
  outcome ts h =
      let (a, b, c) =
        settled-resolved (file_problems tf)
          (resolve_all platform tf.defaults dir (needs cmd) 0 [] tf.targets) ts h in
      let (d, e) = resolve_all-empty platform tf.defaults dir (needs cmd) 0 [] tf.targets b in
      (a, d, sym e ∙ c)

  -- The targets that resolution gives are those of the file, in its order and none left out, have
  -- different certnames, and are admissible for the command.
  pub resolve_targets-IsAdmissible :
      (ts : List Target)
      → resolve_targets platform tf dir cmd ≡ resolved ts
      → (map (λ t. t.certname) ts ≡ map (λ t. t.certname) tf.targets)
        × IsNodup (map (λ t. t.certname) ts)
        × All (IsAdmissible platform (needs cmd)) ts
  resolve_targets-IsAdmissible ts h =
      let (_, a, e) = outcome ts h in
      let names = resolved-certnames platform tf.defaults dir (needs cmd) tf.targets in
      let same : map (λ t. t.certname) ts ≡ map (λ t. t.certname) tf.targets =
        ap (map (λ t. t.certname)) (sym e) ∙ names in
      (
        same,
        subst IsNodup (sym same)
            (accepted-IsNodup platform tf.defaults dir (needs cmd) [] tf.targets a),
        subst (All (IsAdmissible platform (needs cmd))) e
            (resolved-IsAdmissible platform tf.defaults dir (needs cmd) [] tf.targets a),
      )

  -- Resolution succeeds only for a file of version 1 with a target, and only if every certname is
  -- plain: not empty, and without a NUL byte, a slash, a backslash or two dots in a row.
  pub resolve_targets-IsWellFormed :
      (ts : List Target)
      → resolve_targets platform tf dir cmd ≡ resolved ts
      → (tf.version ≡ pos 1) × (0 < length tf.targets) × All (λ t. IsPlain t.certname) tf.targets
  resolve_targets-IsWellFormed ts h =
      let (f, a, _) = outcome ts h in
      let (v, n) = file_problems-empty tf f in
      (v, n, accepted-IsPlain platform tf.defaults dir (needs cmd) [] tf.targets a)
