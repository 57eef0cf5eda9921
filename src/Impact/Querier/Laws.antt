-- ===== src/Impact/Querier/Laws.antt =====
-- What an estimate of internal/impact/querier.go says.
use piace.Base.{
  ℕ, zero, suc, ◌≤◌, String, Bool, true, false, ◌&&◌, not, Option, none, some, List, [], ◌∷◌,
  length, ltb, contains, any, if◌then◌else◌, ◌==◌, string_eq, beq-cases, ◌≡◌, refl, ap, arith, inl,
  inr, ◌||◌, All, leb,
}
use piace.Base.Order.{str_le, string_ord, str_le_total, str_le_trans}
use piace.Base.Sort.{sort, IsSorted, sort-IsSorted, any-sort}
use piace.Model.Catalog.{ResourceIdentity}
use piace.Model.Diagnostic.{Diagnostic, Severity}
use piace.Model.Result.{ImpactEstimate, ImpactStatus}
use piace.Impact.Pql.{build_pql}
use piace.Impact.Querier.{
  Client, Limits, Reply, unbuilt, timed_out, transport_error, other_error, response, Parsed,
  malformed, parsed, with_name, parse_rows, rows_or_malformed, parse_certnames, opens_array, take,
  completed_estimate, after_parse, after_reply, failed_estimate, stamped, estimate_diagnostic,
  blank_estimate, estimate_for, estimate, no_array_text,
}

length-take : (n : ℕ) (xs : List String) → length (take n xs) ≤ n
unfolding take
length-take n [] = omega arith
length-take zero (x ∷ xs) = omega arith
length-take (suc n) (x ∷ xs) = omega (arith, length-take n xs)

abbrev pub is_completed : ImpactStatus → Bool
is_completed ImpactStatus.completed = true
is_completed ImpactStatus.pending = false
is_completed ImpactStatus.timeout = false
is_completed ImpactStatus.failed = false

-- The certnames shown stay within the limit, and the mark tells whether more were found.
abbrev pub IsBounded : ℕ → ImpactEstimate → Type 0
IsBounded limit e = (length e.certnames ≤ limit) × (e.truncated ≡ ltb limit e.result_count)

-- A completed estimate has no diagnostic; any other has one of severity error with its reason.
abbrev pub IsReported : ImpactEstimate → Option Diagnostic → Type 0
IsReported e none = is_completed e.status ≡ true
IsReported e (some d) =
    (is_completed e.status ≡ false) × (d.severity ≡ Severity.error) × (d.message ≡ e.failure_reason)

-- What all steps of an estimate keep, with its sample in ascending order.
abbrev IsSound : ImpactEstimate → ImpactEstimate × Option Diagnostic → Type 0
IsSound e (f, d) =
    (f.identity ≡ e.identity)
    × IsBounded e.result_limit f
    × IsReported f d
    × IsSorted str_le f.certnames

-- Nothing is found yet.
abbrev IsBlank : ImpactEstimate → Type 0
IsBlank e = (e.certnames ≡ []) × (e.result_count ≡ 0) × (e.truncated ≡ false)

All-take : (P : String → Type 0) (n : ℕ) (xs : List String) → All P xs → All P (take n xs)
unfolding take
All-take P n [] h = tt
All-take P zero (x ∷ xs) h = tt
All-take P (suc n) (x ∷ xs) (h, hs) = (h, All-take P n xs hs)

take-IsSorted : (n : ℕ) (xs : List String) → IsSorted str_le xs → IsSorted str_le (take n xs)
unfolding take
take-IsSorted n [] h = tt
take-IsSorted zero (x ∷ xs) h = tt
take-IsSorted (suc n) (x ∷ xs) (h, hs) =
    (All-take (λ y. str_le x y ≡ true) n xs h, take-IsSorted n xs hs)

if-IsSorted :
    (b : Bool) (xs ys : List String)
    → IsSorted str_le xs
    → IsSorted str_le ys
    → IsSorted str_le (if b then xs else ys)
if-IsSorted true xs ys h k = h
if-IsSorted false xs ys h k = k

stamped-IsSound :
    (e : ImpactEstimate) (status : ImpactStatus) (t : String)
    → IsBlank e
    → is_completed status ≡ false
    → IsSound e (stamped e status t, some (estimate_diagnostic e.identity t))
unfolding stamped estimate_diagnostic
stamped-IsSound e status t (h, n, b) k =
    (refl, (omega (arith, ap {B = ℕ} length h), ground (arith, n, b)), (k, refl, refl), rw h tt)

if-length :
    (b : Bool) (n : ℕ) (xs : List String)
    → ltb n (length xs) ≡ b
    → length (if b then take n xs else xs) ≤ n
if-length true n xs h = length-take n xs
if-length false n xs h = ground arith

completed_estimate-IsSound :
    (e : ImpactEstimate) (names : List String)
    → IsSorted str_le names
    → IsSound e (completed_estimate e names, none)
unfolding completed_estimate
completed_estimate-IsSound e names s = (
  refl,
  (if-length (ltb e.result_limit (length names)) e.result_limit names refl, refl),
  refl,
  if-IsSorted (ltb e.result_limit (length names)) _ _ (take-IsSorted e.result_limit names s) s,
)

after_parse-IsSound : (e : ImpactEstimate) (p : Parsed) → IsBlank e → IsSound e (after_parse e p)
unfolding after_parse failed_estimate
after_parse-IsSound e (malformed t) h = stamped-IsSound e ImpactStatus.failed t h refl
after_parse-IsSound e (parsed names) h =
    completed_estimate-IsSound e (sort str_le names)
      (sort-IsSorted str_le str_le_total str_le_trans names)

if-IsSound :
    (e : ImpactEstimate) (b : Bool) (x y : ImpactEstimate × Option Diagnostic)
    → IsSound e x
    → IsSound e y
    → IsSound e (if b then x else y)
if-IsSound e true x y h k = h
if-IsSound e false x y h k = k

after_reply-IsSound :
    (u : String → Option (List (Option String))) (e : ImpactEstimate) (r : Reply)
    → IsBlank e
    → IsSound e (after_reply u e r)
unfolding after_reply failed_estimate
after_reply-IsSound u e (unbuilt t) h = stamped-IsSound e ImpactStatus.failed _ h refl
after_reply-IsSound u e (timed_out t) h = stamped-IsSound e ImpactStatus.timeout _ h refl
after_reply-IsSound u e (transport_error t) h = stamped-IsSound e ImpactStatus.failed _ h refl
after_reply-IsSound u e (other_error t) h = stamped-IsSound e ImpactStatus.failed _ h refl
after_reply-IsSound u e (response status body) h =
    if-IsSound e (ltb status 200 || leb 300 status) _ _
      (stamped-IsSound e ImpactStatus.failed _ h refl)
      (after_parse-IsSound e (parse_certnames u body) h)

module _ (client : Client) (identity : ResourceIdentity) (limits : Limits) where
  estimate_for-IsSound :
      (q : Option String)
      → IsSound (blank_estimate client identity limits "") (estimate_for client identity limits q)
  unfolding estimate_for blank_estimate failed_estimate
  estimate_for-IsSound none =
      stamped-IsSound (blank_estimate client identity limits "") ImpactStatus.failed _
        (refl, refl, refl) refl
  estimate_for-IsSound (some pql) =
      let e = blank_estimate client identity limits pql in
      after_reply-IsSound client.unmarshal e (client.ask pql e.request limits.timeout)
        (refl, refl, refl)

  -- No failure is silent: an estimate without a diagnostic is completed, and any other comes with a
  -- diagnostic of severity error that carries its failure reason.
  pub estimate-IsReported :
      IsReported (estimate client identity limits).0 (estimate client identity limits).1
  unfolding estimate
  estimate-IsReported = let (_, _, r, _) = estimate_for-IsSound (build_pql identity) in r

  pub estimate-identity_lem : (estimate client identity limits).0.identity ≡ identity
  unfolding estimate blank_estimate
  estimate-identity_lem = (estimate_for-IsSound (build_pql identity)).0

-- A row with this certname.
abbrev pub has_name : String → Option String → Bool
has_name c none = false
has_name c (some name) = name == c

-- Every certname of the parsed rows is of a row, and the reverse, less those seen before.
abbrev Covers : String → List String → List (Option String) → Parsed → Type 0
Covers c seen rows (malformed t) = Unit
Covers c seen rows (parsed names) =
    contains c names ≡ (any (has_name c) rows && not (contains c seen))

with_name-Covers :
    (c name : String) (seen : List String) (rows : List (Option String)) (p : Parsed)
    → contains name seen ≡ false
    → Covers c (name ∷ seen) rows p
    → Covers c seen (some name ∷ rows) (with_name name p)
unfolding with_name
with_name-Covers c name seen rows (malformed t) n h = tt
with_name-Covers c name seen rows (parsed names) n h = elim (beq-cases name c) [
  | inl (e, p) ↦ ground (arith, h, e, n, ap (λ x. contains x seen) p)
  | inr (e, _) ↦ ground (arith, h, e)
]

skipped-Covers :
    (c name : String) (seen : List String) (rows : List (Option String)) (p : Parsed)
    → contains name seen ≡ true
    → Covers c seen rows p
    → Covers c seen (some name ∷ rows) p
skipped-Covers c name seen rows (malformed t) n h = tt
skipped-Covers c name seen rows (parsed names) n h = elim (beq-cases name c) [
  | inl (e, p) ↦ ground (arith, h, e, n, ap (λ x. contains x seen) p)
  | inr (e, _) ↦ ground (arith, h, e)
]

if-Covers :
    (c : String) (seen : List String) (rows : List (Option String)) (b : Bool) (x y : Parsed)
    → (b ≡ true → Covers c seen rows x)
    → (b ≡ false → Covers c seen rows y)
    → Covers c seen rows (if b then x else y)
if-Covers c seen rows true x y h k = h refl
if-Covers c seen rows false x y h k = k refl

parse_rows-Covers :
    (c : String) (seen : List String) (rows : List (Option String))
    → Covers c seen rows (parse_rows seen rows)
unfolding parse_rows
parse_rows-Covers c seen [] = refl
parse_rows-Covers c seen (none ∷ rows) = tt
parse_rows-Covers c seen (some name ∷ rows) =
    let all = some name ∷ rows in
    if-Covers c seen all (name == "") _ _ (λ e. tt)
      (λ e.
        if-Covers c seen all (contains name seen) _ _
          (λ n.
            skipped-Covers c name seen rows (parse_rows seen rows) n
              (parse_rows-Covers c seen rows))
          (λ n.
            with_name-Covers c name seen rows (parse_rows (name ∷ seen) rows) n
              (parse_rows-Covers c (name ∷ seen) rows)))

-- If the estimate has neither a diagnostic nor the mark, it shows the certnames of the rows.
abbrev Exact : String → List (Option String) → ImpactEstimate × Option Diagnostic → Type 0
Exact c rows (e, d) =
    d ≡ none → e.truncated ≡ false → contains c e.certnames ≡ any (has_name c) rows

kept_all :
    (c : String) (b : Bool) (xs ys : List String)
    → b ≡ false
    → contains c (if b then xs else ys) ≡ contains c ys
kept_all c true xs ys h = absurd (ground (arith, h))
kept_all c false xs ys h = refl

after_parse-Exact :
    (c : String) (rows : List (Option String)) (e : ImpactEstimate) (p : Parsed)
    → Covers c [] rows p
    → Exact c rows (after_parse e p)
unfolding after_parse failed_estimate completed_estimate
after_parse-Exact c rows e (malformed t) h k b = absurd (cc)
after_parse-Exact c rows e (parsed names) h k b = ground (
  arith,
  kept_all c (ltb e.result_limit (length (sort str_le names)))
      (take e.result_limit (sort str_le names)) (sort str_le names) b,
  any-sort str_le (λ x. x == c) names,
  h,
)

if-Exact :
    (c : String) (rows : List (Option String)) (b : Bool) (x y : ImpactEstimate × Option Diagnostic)
    → Exact c rows x
    → Exact c rows y
    → Exact c rows (if b then x else y)
if-Exact c rows true x y h k = h
if-Exact c rows false x y h k = k

rows-Covers :
    (c : String) (rows : List (Option String)) (b : Bool)
    → Covers c [] rows (if b then parse_rows [] rows else malformed no_array_text)
unfolding rows_or_malformed
rows-Covers c rows true = parse_rows-Covers c [] rows
rows-Covers c rows false = tt

module _ (client : Client) (identity : ResourceIdentity) (limits : Limits) where
  -- A completed estimate that is not marked as truncated shows a certname exactly if a row of the
  -- response has it.
  pub estimate-exact :
      (pql body c : String) (status : ℕ) (rows : List (Option String))
      → build_pql identity ≡ some pql
      → client.ask pql (blank_estimate client identity limits pql).request limits.timeout
        ≡ response status body
      → client.unmarshal body ≡ some rows
      → (estimate client identity limits).1 ≡ none
      → (estimate client identity limits).0.truncated ≡ false
      → contains c (estimate client identity limits).0.certnames ≡ any (has_name c) rows
  unfolding estimate estimate_for blank_estimate after_reply parse_certnames rows_or_malformed
      failed_estimate
  estimate-exact pql body c status rows p r u =
      let goal : Exact c rows (estimate client identity limits) =
        rw (p, r, u)
          (if-Exact c rows (ltb status 200 || leb 300 status) _ _ (λ k. absurd (cc))
            (after_parse-Exact c rows (blank_estimate client identity limits pql)
              (if opens_array body then parse_rows [] rows else malformed no_array_text)
              (rows-Covers c rows (opens_array body)))) in
      goal
