-- ===== src/Impact/Querier/Found.antt =====
-- What an estimate of internal/impact/querier.go makes of the certnames that were found.
use piace.Base.{
  ℕ, zero, suc, ◌≤◌, String, Bool, true, false, Option, none, some, List, [], ◌∷◌, ◌++◌, length,
  ltb, leb, contains, if◌then◌else◌, ◌==◌, string_eq, ◌≡◌, refl, ap, arith, ◌||◌, ◌∙◌, inl, inr,
  beq-cases,
}
use piace.Base.Order.{str_le, string_ord}
use piace.Base.Sort.{sort}
use piace.Base.Distinct.{distinct, distinct-same}
use piace.Model.Catalog.{ResourceIdentity}
use piace.Model.Diagnostic.{Diagnostic}
use piace.Model.Result.{ImpactEstimate}
use piace.Impact.Pql.{build_pql}
use piace.Impact.Querier.{
  Client, Limits, response, Parsed, malformed, parsed, with_name, parse_rows, rows_or_malformed,
  parse_certnames, opens_array, take, completed_estimate, after_parse, after_reply, failed_estimate,
  blank_estimate, estimate_for, estimate, no_array_text,
}

-- The certnames of the rows, in their order.
abbrev pub row_names : List (Option String) → List String
row_names [] = []
row_names (none ∷ rows) = row_names rows
row_names (some name ∷ rows) = name ∷ row_names rows

-- Each certname of the rows once, in ascending order.
abbrev pub found_in : List (Option String) → List String
found_in rows = sort str_le (distinct [] (row_names rows))

-- The parsed certnames are those of the rows, each once and without those seen before.
abbrev Finds : List String → List (Option String) → Parsed → Type 0
Finds seen rows (malformed t) = Unit
Finds seen rows (parsed names) = names ≡ distinct seen (row_names rows)

if-Finds :
    (seen : List String) (rows : List (Option String)) (b : Bool) (x y : Parsed)
    → (b ≡ true → Finds seen rows x)
    → (b ≡ false → Finds seen rows y)
    → Finds seen rows (if b then x else y)
if-Finds seen rows true x y h k = h refl
if-Finds seen rows false x y h k = k refl

skipped-Finds :
    (name : String) (seen : List String) (rows : List (Option String)) (p : Parsed)
    → contains name seen ≡ true
    → Finds seen rows p
    → Finds seen (some name ∷ rows) p
unfolding distinct
skipped-Finds name seen rows (malformed t) n h = tt
skipped-Finds name seen rows (parsed names) n h = rw n (
    h
    ∙ distinct-same seen (name ∷ seen) (row_names rows) (λ a. elim (beq-cases name a) [
      | inl (e, p) ↦ ground (arith, e, n, ap (λ x. contains x seen) p)
      | inr (e, _) ↦ ground (arith, e)
    ]))

with_name-Finds :
    (name : String) (seen : List String) (rows : List (Option String)) (p : Parsed)
    → contains name seen ≡ false
    → Finds (name ∷ seen) rows p
    → Finds seen (some name ∷ rows) (with_name name p)
unfolding distinct with_name
with_name-Finds name seen rows (malformed t) n h = tt
with_name-Finds name seen rows (parsed names) n h = rw n (ap (λ l. name ∷ l) h)

parse_rows-Finds :
    (seen : List String) (rows : List (Option String)) → Finds seen rows (parse_rows seen rows)
unfolding parse_rows distinct
parse_rows-Finds seen [] = refl
parse_rows-Finds seen (none ∷ rows) = tt
parse_rows-Finds seen (some name ∷ rows) =
    let all = some name ∷ rows in
    if-Finds seen all (name == "") _ _ (λ e. tt)
      (λ e.
        if-Finds seen all (contains name seen) _ _
          (λ n. skipped-Finds name seen rows (parse_rows seen rows) n (parse_rows-Finds seen rows))
          (λ n.
            with_name-Finds name seen rows (parse_rows (name ∷ seen) rows) n
              (parse_rows-Finds (name ∷ seen) rows)))

rows-Finds :
    (rows : List (Option String)) (b : Bool)
    → Finds [] rows (if b then parse_rows [] rows else malformed no_array_text)
rows-Finds rows true = parse_rows-Finds [] rows
rows-Finds rows false = tt

-- The first certnames found, as many as the limit allows, with their number and the mark.
abbrev pub IsSampleOf : ℕ → List String → ImpactEstimate → Type 0
IsSampleOf limit found e =
    (e.result_count ≡ length found)
    × (e.truncated ≡ ltb limit (length found))
    × (length e.certnames ≡ (if ltb limit (length found) then limit else length found))
    × ((rest : List String) × (e.certnames ++ rest ≡ found))

drop : ℕ → List String → List String
drop n [] = []
drop zero (x ∷ xs) = x ∷ xs
drop (suc n) (x ∷ xs) = drop n xs

take-drop : (n : ℕ) (xs : List String) → take n xs ++ drop n xs ≡ xs
unfolding take drop
take-drop n [] = refl
take-drop zero (x ∷ xs) = refl
take-drop (suc n) (x ∷ xs) = ap (λ l. x ∷ l) (take-drop n xs)

length-take_under : (n : ℕ) (xs : List String) → n ≤ length xs → length (take n xs) ≡ n
unfolding take
length-take_under n [] h = omega (arith, h)
length-take_under zero (x ∷ xs) h = refl
length-take_under (suc n) (x ∷ xs) h = omega (arith, h, length-take_under n xs)

append_nil : (xs : List String) → xs ++ [] ≡ xs
append_nil [] = refl
append_nil (x ∷ xs) = ap (λ l. x ∷ l) (append_nil xs)

sampled :
    (b : Bool) (n : ℕ) (xs : List String)
    → ltb n (length xs) ≡ b
    → (length (if b then take n xs else xs) ≡ (if b then n else length xs))
      × ((rest : List String) × ((if b then take n xs else xs) ++ rest ≡ xs))
sampled true n xs h = (length-take_under n xs (ground (arith, h)), (drop n xs, take-drop n xs))
sampled false n xs h = (refl, ([], append_nil xs))

completed_estimate-IsSampleOf :
    (e : ImpactEstimate) (names : List String)
    → IsSampleOf e.result_limit names (completed_estimate e names)
unfolding completed_estimate
completed_estimate-IsSampleOf e names =
    let (h, rest) = sampled (ltb e.result_limit (length names)) e.result_limit names refl in
    (refl, refl, h, rest)

abbrev Samples : ℕ → List (Option String) → ImpactEstimate × Option Diagnostic → Type 0
Samples limit rows (e, d) = d ≡ none → IsSampleOf limit (found_in rows) e

after_parse-Samples :
    (rows : List (Option String)) (e : ImpactEstimate) (p : Parsed)
    → Finds [] rows p
    → Samples e.result_limit rows (after_parse e p)
unfolding after_parse failed_estimate
after_parse-Samples rows e (malformed t) h k = absurd (cc)
after_parse-Samples rows e (parsed names) h k =
    rw h (completed_estimate-IsSampleOf e (found_in rows))

if-Samples :
    (limit : ℕ) (rows : List (Option String)) (b : Bool) (x y : ImpactEstimate × Option Diagnostic)
    → Samples limit rows x
    → Samples limit rows y
    → Samples limit rows (if b then x else y)
if-Samples limit rows true x y h k = h
if-Samples limit rows false x y h k = k

module _ (client : Client) (identity : ResourceIdentity) (limits : Limits) where
  -- An estimate without a diagnostic, for which the client answers with a response whose body decodes
  -- to rows, counts the distinct certnames of these rows, shows the
  -- first `result_limit` of them in ascending order (all of them if there are no more), and is marked
  -- as truncated exactly if there are more.
  pub estimate-IsSampleOf :
      (pql body : String) (status : ℕ) (rows : List (Option String))
      → build_pql identity ≡ some pql
      → client.ask pql (blank_estimate client identity limits pql).request limits.timeout
        ≡ response status body
      → client.unmarshal body ≡ some rows
      → (estimate client identity limits).1 ≡ none
      → IsSampleOf limits.result_limit (found_in rows) (estimate client identity limits).0
  unfolding estimate estimate_for blank_estimate after_reply parse_certnames rows_or_malformed
      failed_estimate
  estimate-IsSampleOf pql body status rows p r u =
      let goal : Samples limits.result_limit rows (estimate client identity limits) =
        rw (p, r, u)
          (if-Samples limits.result_limit rows (ltb status 200 || leb 300 status) _ _
            (λ k. absurd (cc))
            (after_parse-Samples rows (blank_estimate client identity limits pql)
              (if opens_array body then parse_rows [] rows else malformed no_array_text)
              (rows-Finds rows (opens_array body)))) in
      goal
