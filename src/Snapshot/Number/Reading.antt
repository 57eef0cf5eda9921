-- ===== src/Snapshot/Number/Reading.antt =====
-- A reader of decimal numbers, against which the texts of internal/snapshot/canonical.go are read.
use Prim.Native.Char.{Char, code}
use Prim.Native.String.{◌++◌ as ◌<>◌}
use text.Mathlib.TextLemmas.{nil-append, cons-append}
use native.Mathlib.Nat.{pow-suc, mul_assoc, mul_comm}
use piace.Base.{
  eq_iff, ℕ, zero, suc, ◌+◌, ◌-◌, ◌*◌, ◌/◌, ◌%◌, ◌^◌, ◌≤◌, ◌<◌, String, Bool, true, false, ◌&&◌,
  if◌then◌else◌, nat_eq, ltb, leb, ◌==◌, string_eq, ◌≡◌, refl, sym, ap, ◌∙◌, arith, inl, inr,
  Bool-cases,
}
use piace.Base.Decimal.{decimal, decimal_from, digit_at, digits}
use piace.Snapshot.Number.{zeros, split_at, trim_trailing_zeros}

-- The number behind the point, after `v`, and how many digits it has.
abbrev pub read_fraction : ℕ → ℕ → String → ℕ × ℕ
read_fraction v k String.[] = (v, k)
read_fraction v k (String.◌∷◌ c s) = read_fraction (v * 10 + (code c - b'0')) (suc k) s

-- The number in front of the point, after `v`, and what follows it.
abbrev pub read_whole : ℕ → String → ℕ × ℕ
read_whole v String.[] = (v, 0)
read_whole v (String.◌∷◌ c s) =
    let rest = read_whole (v * 10 + (code c - b'0')) s in
    if nat_eq (code c) b'.' then read_fraction v 0 s else rest

-- A text as a sign, the number without its point, and the number of its decimals.
abbrev pub read : String → Bool × (ℕ × ℕ)
read String.[] = (false, (0, 0))
read (String.◌∷◌ c s) =
    if nat_eq (code c) b'-' then (true, read_whole 0 s) else (false, read_whole 0 (String.◌∷◌ c s))

-- The digits of a text, after `v`.
abbrev pub value : ℕ → String → ℕ
value v String.[] = v
value v (String.◌∷◌ c s) = value (v * 10 + (code c - b'0')) s

abbrev pub count_chars : String → ℕ
count_chars String.[] = 0
count_chars (String.◌∷◌ c s) = suc (count_chars s)

-- Nothing but digits.
abbrev pub are_digits : String → Bool
are_digits String.[] = true
are_digits (String.◌∷◌ c s) = leb b'0' (code c) && (leb (code c) b'9' && are_digits s)

pub value-append : (v : ℕ) (s t : String) → value v (s <> t) ≡ value (value v s) t
value-append v String.[] t = ap (value v) (nil-append t)
value-append v (String.◌∷◌ c s) t =
    ap (value v) (cons-append c s t) ∙ value-append (v * 10 + (code c - b'0')) s t

pub are_digits-append : (s t : String) → are_digits (s <> t) ≡ (are_digits s && are_digits t)
are_digits-append String.[] t = ap are_digits (nil-append t)
are_digits-append (String.◌∷◌ c s) t =
    ground (arith, ap are_digits (cons-append c s t), are_digits-append s t)

read_fraction-value : (v k : ℕ) (s : String) → read_fraction v k s ≡ (value v s, k + count_chars s)
read_fraction-value v k String.[] = ap (λ n. (v, n)) (omega arith)
read_fraction-value v k (String.◌∷◌ c s) =
    read_fraction-value (v * 10 + (code c - b'0')) (suc k) s
    ∙ ap (λ n. (value (v * 10 + (code c - b'0')) s, n)) (omega arith)

no_point : (c : Char) → leb b'0' (code c) ≡ true → nat_eq (code c) b'.' ≡ false
no_point c h = ground (arith, h)

pub read_whole-digits : (v : ℕ) (s : String) → are_digits s ≡ true → read_whole v s ≡ (value v s, 0)
read_whole-digits v String.[] h = refl
read_whole-digits v (String.◌∷◌ c s) h =
    rw (no_point c (ground (arith, h)))
      (read_whole-digits (v * 10 + (code c - b'0')) s (ground (arith, h)))

pub read_whole-point :
    (v : ℕ) (s f : String)
    → are_digits s ≡ true
    → read_whole v (s <> ("." <> f)) ≡ (value (value v s) f, count_chars f)
read_whole-point v String.[] f h =
    ap (read_whole v) (
      nil-append ("." <> f)
      ∙ (cons-append "." String.[] f ∙ ap (λ x. String.◌∷◌ "." x) (nil-append f)))
    ∙ (read_fraction-value v 0 f ∙ ap (λ n. (value v f, n)) (omega arith))
read_whole-point v (String.◌∷◌ c s) f h =
    ap (read_whole v) (cons-append c s ("." <> f))
    ∙ rw (no_point c (ground (arith, h)))
        (read_whole-point (v * 10 + (code c - b'0')) s f (ground (arith, h)))

digit_at-value :
    (n : ℕ)
    → n < 10
    → (are_digits (digit_at digits n) ≡ true) × ((v : ℕ) → value v (digit_at digits n) ≡ v * 10 + n)
unfolding digit_at digits
digit_at-value zero h = (refl, λ v. refl)
digit_at-value (suc zero) h = (refl, λ v. refl)
digit_at-value (suc (suc zero)) h = (refl, λ v. refl)
digit_at-value (suc (suc (suc zero))) h = (refl, λ v. refl)
digit_at-value (suc (suc (suc (suc zero)))) h = (refl, λ v. refl)
digit_at-value (suc (suc (suc (suc (suc zero))))) h = (refl, λ v. refl)
digit_at-value (suc (suc (suc (suc (suc (suc zero)))))) h = (refl, λ v. refl)
digit_at-value (suc (suc (suc (suc (suc (suc (suc zero))))))) h = (refl, λ v. refl)
digit_at-value (suc (suc (suc (suc (suc (suc (suc (suc zero)))))))) h = (refl, λ v. refl)
digit_at-value (suc (suc (suc (suc (suc (suc (suc (suc (suc zero))))))))) h = (refl, λ v. refl)
digit_at-value (suc (suc (suc (suc (suc (suc (suc (suc (suc (suc n)))))))))) h =
    absurd (omega (arith, h))

decimal_from-value :
    (fuel n : ℕ)
    → n < fuel
    → (are_digits (decimal_from fuel n) ≡ true) × (value 0 (decimal_from fuel n) ≡ n)
unfolding decimal_from
decimal_from-value zero n h = absurd (omega (arith, h))
decimal_from-value (suc fuel) n h = elim (Bool-cases (ltb n 10)) [
  | inl e ↦ let (a, b) = digit_at-value (n % 10) (ground arith) in rw e (a, b 0 ∙ ground (arith, e))
  | inr e ↦
      let (a, b) = digit_at-value (n % 10) (ground arith) in
      let (c, d) = decimal_from-value fuel (n / 10) (ground (arith, e, h)) in
      rw e (
        are_digits-append (decimal_from fuel (n / 10)) (digit_at digits (n % 10))
            ∙ ground (arith, a, c),
        value-append 0 (decimal_from fuel (n / 10)) (digit_at digits (n % 10))
            ∙ (b (value 0 (decimal_from fuel (n / 10))) ∙ ground (arith, d)),
      )
]

pub decimal-value : (n : ℕ) → (are_digits (decimal n) ≡ true) × (value 0 (decimal n) ≡ n)
unfolding decimal
decimal-value n = decimal_from-value (suc n) n (omega arith)

pub count_chars-append : (s t : String) → count_chars (s <> t) ≡ count_chars s + count_chars t
count_chars-append String.[] t = ap count_chars (nil-append t) ∙ omega arith
count_chars-append (String.◌∷◌ c s) t =
    ap count_chars (cons-append c s t) ∙ omega (arith, count_chars-append s t)

pub zeros-value :
    (n : ℕ) → (are_digits (zeros n) ≡ true) × (value 0 (zeros n) ≡ 0) × (count_chars (zeros n) ≡ n)
unfolding zeros
zeros-value zero = (refl, refl, refl)
zeros-value (suc n) = let (a, b, c) = zeros-value n in (a, b, omega (arith, c))

-- The two parts are the text, the first of the asked length.
pub split_at-parts :
    (k : ℕ) (s : String)
    → k ≤ count_chars s
    → ((split_at k s).0 <> (split_at k s).1 ≡ s) × (count_chars (split_at k s).0 ≡ k)
unfolding split_at
split_at-parts zero String.[] h = (nil-append String.[], refl)
split_at-parts (suc k) String.[] h = absurd (omega (arith, h))
split_at-parts zero (String.◌∷◌ c s) h = (nil-append (String.◌∷◌ c s), refl)
split_at-parts (suc k) (String.◌∷◌ c s) h =
    let (a, b) = split_at-parts k s (omega (arith, h)) in
    (cons-append c (split_at k s).0 (split_at k s).1 ∙ ap (λ x. String.◌∷◌ c x) a, omega (arith, b))

-- Every zero that is cut off is a factor of ten.
pub trim-value :
    (v : ℕ) (s : String)
    → (m : ℕ) × (value v s ≡ value v (trim_trailing_zeros s) * 10 ^ m)
      × (count_chars s ≡ count_chars (trim_trailing_zeros s) + m)
unfolding trim_trailing_zeros
trim-value v String.[] = (0, ground arith, refl)
trim-value v (String.◌∷◌ c s) =
    let (m, a, b) = trim-value (v * 10 + (code c - b'0')) s in
    elim (Bool-cases (nat_eq (code c) b'0' && trim_trailing_zeros s == "")) [
      | inl e ↦ rw e (
        suc m,
        a ∙ trimmed m (trim_trailing_zeros s) (ground (arith, e)) (ground (arith, e)),
        counted m (trim_trailing_zeros s) (ground (arith, e)) b,
      )
      | inr e ↦ rw e (m, a, omega (arith, b))
    ]
  where
    trimmed :
        (m : ℕ) (t : String)
        → nat_eq (code c) b'0' ≡ true
        → (t == "") ≡ true
        → value (v * 10 + (code c - b'0')) t * 10 ^ m ≡ v * 10 ^ suc m
    trimmed m t h k =
        ap (λ x. value (v * 10 + (code c - b'0')) x * 10 ^ m) ((eq_iff t "").0 k)
        ∙ (ap (λ x. x * 10 ^ m) (ground (arith, h))
            ∙ (mul_assoc v 10 (10 ^ m)
                ∙ ap (λ x. v * x) (mul_comm 10 (10 ^ m) ∙ sym (pow-suc 10 m))))

    counted :
        (m : ℕ) (t : String)
        → (t == "") ≡ true
        → count_chars s ≡ count_chars t + m
        → suc (count_chars s) ≡ 0 + suc m
    counted m t k b =
        let z : count_chars t ≡ 0 = ap count_chars ((eq_iff t "").0 k) in omega (arith, b, z)
