-- ===== src/Snapshot/Number/Laws.antt =====
-- Dividing the powers of 2 and 5 out of a denominator (internal/snapshot/canonical.go).
use native.Mathlib.Nat.{pow-zero, pow-suc, mul_comm, mul_assoc, mul_left_comm, mul-one, sub-zero}
use piace.Base.{
  ℕ, zero, suc, ◌-◌, ◌*◌, ◌/◌, ◌%◌, ◌^◌, ◌≤◌, ◌<◌, String, Bool, true, false, if◌then◌else◌, nat_eq,
  ◌≡◌, refl, sym, ap, ◌∙◌, subst, arith, max, ◌⊎◌, not, nat_eq_iff, inl, inr, Bool-cases,
}
use piace.Base.Decimal.{decimal}
use piace.Normalize.Values.{ValueError, invalid}
use piace.Snapshot.Number.{Rat, divide_out, scaled, written, number_of}

-- The count and the rest of the loop: the rest is no multiple of the base, and with the power of the
-- base it gives the denominator again.
abbrev pub IsDividedOut : ℕ → ℕ → ℕ × ℕ → Type 0
IsDividedOut b den (p, rest) = (den ≡ b ^ p * rest) × (nat_eq (rest % b) 0 ≡ false)

unit : (x d : ℕ) → x ≡ 1 → d ≡ x * d
unit x d h = subst (λ y. d ≡ y * d) (sym h) (omega arith)

module _ (b : ℕ) (exact : (d : ℕ) → nat_eq (d % b) 0 ≡ true → d ≡ b * (d / b))
    (smaller : (d : ℕ) → 0 < d → nat_eq (d % b) 0 ≡ true → (0 < d / b) × (d / b < d)) where
  one_more : (d p rest : ℕ) → d ≡ b * (d / b) → d / b ≡ b ^ p * rest → d ≡ b ^ suc p * rest
  one_more d p rest e h =
      e
      ∙ (ap (λ x. b * x) h
          ∙ (sym (mul_assoc b (b ^ p) rest)
              ∙ (ap (λ x. x * rest) (mul_comm b (b ^ p)) ∙ ap (λ x. x * rest) (sym (pow-suc b p)))))

  divide_out-IsDividedOut :
      (fuel den : ℕ) → 0 < den → den ≤ fuel → IsDividedOut b den (divide_out b fuel den)
  unfolding divide_out
  divide_out-IsDividedOut zero den h k = absurd (omega arith)
  divide_out-IsDividedOut (suc fuel) den h k = elim (Bool-cases (nat_eq (den % b) 0)) [
    | inl e ↦ rw e (
        let (low, less) = smaller den h e in
        let (same, odd) = divide_out-IsDividedOut fuel (den / b) low (omega arith) in
        (one_more den _ _ (exact den e) same, odd))
    | inr e ↦ rw e (unit (b ^ 0) den (pow-zero b), e)
  ]

-- The two loops end by their tests, with the denominator as fuel: for a denominator that is not 0, what
-- remains of it is no multiple of 2, and no multiple of 5 after the second loop, and the powers that
-- were counted give the denominator again.
pub divide_out_ends :
    (den : ℕ)
    → 0 < den
    → IsDividedOut 2 den (divide_out 2 den den) × IsDividedOut 5 den (divide_out 5 den den)
divide_out_ends den h = (
  divide_out-IsDividedOut 2 (λ d e. ground arith) (λ d l e. (ground arith, ground arith)) den den h
      (omega arith),
  divide_out-IsDividedOut 5 (λ d e. ground arith) (λ d l e. (ground arith, ground arith)) den den h
      (omega arith),
)

swap : (a x c y : ℕ) → (a * x) * (c * y) ≡ (a * c) * (x * y)
swap a x c y =
    mul_assoc a x (c * y) ∙ (ap (λ z. a * z) (mul_left_comm x c y) ∙ sym (mul_assoc a c (x * y)))

ten_pow : (n : ℕ) → 2 ^ n * 5 ^ n ≡ 10 ^ n
ten_pow zero = refl
ten_pow (suc n) =
    ap (λ z. z * 5 ^ suc n) (pow-suc 2 n)
    ∙ (ap (λ z. (2 ^ n * 2) * z) (pow-suc 5 n)
        ∙ (swap (2 ^ n) 2 (5 ^ n) 5 ∙ (ap (λ z. z * 10) (ten_pow n) ∙ sym (pow-suc 10 n))))

pub pow_less : (b p n : ℕ) → p ≤ n → b ^ (n - p) * b ^ p ≡ b ^ n
pow_less b zero n h =
    ap (λ z. b ^ (n - 0) * z) (pow-zero b) ∙ (mul-one (b ^ (n - 0)) ∙ ap (λ z. b ^ z) (sub-zero n))
pow_less b (suc p) zero h = absurd (omega arith)
pow_less b (suc p) (suc n) h =
    let less : suc n - suc p ≡ n - p = omega arith in
    ap (λ z. b ^ z * b ^ suc p) less
    ∙ (ap (λ z. b ^ (n - p) * z) (pow-suc b p)
        ∙ (sym (mul_assoc (b ^ (n - p)) (b ^ p) b)
            ∙ (ap (λ z. z * b) (pow_less b p n (omega arith)) ∙ sym (pow-suc b n))))

scaled-exact : (num n p q : ℕ) → p ≤ n → q ≤ n → scaled num n p q * (2 ^ p * 5 ^ q) ≡ num * 10 ^ n
unfolding scaled
scaled-exact num n p q h k =
    mul_assoc num (2 ^ (n - p) * 5 ^ (n - q)) (2 ^ p * 5 ^ q)
    ∙ ap (λ z. num * z)
        (swap (2 ^ (n - p)) (5 ^ (n - q)) (2 ^ p) (5 ^ q)
          ∙ (ap (λ z. z * (5 ^ (n - q) * 5 ^ q)) (pow_less 2 p n h)
              ∙ (ap (λ z. 2 ^ n * z) (pow_less 5 q n k) ∙ ten_pow n)))

-- The counts of the two loops.
abbrev pub twos : Rat → ℕ × ℕ
twos r = divide_out 2 r.den r.den

abbrev pub fives : Rat → ℕ × ℕ
fives r = divide_out 5 (twos r).1 (twos r).1

abbrev pub decimals : Rat → ℕ
decimals r = max (twos r).0 (fives r).0

rest_positive : (x rest : ℕ) → 0 < x * rest → 0 < rest
rest_positive x zero h = ground arith
rest_positive x (suc n) h = omega arith

if-inr :
    (b : Bool) (s t : String)
    → ◌≡◌ {A = ValueError ⊎ String} (if not b then inl invalid else inr s) (inr t)
    → (b ≡ true) × (s ≡ t)
if-inr true s t h = (refl, cc)
if-inr false s t h = absurd (cc)

divided : (r : Rat) → 0 < r.den → (fives r).1 ≡ 1 → r.den ≡ 2 ^ (twos r).0 * 5 ^ (fives r).0
divided r h e =
    let (two_out, _) = (divide_out_ends r.den h).0 in
    let low : 0 < (twos r).1 =
      rest_positive (2 ^ (twos r).0) (twos r).1 (subst (λ z. 0 < z) two_out h) in
    let (five_out, _) = (divide_out_ends (twos r).1 low).1 in
    two_out
    ∙ ap (λ z. 2 ^ (twos r).0 * z)
        (five_out ∙ (ap (λ z. 5 ^ (fives r).0 * z) e ∙ mul-one (5 ^ (fives r).0)))

-- The digits of an accepted number are those of an integer that, over the power of ten of its decimals,
-- is the numerator over the denominator.
pub number_of-digits :
    (r : Rat) (s : String)
    → 0 < r.den
    → number_of r ≡ inr s
    → (digits : ℕ) × (s ≡ written r.negative (decimals r) (decimal digits))
      × (digits * r.den ≡ r.num * 10 ^ decimals r)
unfolding number_of
number_of-digits r s h e =
    let digits = scaled r.num (decimals r) (twos r).0 (fives r).0 in
    let (one_left, text) =
      if-inr (nat_eq (fives r).1 1) (written r.negative (decimals r) (decimal digits)) s e in
    (
      digits,
      sym text,
      ap (λ z. digits * z) (divided r h ((nat_eq_iff (fives r).1 1).0 one_left))
          ∙ scaled-exact r.num (decimals r) (twos r).0 (fives r).0 (omega arith) (omega arith),
    )
