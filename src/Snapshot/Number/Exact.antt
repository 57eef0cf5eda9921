-- ===== src/Snapshot/Number/Exact.antt =====
-- The text of a canonical number, read again (internal/snapshot/canonical.go).
use Prim.Native.Nat.{Ordering, compare}
use Prim.Native.Char.{Char, code, len_utf8, len_utf8_def, width}
use Prim.Native.String.len
use Prim.Native.String.{◌++◌ as ◌<>◌, len}
use text.Mathlib.TextLemmas.{nil-append, cons-append}
use native.Mathlib.Nat.{mul_assoc, mul_comm, mul-pos, mul-div_cancel, one-le-pow}
use piace.Base.{
  ℕ, zero, suc, ◌+◌, ◌-◌, ◌*◌, ◌/◌, ◌^◌, ◌<◌, String, Bool, true, false, if◌then◌else◌, nat_eq, ltb,
  leb, ◌==◌, string_eq, eq_iff, beq-cases, ◌≡◌, refl, sym, ap, ◌∙◌, arith, inl, inr, Bool-cases,
}
use piace.Base.Decimal.{decimal}
use piace.Snapshot.Number.{
  Rat, zeros, padded, split_at, trim_trailing_zeros, with_fraction, signed, written, number_of,
}
use piace.Snapshot.Number.Laws.{decimals, pow_less, number_of-digits}
use piace.Snapshot.Number.Reading.{
  read, read_whole, value, count_chars, are_digits, value-append, are_digits-append,
  read_whole-digits, read_whole-point, decimal-value, count_chars-append, zeros-value,
  split_at-parts, trim-value,
}

narrow : (c : Char) → ltb (code c) 128 ≡ true → len_utf8 c ≡ 1
narrow c h = len_utf8_def c ∙ go (compare (code c) 128) refl
  where
    go :
        (o : Ordering)
        → compare (code c) 128 ≡ o
        → width o (compare (code c) 2048) (compare (code c) 65536) ≡ 1
    go Ordering.lt e = refl
    go Ordering.eq e = absurd (ground (arith, h, e))
    go Ordering.gt e = absurd (ground (arith, h, e))

-- A text of digits has as many bytes as characters.
len-digits : (s : String) → are_digits s ≡ true → len s ≡ count_chars s
len-digits String.[] h = len.nil
len-digits (String.◌∷◌ c s) h =
    len.cons c s ∙ omega (arith, narrow c (ground (arith, h)), len-digits s (ground (arith, h)))

-- The padded digits have the same value, and one digit more than decimals.
padded-value :
    (n : ℕ) (ds : String)
    → are_digits ds ≡ true
    → (are_digits (padded n ds) ≡ true)
      × (value 0 (padded n ds) ≡ value 0 ds)
      × (n < count_chars (padded n ds))
unfolding padded
padded-value n ds h = elim (Bool-cases (leb (len ds) n)) [
  | inl e ↦
      let (a, b, c) = zeros-value (suc n - len ds) in
      let l = len-digits ds h in
      rw e (
        are_digits-append (zeros (suc n - len ds)) ds ∙ ground (arith, a, h),
        value-append 0 (zeros (suc n - len ds)) ds ∙ ap (λ v. value v ds) b,
        (ground (arith, count_chars-append (zeros (suc n - len ds)) ds, c, l, e)),
      )
  | inr e ↦ rw e (h, refl, ground (arith, len-digits ds h, e))
]

abbrev starts_with_digit : String → Bool
starts_with_digit String.[] = false
starts_with_digit (String.◌∷◌ c s) = leb b'0' (code c)

starts : (s : String) → are_digits s ≡ true → 0 < count_chars s → starts_with_digit s ≡ true
starts String.[] h k = absurd (omega (arith, k))
starts (String.◌∷◌ c s) h k = ground (arith, h)

starts-append : (s t : String) → starts_with_digit s ≡ true → starts_with_digit (s <> t) ≡ true
starts-append String.[] t h = absurd (ground (arith, h))
starts-append (String.◌∷◌ c s) t h = ap starts_with_digit (cons-append c s t) ∙ h

-- The text is read as the number `d` with `n` decimals, less some that are zero.
abbrev ReadsAs : ℕ → ℕ → String → Type 0
ReadsAs n d t =
    (starts_with_digit t ≡ true)
    × ((m : ℕ) × ((read_whole 0 t).0 * 10 ^ m ≡ d) × ((read_whole 0 t).1 + m ≡ n))

whole-ReadsAs :
    (n d : ℕ) (s : String)
    → are_digits s ≡ true
    → 0 < count_chars s
    → (m : ℕ) → value 0 s * 10 ^ m ≡ d
    → m ≡ n
    → ReadsAs n d s
whole-ReadsAs n d s h k m a b =
    let r = read_whole-digits 0 s h in
    (starts s h k, (m, ap (λ x. x.0 * 10 ^ m) r ∙ a, ap (λ x. x.1 + m) r ∙ omega (arith, b)))

fraction-ReadsAs :
    (n d : ℕ) (w f : String)
    → are_digits w ≡ true
    → 0 < count_chars w
    → (m : ℕ) → value (value 0 w) f * 10 ^ m ≡ d
    → count_chars f + m ≡ n
    → ReadsAs n d (w <> ("." <> f))
fraction-ReadsAs n d w f h k m a b =
    let r = read_whole-point 0 w f h in
    (
      starts-append w ("." <> f) (starts w h k),
      (m, ap (λ x. x.0 * 10 ^ m) r ∙ a, ap (λ x. x.1 + m) r ∙ b),
    )

with_fraction-ReadsAs :
    (n d : ℕ) (w f : String)
    → are_digits w ≡ true
    → 0 < count_chars w
    → value (value 0 w) f ≡ d
    → count_chars f ≡ n
    → ReadsAs n d (with_fraction w (trim_trailing_zeros f))
unfolding with_fraction
with_fraction-ReadsAs n d w f h k a b =
    let (m, u, v) = trim-value (value 0 w) f in
    elim (Bool-cases (trim_trailing_zeros f == "")) [
      | inl e ↦
          let none_left = (eq_iff (trim_trailing_zeros f) "").0 e in
          rw e (
            whole-ReadsAs n d w h k m
              (ap (λ x. value (value 0 w) x * 10 ^ m) (sym none_left) ∙ (sym u ∙ a))
              (let z : count_chars (trim_trailing_zeros f) ≡ 0 = ap count_chars none_left in
                omega (arith, z, v, b)))
      | inr e ↦
          rw e
            (fraction-ReadsAs n d w (trim_trailing_zeros f) h k m (sym u ∙ a) (omega (arith, v, b)))
    ]

-- The text without its sign.
abbrev unsigned : ℕ → String → String
unsigned n ds =
    let long = padded n ds in
    let parts = split_at (len long - n) long in
    if nat_eq n 0 then ds else with_fraction parts.0 (trim_trailing_zeros parts.1)

unsigned-ReadsAs :
    (n : ℕ) (ds : String)
    → are_digits ds ≡ true
    → 0 < count_chars ds
    → ReadsAs n (value 0 ds) (unsigned n ds)
unsigned-ReadsAs n ds h k = elim (Bool-cases (nat_eq n 0)) [
  | inl e ↦ rw e (whole-ReadsAs n (value 0 ds) ds h k 0 (ground arith) (ground (arith, e)))
  | inr e ↦
      let long = padded n ds in
      let parts = split_at (len long - n) long in
      let (a, b, c) = padded-value n ds h in
      let l = len-digits long a in
      let (joined, front) = split_at-parts (len long - n) long (omega (arith, l)) in
      let both = sym (are_digits-append parts.0 parts.1) ∙ (ap are_digits joined ∙ a) in
      let count = sym (count_chars-append parts.0 parts.1) ∙ ap count_chars joined in
      rw e (
        with_fraction-ReadsAs n (value 0 ds) parts.0 parts.1 (ground (arith, both))
          (omega (arith, front, c, l))
          (sym (value-append 0 parts.0 parts.1) ∙ (ap (value 0) joined ∙ b))
          (omega (arith, front, count, c, l)))
]

written-eq : (b : Bool) (n : ℕ) (ds : String) → written b n ds ≡ signed b (unsigned n ds)
unfolding written
written-eq b n ds = elim (Bool-cases (nat_eq n 0)) [ inl e ↦ rw e refl | inr e ↦ rw e refl ]

read-unsigned : (t : String) → starts_with_digit t ≡ true → read t ≡ (false, read_whole 0 t)
read-unsigned String.[] h = absurd (ground (arith, h))
read-unsigned (String.◌∷◌ c s) h =
    let digit : nat_eq (code c) b'-' ≡ false = ground (arith, h) in rw digit refl

-- With its sign, the text is read as the sign and the same number, unless it is the text of zero.
read-signed :
    (b : Bool) (t : String)
    → starts_with_digit t ≡ true
    → (b ≡ true → 0 < (read_whole 0 t).0)
    → read (signed b t) ≡ (b, read_whole 0 t)
unfolding signed
read-signed false t h k = read-unsigned t h
read-signed true t h k = elim (beq-cases t "0") [
  | inl (e, p) ↦
      let z : (read_whole 0 t).0 ≡ 0 = ap (λ x. (read_whole 0 x).0) p in
      absurd (omega (arith, z, k refl))
  | inr (e, _) ↦
      rw e (ap read (cons-append "-" String.[] t ∙ ap (λ x. String.◌∷◌ "-" x) (nil-append t)))
]

value_positive : (s : String) (n : ℕ) → value 0 s ≡ suc n → 0 < count_chars s
value_positive String.[] n h = absurd (omega (arith, h))
value_positive (String.◌∷◌ c s) n h = omega arith

decimal_positive : (n : ℕ) → 0 < count_chars (decimal n)
unfolding decimal
decimal_positive zero = omega arith
decimal_positive (suc n) = value_positive (decimal (suc n)) n (decimal-value (suc n)).1

power_positive : (n : ℕ) → 0 < 10 ^ n
power_positive n = omega (arith, one-le-pow n 10 (omega arith))

cancel : (a b m : ℕ) → a * 10 ^ m ≡ b * 10 ^ m → a ≡ b
cancel a b m h =
    sym (mul-div_cancel a (power_positive m))
    ∙ (ap (λ z. z / 10 ^ m) h ∙ mul-div_cancel b (power_positive m))

-- The decimals that were cut off do not matter.
shorter :
    (v d den num k m n : ℕ)
    → v * 10 ^ m ≡ d
    → k + m ≡ n
    → d * den ≡ num * 10 ^ n
    → v * den ≡ num * 10 ^ k
shorter v d den num k m n a b h =
    let less : n - m ≡ k = omega (arith, b) in
    let split : 10 ^ n ≡ 10 ^ k * 10 ^ m =
      sym (pow_less 10 m n (omega (arith, b))) ∙ ap (λ z. 10 ^ z * 10 ^ m) less in
    cancel (v * den) (num * 10 ^ k) m (
      mul_assoc v den (10 ^ m)
      ∙ (ap (λ z. v * z) (mul_comm den (10 ^ m))
          ∙ (sym (mul_assoc v (10 ^ m) den)
              ∙ (ap (λ z. z * den) a
                  ∙ (h ∙ (ap (λ z. num * z) split ∙ sym (mul_assoc num (10 ^ k) (10 ^ m))))))))

nonzero : (v den num k : ℕ) → v * den ≡ num * 10 ^ k → 0 < num → 0 < v
nonzero zero den num k h l = absurd (omega (arith, h, mul-pos l (power_positive k)))
nonzero (suc v) den num k h l = omega arith

-- A number that is accepted is written exactly: its text, read as a decimal number with a sign, has the
-- sign of the number, and its digits over the power of ten of its decimals are the numerator over the
-- denominator, where the denominator is not 0 and only a number that is not 0 is negative.
pub number_of-exact :
    (r : Rat) (s : String)
    → 0 < r.den
    → (r.negative ≡ true → 0 < r.num)
    → number_of r ≡ inr s
    → ((read s).0 ≡ r.negative) × ((read s).1.0 * r.den ≡ r.num * 10 ^ (read s).1.1)
number_of-exact r s h l e =
    let (digits, text, exact) = number_of-digits r s h e in
    let (a, b) = decimal-value digits in
    let t = unsigned (decimals r) (decimal digits) in
    let (first, (m, c, d)) =
      unsigned-ReadsAs (decimals r) (decimal digits) a (decimal_positive digits) in
    let value_of =
      shorter (read_whole 0 t).0 digits r.den r.num (read_whole 0 t).1 m (decimals r) (c ∙ b) d
        exact in
    let p =
      ap read (text ∙ written-eq r.negative (decimals r) (decimal digits))
      ∙ read-signed r.negative t first
          (λ n. nonzero (read_whole 0 t).0 r.den r.num (read_whole 0 t).1 value_of (l n)) in
    (ap (λ x. x.0) p, ap (λ x. x.1.0 * r.den) p ∙ (value_of ∙ ap (λ x. r.num * 10 ^ x.1.1) (sym p)))
