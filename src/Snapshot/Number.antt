-- ===== src/Snapshot/Number.antt =====
-- internal/snapshot/canonical.go: canonical decimal numbers. `big.Rat.SetString` is an argument; it
-- gives the sign, the numerator and the denominator in lowest terms, which is not 0.
pub mod Laws
pub mod Reading
pub mod Exact
use Prim.Native.Char.{Char, code}
use Prim.Native.String
use Prim.Native.String.{◌++◌ as ◌<>◌, len}
use piace.Base.{
  ℕ, zero, suc, ◌+◌, ◌-◌, ◌*◌, ◌/◌, ◌%◌, ◌^◌, String, Bool, true, false, ◌&&◌, ◌||◌, not, Option,
  none, some, ◌==◌, string_eq, if◌then◌else◌, ltb, leb, nat_eq, max, ◌⊎◌, inl, inr,
}
use piace.Base.Decimal.{decimal}
use piace.Base.Split.{trim_prefix}
use piace.Normalize.Values.{ValueError, numeric_budget, invalid}

pub record Rat : Type 0 where
  pub negative : Bool
  pub num : ℕ
  pub den : ℕ

abbrev pub number_digits : ℕ
number_digits = 1024

abbrev pub number_exponent : ℕ
number_exponent = 1024

-- The text in front of the first `e` or `E`, and the text behind it, empty without one.
unfoldable pub exponent_of : String → String
exponent_of String.[] = String.[]
exponent_of (String.◌∷◌ c s) =
    if nat_eq (code c) b'e' || nat_eq (code c) b'E' then s else exponent_of s

is_digit : Char → Bool
is_digit c = leb b'0' (code c) && leb (code c) b'9'

-- The digits of the mantissa.
unfoldable pub count_digits : String → ℕ
unfolding is_digit
count_digits String.[] = 0
count_digits (String.◌∷◌ c s) =
    let rest = count_digits s in
    if nat_eq (code c) b'e' || nat_eq (code c) b'E'
    then 0
    else if is_digit c
    then suc rest
    else rest

unfoldable pub trim_zeros : String → String
trim_zeros String.[] = String.[]
trim_zeros (String.◌∷◌ c s) = if nat_eq (code c) b'0' then trim_zeros s else String.◌∷◌ c s

-- `strconv.Atoi` of a text without a minus sign.
unfoldable pub atoi_from : ℕ → String → Option ℕ
unfolding is_digit
atoi_from n String.[] = some n
atoi_from n (String.◌∷◌ c s) = if is_digit c then atoi_from (n * 10 + (code c - b'0')) s else none

unfoldable pub atoi : String → Option ℕ
unfolding atoi_from
atoi s = if s == "" then none else atoi_from 0 s

unfoldable pub exceeds : Option ℕ → Bool
exceeds none = false
exceeds (some n) = ltb number_exponent n

-- `checkNumericShape`: whether the token is within the budget.
unfoldable pub is_within_budget : String → Bool
unfolding count_digits exponent_of trim_prefix trim_zeros atoi exceeds
is_within_budget s =
    let exponent = exponent_of s in
    let bare = trim_zeros (trim_prefix "-" (trim_prefix "+" exponent)) in
    if ltb number_digits (count_digits s)
    then false
    else if exponent == ""
    then true
    else if ltb 10 (len bare)
    then false
    else not (exceeds (atoi (trim_prefix "+" bare)))

-- The loop that divides a base out of the denominator: how often, and what remains.
unfoldable pub divide_out : ℕ → ℕ → ℕ → ℕ × ℕ
divide_out b zero den = (0, den)
divide_out b (suc fuel) den =
    let rest = divide_out b fuel (den / b) in
    if nat_eq (den % b) 0 then (suc rest.0, rest.1) else (0, den)

unfoldable pub zeros : ℕ → String
zeros zero = ""
zeros (suc n) = String.◌∷◌ "0" (zeros n)

-- The digits with zeros in front, until there is one in front of the fraction.
unfoldable pub padded : ℕ → String → String
unfolding zeros
padded n digits = if leb (len digits) n then zeros (suc n - len digits) <> digits else digits

unfoldable pub split_at : ℕ → String → String × String
split_at n String.[] = (String.[], String.[])
split_at zero (String.◌∷◌ c s) = (String.[], String.◌∷◌ c s)
split_at (suc n) (String.◌∷◌ c s) = let rest = split_at n s in (String.◌∷◌ c rest.0, rest.1)

unfoldable pub trim_trailing_zeros : String → String
trim_trailing_zeros String.[] = String.[]
trim_trailing_zeros (String.◌∷◌ c s) =
    let rest = trim_trailing_zeros s in
    if nat_eq (code c) b'0' && rest == "" then String.[] else String.◌∷◌ c rest

unfoldable pub signed : Bool → String → String
signed negative digits = if negative && not (digits == "0") then "-" <> digits else digits

unfoldable pub with_fraction : String → String → String
with_fraction whole fraction = if fraction == "" then whole else whole <> ("." <> fraction)

-- The digits of a number with `n` decimals.
unfoldable pub written : Bool → ℕ → String → String
unfolding signed with_fraction split_at trim_trailing_zeros padded
written negative n digits =
    let long = padded n digits in
    let parts = split_at (len long - n) long in
    if nat_eq n 0
    then signed negative digits
    else signed negative (with_fraction parts.0 (trim_trailing_zeros parts.1))

-- The numerator of the number with `n` decimals.
unfoldable pub scaled : ℕ → ℕ → ℕ → ℕ → ℕ
scaled num n p q = num * (2 ^ (n - p) * 5 ^ (n - q))

-- Each division halves the denominator at least, so it is fuel enough.
unfoldable pub number_of : Rat → ValueError ⊎ String
unfolding divide_out written scaled
number_of r =
    let twos = divide_out 2 r.den r.den in
    let fives = divide_out 5 twos.1 twos.1 in
    let n = max twos.0 fives.0 in
    if not (nat_eq fives.1 1)
    then inl invalid
    else inr (written r.negative n (decimal (scaled r.num n twos.0 fives.0)))

unfoldable pub number_or_invalid : Option Rat → ValueError ⊎ String
unfolding number_of
number_or_invalid none = inl invalid
number_or_invalid (some r) = number_of r

-- `CanonicalNumberString`.
unfoldable pub canonical_number : (String → Option Rat) → String → ValueError ⊎ String
unfolding number_or_invalid is_within_budget
canonical_number set_string s =
    if is_within_budget s then number_or_invalid (set_string s) else inl numeric_budget
