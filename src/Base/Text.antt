-- ===== src/Base/Text.antt =====
-- Texts by their characters: `strings.ToLower`, `strings.EqualFold`, prefixes and digits.
use Prim.Native.Nat.{ℕ, zero, suc, ◌-◌, ◌+◌}
use Prim.Native.Char.{Char, code}
use Prim.Native.String.{String}
use mathlib.Core.Bool.{Bool, true, false, ◌&&◌, ◌||◌}
use mathlib.Core.Option.{Option, none, some}
use mathlib.Core.List.{List, [], ◌∷◌}
use piace.Base.Tests.{leb, nat_eq, if◌then◌else◌}

abbrev pub codes : String → List ℕ
codes String.[] = []
codes (String.◌∷◌ c s) = code c ∷ codes s

abbrev letters : String
letters = "abcdefghijklmnopqrstuvwxyz"

letter_or : Char → String → ℕ → Char
letter_or c String.[] n = c
letter_or c (String.◌∷◌ d s) zero = d
letter_or c (String.◌∷◌ d s) (suc n) = letter_or c s n

-- ASCII letters only: the texts that the program lowers and then compares or accepts are ASCII,
-- and no other character becomes one of the letters in question.
unfoldable pub to_lower : String → String
unfolding letter_or
to_lower String.[] = String.[]
to_lower (String.◌∷◌ c s) =
    String.◌∷◌
      (if leb b'A' (code c) && leb (code c) b'Z' then letter_or c letters (code c - b'A') else c)
      (to_lower s)

-- Simple case folding to ASCII: besides the capitals, the long s and the Kelvin sign.
fold : ℕ → ℕ
fold c =
    if leb b'A' c && leb c b'Z'
    then c + 32
    else if nat_eq c 0x17f
    then b's'
    else if nat_eq c 0x212a
    then b'k'
    else c

same_codes : List ℕ → List ℕ → Bool
same_codes [] [] = true
same_codes (a ∷ as') (b ∷ bs) = nat_eq (fold a) (fold b) && same_codes as' bs
same_codes _ _ = false

-- `strings.EqualFold` with an ASCII text.
unfoldable pub equal_fold : String → String → Bool
unfolding same_codes fold
equal_fold s t = same_codes (codes s) (codes t)

is_hex_code : ℕ → Bool
is_hex_code c = leb b'0' c && leb c b'9' || leb b'a' c && leb c b'f' || leb b'A' c && leb c b'F'

all_hex : List ℕ → Bool
all_hex [] = true
all_hex (c ∷ cs) = is_hex_code c && all_hex cs

-- `hex.DecodeString` succeeds on a text of even length.
unfoldable pub is_hex : String → Bool
unfolding all_hex is_hex_code
is_hex s = all_hex (codes s)

-- The parts before and behind the first `}`; `none` without one.
split_brace : String → Option (String × String)
split_brace String.[] = none
split_brace (String.◌∷◌ c s) =
    let rest = split_brace s in
    if nat_eq (code c) b'}'
    then some (String.[], s)
    else elim rest [ none ↦ none | some (before, after) ↦ some (String.◌∷◌ c before, after) ]

-- `{algorithm}rest`: what stands in the braces, and the rest; `none` where the text opens no brace.
unfoldable pub braced : String → Option (Option (String × String))
unfolding split_brace
braced String.[] = none
braced (String.◌∷◌ c s) = if nat_eq (code c) b'{' then some (split_brace s) else none

-- `unicode.IsSpace`.
unfoldable pub is_space : Char → Bool
is_space c =
    (leb 0x09 (code c) && leb (code c) 0x0d)
    || (nat_eq (code c) 0x20
        || (nat_eq (code c) 0x85
            || (nat_eq (code c) 0xa0
                || (nat_eq (code c) 0x1680
                    || ((leb 0x2000 (code c) && leb (code c) 0x200a)
                        || (nat_eq (code c) 0x2028
                            || (nat_eq (code c) 0x2029
                                || (nat_eq (code c) 0x202f
                                    || (nat_eq (code c) 0x205f || nat_eq (code c) 0x3000)))))))))

-- Whether the first character that is no space has the code.
unfoldable pub opens_with : ℕ → String → Bool
unfolding is_space
opens_with n String.[] = false
opens_with n (String.◌∷◌ c s) = if is_space c then opens_with n s else nat_eq (code c) n

-- Whether the first character that is no space is `[`.
unfoldable pub opens_array : String → Bool
unfolding opens_with
opens_array s = opens_with 0x5b s

trim_left : String → String
unfolding is_space
trim_left String.[] = String.[]
trim_left (String.◌∷◌ c s) = if is_space c then trim_left s else String.◌∷◌ c s

is_blank : String → Bool
is_blank String.[] = true
is_blank (String.◌∷◌ c s) = false

trim_right : String → String
unfolding is_space is_blank
trim_right String.[] = String.[]
trim_right (String.◌∷◌ c s) =
    let rest = trim_right s in if is_space c && is_blank rest then String.[] else String.◌∷◌ c rest

-- `bytes.TrimSpace` on valid UTF-8.
unfoldable pub trim_space : String → String
unfolding trim_left trim_right
trim_space s = trim_right (trim_left s)
