-- ===== src/Base/Order.antt =====
-- Go's `<` on strings as an interface: a Boolean total order, for texts and what is built of them.
-- Go compares bytes; on valid UTF-8 that is the order of the code points, which is used here.
use Prim.Native.Char.{code}
use Prim.Native.String.{String}
use mathlib.Core.Path.{◌≡◌, refl, ap₂}
use mathlib.Core.Bool.{Bool, true, false, ◌&&◌, ◌||◌, not}
use native.Mathlib.Omega.{arith}
use text.Mathlib.TextEquality.{Char-path}
use piace.Base.Tests.{ltb, nat_eq}

pub record Ord {ℓ} (A : Type ℓ) : Type ℓ where
  pub le : A → A → Bool
  pub le_total : (a b : A) → le a b ≡ false → le b a ≡ true
  pub le_trans : (a b c : A) → le a b ≡ true → le b c ≡ true → le a c ≡ true
  pub le_antisymm : (a b : A) → le a b ≡ true → le b a ≡ true → a ≡ b

-- `s <= t` on strings.
unfoldable pub str_le : String → String → Bool
str_le String.[] t = true
str_le (String.◌∷◌ c s) String.[] = false
str_le (String.◌∷◌ c s) (String.◌∷◌ d t) =
    ltb (code c) (code d) || (nat_eq (code c) (code d) && str_le s t)

pub str_le_total : (s t : String) → str_le s t ≡ false → str_le t s ≡ true
unfolding str_le
str_le_total String.[] t h = ground arith
str_le_total (String.◌∷◌ c s) String.[] h = refl
str_le_total (String.◌∷◌ c s) (String.◌∷◌ d t) h = ground (arith, str_le_total s t)

pub str_le_trans : (s t u : String) → str_le s t ≡ true → str_le t u ≡ true → str_le s u ≡ true
unfolding str_le
str_le_trans String.[] t u h k = refl
str_le_trans (String.◌∷◌ c s) String.[] u h k = ground arith
str_le_trans (String.◌∷◌ c s) (String.◌∷◌ d t) String.[] h k = ground arith
str_le_trans (String.◌∷◌ c s) (String.◌∷◌ d t) (String.◌∷◌ e u) h k =
    ground (arith, str_le_trans s t u)

pub str_le_antisymm : (s t : String) → str_le s t ≡ true → str_le t s ≡ true → s ≡ t
unfolding str_le
str_le_antisymm String.[] String.[] h k = refl
str_le_antisymm String.[] (String.◌∷◌ d t) h k = ground arith
str_le_antisymm (String.◌∷◌ c s) String.[] h k = ground arith
str_le_antisymm (String.◌∷◌ c s) (String.◌∷◌ d t) h k =
    ap₂ String.◌∷◌ (Char-path c d (ground arith))
      (str_le_antisymm s t (ground arith) (ground arith))

instance abbrev pub string_ord : Ord String
string_ord = record {
  le = str_le;
  le_total = str_le_total;
  le_trans = str_le_trans;
  le_antisymm = str_le_antisymm;
}

-- `s < t` on strings.
abbrev pub str_lt : String → String → Bool
str_lt s t = not (str_le t s)

pub str_le_refl : (s : String) → str_le s s ≡ true
str_le_refl s = ground (arith, str_le_total s s)
