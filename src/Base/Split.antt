-- ===== src/Base/Split.antt =====
-- `strings.Split`, `Join`, `Contains`, `HasPrefix` and `TrimPrefix` on texts.
use Prim.Native.Nat.{ℕ}
use Prim.Native.Char.{Char, code}
use Prim.Native.String.{String, ◌++◌ as ◌<>◌}
use mathlib.Core.Bool.{Bool, false, ◌||◌}
use mathlib.Core.Option.{Option, none, some}
use mathlib.Core.List.{List, [], ◌∷◌}
use piace.Base.Tests.{nat_eq, is_some, if◌then◌else◌}

-- Whether a character of the text has the code.
unfoldable pub has_code : ℕ → String → Bool
has_code n String.[] = false
has_code n (String.◌∷◌ c s) = nat_eq (code c) n || has_code n s

-- What follows the prefix.
unfoldable pub cut_prefix : String → String → Option String
cut_prefix String.[] s = some s
cut_prefix (String.◌∷◌ c p) String.[] = none
cut_prefix (String.◌∷◌ c p) (String.◌∷◌ d s) =
    let rest = cut_prefix p s in if nat_eq (code c) (code d) then rest else none

unfoldable pub has_prefix : String → String → Bool
unfolding cut_prefix
has_prefix p s = is_some (cut_prefix p s)

unfoldable pub or_whole : String → Option String → String
or_whole s none = s
or_whole s (some rest) = rest

unfoldable pub trim_prefix : String → String → String
unfolding or_whole cut_prefix
trim_prefix p s = or_whole s (cut_prefix p s)

unfoldable pub contains_text : String → String → Bool
unfolding has_prefix
contains_text t String.[] = has_prefix t String.[]
contains_text t (String.◌∷◌ c s) = has_prefix t (String.◌∷◌ c s) || contains_text t s

unfoldable pub push : Char → List String → List String
push c [] = []
push c (s ∷ parts) = String.◌∷◌ c s ∷ parts

-- The parts between the characters with the code.
unfoldable pub split : ℕ → String → List String
unfolding push
split n String.[] = String.[] ∷ []
split n (String.◌∷◌ c s) =
    let rest = split n s in if nat_eq (code c) n then String.[] ∷ rest else push c rest

unfoldable pub join : String → List String → String
join sep [] = ""
join sep (s ∷ []) = s
join sep (s ∷ t ∷ parts) = s <> (sep <> join sep (t ∷ parts))

cut_rest : Char → String × Option String → String × Option String
cut_rest c (before, after) = (String.◌∷◌ c before, after)

-- `strings.Cut` at the first character with the code: what stands before it, and what behind.
unfoldable pub cut : ℕ → String → String × Option String
unfolding cut_rest
cut n String.[] = (String.[], none)
cut n (String.◌∷◌ c s) =
    let rest = cut_rest c (cut n s) in if nat_eq (code c) n then (String.[], some s) else rest
