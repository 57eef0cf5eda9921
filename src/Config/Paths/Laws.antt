-- ===== src/Config/Paths/Laws.antt =====
-- Certnames in file paths (internal/config/resolve/validate.go).
use Prim.Native.Char.{Char, code}
use text.Mathlib.TextLemmas.{nil-append, cons-append}
use Prim.Native.String.{◌++◌ as ◌<>◌}
use piace.Base.{
  ℕ, suc, String, Bool, true, false, ◌||◌, not, Option, none, some, List, [], ◌∷◌, ◌==◌, string_eq,
  if◌then◌else◌, nat_eq, length, All, ◌≡◌, refl, ap, arith, inl, inr, Bool-cases, subst,
}
use piace.Base.Split.{
  has_code, has_prefix, cut_prefix, trim_prefix, contains_text, split, push, or_whole,
}
use piace.Config.Paths.{validate_certname, certname_token, expand_segment, expand_all, with_segment}

-- Nothing in the text separates path components.
abbrev pub IsComponent : String → Type 0
IsComponent s = has_code b'/' s ≡ false

has_code-append : (n : ℕ) (s t : String) → has_code n (s <> t) ≡ (has_code n s || has_code n t)
unfolding has_code
has_code-append n String.[] t = ap (has_code n) (nil-append t)
has_code-append n (String.◌∷◌ c s) t =
    ground (arith, ap (has_code n) (cons-append c s t), has_code-append n s t)

cut_prefix-IsComponent :
    (p s rest : String) → IsComponent s → cut_prefix p s ≡ some rest → IsComponent rest
unfolding cut_prefix has_code
cut_prefix-IsComponent String.[] s rest h = λ e. same e
  where
    same : some s ≡ some rest → IsComponent rest
    same p = subst IsComponent (sure p) h
      where
        sure : some s ≡ some rest → s ≡ rest
        sure q = cc
cut_prefix-IsComponent (String.◌∷◌ c p) String.[] rest h = λ e. absurd (cc)
cut_prefix-IsComponent (String.◌∷◌ c p) (String.◌∷◌ d s) rest h =
    elim (Bool-cases (nat_eq (code c) (code d))) [
      | inl k ↦ rw k (cut_prefix-IsComponent p s rest (ground (arith, h)))
      | inr k ↦ rw k (λ e. absurd (cc))
    ]

or_whole-IsComponent :
    (p s : String) (o : Option String)
    → cut_prefix p s ≡ o
    → IsComponent s
    → IsComponent (or_whole s o)
unfolding or_whole
or_whole-IsComponent p s none e h = h
or_whole-IsComponent p s (some rest) e h = cut_prefix-IsComponent p s rest h e

trim_prefix-IsComponent : (p s : String) → IsComponent s → IsComponent (trim_prefix p s)
unfolding trim_prefix
trim_prefix-IsComponent p s h = or_whole-IsComponent p s (cut_prefix p s) refl h

abbrev Within : Option String → Type 0
Within none = Unit
Within (some s) = IsComponent s

if-Within : (b : Bool) (x y : Option String) → Within x → Within y → Within (if b then x else y)
if-Within true x y h k = h
if-Within false x y h k = k

expand_segment-Within :
    (certname seg : String)
    → IsComponent certname
    → IsComponent seg
    → Within (expand_segment certname seg)
unfolding expand_segment
expand_segment-Within certname seg h k =
    let rest = trim_prefix certname_token seg in
    let both : IsComponent (certname <> rest) = ground (
      arith,
      has_code-append b'/' certname rest,
      h,
      trim_prefix-IsComponent certname_token seg k,
    ) in
    if-Within (not (contains_text certname_token seg)) (some seg) _ k (
      if-Within (seg == certname_token) (some certname) _ h (
        if-Within (rest == seg || (not (has_prefix "." rest) || contains_text certname_token rest))
          none (some (certname <> rest)) tt both))

validate_certname-IsComponent : (c : String) → validate_certname c ≡ none → IsComponent c
unfolding validate_certname
validate_certname-IsComponent c = elim (Bool-cases (c == "")) [
  | inl e ↦ rw e (λ h. absurd (cc))
  | inr e ↦ rw e (elim (Bool-cases (has_code 0 c)) [
    | inl k ↦ rw k (λ h. absurd (cc))
    | inr k ↦ rw k (elim (Bool-cases (has_code b'/' c || has_code 0x5c c)) [
      | inl l ↦ rw l (λ h. absurd (cc))
      | inr l ↦ λ h. ground (arith, l)
    ])
  ])
]

-- As many components as the text had, none of which holds a separator.
abbrev pub AreComponents : ℕ → Option (List String) → Type 0
AreComponents n none = Unit
AreComponents n (some parts) = (length parts ≡ n) × All IsComponent parts

with_segment-AreComponents :
    (n : ℕ) (s : Option String) (parts : Option (List String))
    → Within s
    → AreComponents n parts
    → AreComponents (suc n) (with_segment s parts)
unfolding with_segment
with_segment-AreComponents n none parts h k = tt
with_segment-AreComponents n (some s) none h k = tt
with_segment-AreComponents n (some s) (some parts) h (l, k) = (omega (arith, l), (h, k))

expand_all-AreComponents :
    (certname : String) (segs : List String)
    → IsComponent certname
    → All IsComponent segs
    → AreComponents (length segs) (expand_all certname segs)
unfolding expand_all
expand_all-AreComponents certname [] h k = (refl, tt)
expand_all-AreComponents certname (seg ∷ segs) h (k, ks) =
    with_segment-AreComponents (length segs) (expand_segment certname seg)
      (expand_all certname segs) (expand_segment-Within certname seg h k)
      (expand_all-AreComponents certname segs h ks)

push-All :
    (c : Char) (parts : List String)
    → nat_eq (code c) b'/' ≡ false
    → All IsComponent parts
    → All IsComponent (push c parts)
unfolding push has_code
push-All c [] e h = tt
push-All c (s ∷ parts) e (h, hs) = (ground (arith, e, h), hs)

split-All : (s : String) → All IsComponent (split b'/' s)
unfolding split has_code
split-All String.[] = (refl, tt)
split-All (String.◌∷◌ c s) = elim (Bool-cases (nat_eq (code c) b'/')) [
  | inl e ↦ rw e (refl, split-All s)
  | inr e ↦ rw e (push-All c (split b'/' s) e (split-All s))
]

-- A valid certname adds no component to the path of a file: where its template expands, each component
-- of the template gives one component, and none of them holds a separator.
pub expand_all-keeps_components :
    (certname raw : String)
    → validate_certname certname ≡ none
    → AreComponents (length (split b'/' raw)) (expand_all certname (split b'/' raw))
expand_all-keeps_components certname raw h =
    expand_all-AreComponents certname (split b'/' raw) (validate_certname-IsComponent certname h)
      (split-All raw)
