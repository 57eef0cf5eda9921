-- ===== src/Normalize/Reference/Laws.antt =====
-- Reading back the references that internal/model/catalog.go writes.
use Prim.Native.Char.{Char, code}
use text.Mathlib.TextLemmas.{nil-append, cons-append, append_assoc}
use Prim.Native.String.{◌++◌ as ◌<>◌}
use piace.Base.{
  String, Bool, true, false, Option, none, some, ◌==◌, string_eq, if◌then◌else◌, nat_eq, ◌≡◌, refl,
  ap, ◌∙◌, arith,
}
use piace.Base.Split.{has_code}
use piace.Model.Catalog.{ResourceIdentity, to_string}
use piace.Normalize.Reference.{
  before_bracket, at_bracket, named_parts, split_parts, parse_reference, cons_title, cons_type,
}

before_bracket-cons :
    (c : Char) (s t : String)
    → before_bracket s ≡ some t
    → before_bracket (String.◌∷◌ c s) ≡ some (String.◌∷◌ c t)
unfolding before_bracket cons_title
before_bracket-cons c String.[] t h = absurd (cc)
before_bracket-cons c (String.◌∷◌ d s) t h = rw h refl

before_bracket-append : (title : String) → before_bracket (title <> "]") ≡ some title
unfolding before_bracket
before_bracket-append String.[] = refl
before_bracket-append (String.◌∷◌ c s) =
    ap before_bracket (cons-append c s "]")
    ∙ before_bracket-cons c (s <> "]") s (before_bracket-append s)

consed :
    (a b : Bool) (c : Char) (s rest : String)
    → a ≡ false
    → b ≡ false
    → (o : Option (String × String)) → o ≡ some (s, rest)
    → (if a
        then some (String.[], s <> (String.◌∷◌ "[" rest))
        else if b
        then none
        else cons_type c o)
      ≡ some (String.◌∷◌ c s, rest)
unfolding cons_type
consed true b c s rest h k o e = absurd (cc)
consed false true c s rest h k o e = absurd (cc)
consed false false c s rest h k o e = rw e refl

at_bracket-append :
    (type rest : String)
    → has_code b'[' type ≡ false
    → has_code b']' type ≡ false
    → at_bracket (type <> (String.◌∷◌ "[" rest)) ≡ some (type, rest)
unfolding at_bracket has_code
at_bracket-append String.[] rest h k = ap at_bracket (nil-append (String.◌∷◌ "[" rest))
at_bracket-append (String.◌∷◌ c s) rest h k =
    ap at_bracket (cons-append c s (String.◌∷◌ "[" rest))
    ∙ consed (nat_eq (code c) b'[') (nat_eq (code c) b']') c s rest (ground (arith, h))
        (ground (arith, k)) (at_bracket (s <> (String.◌∷◌ "[" rest)))
        (at_bracket-append s rest (ground (arith, h)) (ground (arith, k)))

ends_with_bracket :
    (type title : String)
    → (type <> "[") <> (title <> "]") ≡ type <> (String.◌∷◌ "[" (title <> "]"))
ends_with_bracket type title = append_assoc type "[" (title <> "]") ∙ ap (λ t. type <> t) tail
  where
    tail : ("[" <> (title <> "]")) ≡ String.◌∷◌ "[" (title <> "]")
    tail =
        cons-append "[" String.[] (title <> "]")
        ∙ ap (λ t. String.◌∷◌ "[" t) (nil-append (title <> "]"))

-- A reference that the program writes is read back as the resource it names, where neither part is
-- empty and no bracket stands in the type; the title may hold brackets.
pub parse_reference-to_string :
    (r : ResourceIdentity)
    → has_code b'[' r.type ≡ false
    → has_code b']' r.type ≡ false
    → (r.type == "") ≡ false
    → (r.title == "") ≡ false
    → parse_reference (to_string r) ≡ some r
unfolding parse_reference to_string split_parts named_parts
parse_reference-to_string r h k t u =
    ap (λ s. split_parts (at_bracket s)) (ends_with_bracket r.type r.title)
    ∙ (rw (at_bracket-append r.type (r.title <> "]") h k, before_bracket-append r.title, t, u) refl)
