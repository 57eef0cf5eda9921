-- ===== src/Impact/Pql/Laws.antt =====
-- Reading a quoted text back.
use Prim.Native.Char.{Char, code}
use text.Mathlib.TextEquality.{Char-path}
use piace.Base.{
  String, Bool, true, false, Option, none, some, ltb, nat_eq, nat_eq_iff, if◌then◌else◌, ◌≡◌, refl,
  Option-cases, inl, inr, ap, sym, subst, ◌∙◌, arith,
}
use piace.Impact.Pql.{write, write_char, write_all, quote_pql_string}

-- The character that stands behind a backslash, as PuppetDB documents the escapes.
pub unescape : Char → Char
unescape c =
    if nat_eq (code c) b'n'
    then "\n"
    else if nat_eq (code c) b'r'
    then "\r"
    else if nat_eq (code c) b't'
    then "\t"
    else c

pub in_front : Char → Option (String × String) → Option (String × String)
in_front c none = none
in_front c (some (s, rest)) = some (String.◌∷◌ c s, rest)

-- A literal behind its opening quote: its text, and what follows the closing quote.
abbrev pub read_body : Bool → String → Option (String × String)
read_body escaped String.[] = none
read_body true (String.◌∷◌ c s) = in_front (unescape c) (read_body false s)
read_body false (String.◌∷◌ c s) =
    let plain = in_front c (read_body false s) in
    let escape = read_body true s in
    if nat_eq (code c) 0x22
    then some (String.[], s)
    else if nat_eq (code c) 0x5c
    then escape
    else plain

abbrev pub read_literal : String → Option (String × String)
read_literal String.[] = none
read_literal (String.◌∷◌ c s) = if nat_eq (code c) 0x22 then read_body false s else none

some_injective : {A : Type 0} (a b : A) → some a ≡ some b → a ≡ b
some_injective a b h = cc

Reads : String → String → Type 0
Reads q s = read_body false q ≡ some (s, String.[])

read-escaped :
    (c d : Char) (r q s : String)
    → unescape d ≡ c
    → Reads r s
    → write true d (some r) ≡ some q
    → Reads q (String.◌∷◌ c s)
unfolding Reads write in_front
read-escaped c d r q s same back h =
    subst (λ t. Reads t (String.◌∷◌ c s)) (some_injective _ q h) (rw (back, same) refl)

read-plain :
    (c : Char) (r q s : String)
    → nat_eq (code c) 0x22 ≡ false
    → nat_eq (code c) 0x5c ≡ false
    → Reads r s
    → write false c (some r) ≡ some q
    → Reads q (String.◌∷◌ c s)
unfolding Reads write in_front
read-plain c r q s quote slash back h =
    subst (λ t. Reads t (String.◌∷◌ c s)) (some_injective _ q h) (rw (quote, slash, back) refl)

char-at : (c d : Char) → nat_eq (code c) (code d) ≡ true → d ≡ c
char-at c d h = sym (Char-path c d ((nat_eq_iff (code c) (code d)).0 h))

module _ (c : Char) (r q s : String) (back : Reads r s) where
  -- A chain of tests: the first that holds, or none of them.
  tests :
      (b : Bool) (x y : Option String)
      → (b ≡ true → x ≡ some q → Reads q (String.◌∷◌ c s))
      → (b ≡ false → y ≡ some q → Reads q (String.◌∷◌ c s))
      → (if b then x else y) ≡ some q
      → Reads q (String.◌∷◌ c s)
  tests true x y first later h = first refl h
  tests false x y first later h = later refl h

  read-write_char : write_char c (some r) ≡ some q → Reads q (String.◌∷◌ c s)
  unfolding write_char unescape
  read-write_char =
      tests (nat_eq (code c) 0x5c) _ _
        (λ e. read-escaped c c r q s (ap unescape (sym (char-at c "\\" e)) ∙ char-at c "\\" e) back)
        (λ slash.
          tests (nat_eq (code c) 0x22) _ _
            (λ e.
              read-escaped c c r q s (ap unescape (sym (char-at c "\"" e)) ∙ char-at c "\"" e) back)
            (λ quote.
              tests (nat_eq (code c) 0x0a) _ _
                (λ e. read-escaped c "n" r q s (char-at c "\n" e) back)
                (λ _.
                  tests (nat_eq (code c) 0x0d) _ _
                    (λ e. read-escaped c "r" r q s (char-at c "\r" e) back)
                    (λ _.
                      tests (nat_eq (code c) 0x09) _ _
                        (λ e. read-escaped c "t" r q s (char-at c "\t" e) back)
                        (λ _.
                          tests (ltb (code c) 0x20) _ _ (λ _ h. absurd cc)
                            (λ _. read-plain c r q s quote slash back))))))

write_char-none : (c : Char) (q : String) → write_char c none ≡ some q → ⊥
unfolding write_char write
write_char-none c q h = ground (arith, h)

read-write_all : (s q : String) → write_all s ≡ some q → Reads q s
unfolding write_all Reads
read-write_all String.[] q h = subst (λ t. Reads t String.[]) (some_injective "\"" q h) refl
read-write_all (String.◌∷◌ c s) q h = elim (Option-cases (write_all s)) [
  | inl e ↦ absurd (write_char-none c q (sym (ap (write_char c) e) ∙ h))
  | inr (r, e) ↦ read-write_char c r q s (read-write_all s r e) (sym (ap (write_char c) e) ∙ h)
]

read-quoted :
    (o : Option String) (q s : String)
    → ((r : String) → o ≡ some r → Reads r s)
    → write false "\"" o ≡ some q
    → read_literal q ≡ some (s, String.[])
unfolding write Reads
read-quoted none q s back h = absurd cc
read-quoted (some r) q s back h =
    subst (λ t. read_literal t ≡ some (s, String.[])) (some_injective _ q h) (back r refl)

-- A text that the encoder accepts is read back as it was, with nothing left behind the literal, by
-- a reader of the documented escapes.
pub read_literal-quote_pql_string :
    (s q : String) → quote_pql_string s ≡ some q → read_literal q ≡ some (s, String.[])
unfolding quote_pql_string
read_literal-quote_pql_string s q = read-quoted (write_all s) q s (read-write_all s)
