-- ===== src/Model/Pcore/Laws.antt =====
-- Escaping of slashes, and the projection of values without rich data.
use Prim.Native.Char.{code}
use Prim.Native.Nat.{ℕ, suc, ◌%◌}
use piace.Base.{
  String, true, false, ◌&&◌, ◌≡◌, refl, nat_eq, if◌then◌else◌, arith, Bool-cases, inl, inr,
  ||-eq-false, is_some, Option, none, some, false≢true, sym,
}
use piace.Model.Value.{Value, null, bool, str, num, arr, obj, Items, nil, cons, Fields, end, field}
use piace.Model.Pcore.{
  escape_from, escape_regexp_slashes, contains_rich, any_item_rich, any_field_rich, rich_type_name,
  projected, project, project_items, project_fields, ◌>>=◌, rich_or,
}

-- No slash of the text stands behind an even number of backslashes, `backslashes` of which stand
-- before the text.
abbrev pub AllSlashesEscaped : ℕ → String → Type 0
AllSlashesEscaped n String.[] = Unit
AllSlashesEscaped n (String.◌∷◌ c s) =
    ((nat_eq (code c) b'/' && nat_eq (n % 2) 0) ≡ false)
    × AllSlashesEscaped (if nat_eq (code c) 0x5c then suc n else 0) s

slash_facts :
    (k n : ℕ)
    → (nat_eq k b'/' && nat_eq (n % 2) 0) ≡ true
    → (nat_eq k 0x5c ≡ false) × ((nat_eq k b'/' && nat_eq (suc n % 2) 0) ≡ false)
slash_facts k n h = (ground arith, ground arith)

escape_from_escaped : (n : ℕ) (s : String) → AllSlashesEscaped n (escape_from n s)
unfolding escape_from
escape_from_escaped n String.[] = tt
escape_from_escaped n (String.◌∷◌ c s) =
    elim (Bool-cases (nat_eq (code c) b'/' && nat_eq (n % 2) 0)) [
      | inl e ↦
          let (no_backslash, odd) = slash_facts (code c) n e in
          rw e (rw no_backslash (refl, (odd, escape_from_escaped 0 s)))
      | inr e ↦ rw e (e, escape_from_escaped (if nat_eq (code c) 0x5c then suc n else 0) s)
    ]

-- An escaped text is left as it is.
escape_of_escaped : (n : ℕ) (s : String) → AllSlashesEscaped n s → escape_from n s ≡ s
unfolding escape_from
escape_of_escaped n String.[] h = refl
escape_of_escaped n (String.◌∷◌ c s) (h, hs) =
    rw (h, escape_of_escaped (if nat_eq (code c) 0x5c then suc n else 0) s hs)

plain_map :
    (o : Option String) (v : Value) (m : Fields)
    → is_some o ≡ false
    → project_fields m ≡ projected m
    → rich_or o v (do fs ← project_fields m; projected (obj fs)) ≡ projected (obj m)
plain_map none v m h e = rw e
plain_map (some name) v m h e = absurd (false≢true (sym h))

mutual
  unfolding contains_rich project

  plain_project : (v : Value) → contains_rich v ≡ false → project v ≡ projected v
  plain_project (obj m) h =
      let (plain, rest) = ||-eq-false (is_some (rich_type_name m)) (any_field_rich m) h in
      plain_map (rich_type_name m) _ m plain (plain_fields m rest)
  plain_project (arr vs) h = rw (plain_items vs h)
  plain_project null h = refl
  plain_project (bool b) h = refl
  plain_project (str s) h = refl
  plain_project (num s) h = refl

  plain_items : (vs : Items) → any_item_rich vs ≡ false → project_items vs ≡ projected vs
  plain_items nil h = refl
  plain_items (cons v vs) h =
      let (first, rest) = ||-eq-false (contains_rich v) (any_item_rich vs) h in
      rw (plain_project v first, plain_items vs rest)

  plain_fields : (fs : Fields) → any_field_rich fs ≡ false → project_fields fs ≡ projected fs
  plain_fields end h = refl
  plain_fields (field k v fs) h =
      let (first, rest) = ||-eq-false (contains_rich v) (any_field_rich fs) h in
      rw (plain_project v first, plain_fields fs rest)

-- Escaping leaves no bare slash behind, so a pattern that is escaped again does not change.
pub escape_regexp_slashes_idem :
    (pattern : String)
    → AllSlashesEscaped 0 (escape_regexp_slashes pattern)
      × (escape_regexp_slashes (escape_regexp_slashes pattern) ≡ escape_regexp_slashes pattern)
unfolding escape_regexp_slashes
escape_regexp_slashes_idem pattern =
    let escaped = escape_from_escaped 0 pattern in
    (escaped, escape_of_escaped 0 (escape_from 0 pattern) escaped)

-- A value with no rich data at any depth is its own projection.
pub project_plain : (v : Value) → contains_rich v ≡ false → project v ≡ projected v
project_plain v h = plain_project v h
