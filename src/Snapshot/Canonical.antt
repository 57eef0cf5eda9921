-- ===== src/Snapshot/Canonical.antt =====
-- internal/snapshot/canonical.go: canonical JSON of a decoded value. `json.Marshal` of a text and
-- `big.Rat.SetString` are arguments; an error is `none`.
use Prim.Native.String.{◌++◌ as ◌<>◌}
use piace.Base.{
  ℕ, suc, String, Bool, Option, none, some, List, [], ◌∷◌, if◌then◌else◌, ltb, ◌⊎◌, inl, inr,
}
use piace.Base.Order.{str_le}
use piace.Base.Sort.{sort}
use piace.Base.Split.{join}
use piace.Model.Value.{Value, null, bool, str, num, arr, obj, Items, nil, cons, Fields, end, field}
use piace.Normalize.Values.{ValueError}
use piace.Snapshot.Number.{Rat, canonical_number}

abbrev pub json_nesting_depth : ℕ
json_nesting_depth = 200

-- `json.Marshal` of a text, and `big.Rat.SetString`.
pub record Encoder : Type 0 where
  pub text : String → Option String
  pub set_string : String → Option Rat

unfoldable pub number_text : ValueError ⊎ String → Option String
number_text (inl e) = none
number_text (inr s) = some s

unfoldable pub bracketed : String → String → Option (List String) → Option String
unfolding join
bracketed left right none = none
bracketed left right (some parts) = some (left <> (join "," parts <> right))

unfoldable pub cons_text : Option String → Option (List String) → Option (List String)
cons_text none rest = none
cons_text (some t) none = none
cons_text (some t) (some rest) = some (t ∷ rest)

-- A key with its encoded entry.
abbrev pub Row : Type 0
Row = String × Option String

unfoldable pub entry_text : Option String → Option String → Option String
entry_text none value = none
entry_text (some key) none = none
entry_text (some key) (some value) = some (key <> (":" <> value))

unfoldable pub row_le : Row → Row → Bool
row_le a b = str_le a.0 b.0

unfoldable pub all_texts : List Row → Option (List String)
unfolding cons_text
all_texts [] = some []
all_texts ((key, entry) ∷ rows) = cons_text entry (all_texts rows)

unfoldable mutual
  unfolding number_text bracketed cons_text entry_text all_texts sort row_le canonical_number

  pub encode_canonical : Encoder → ℕ → Value → Option String
  encode_canonical e depth null = if ltb json_nesting_depth depth then none else some "null"
  encode_canonical e depth (bool b) =
      if ltb json_nesting_depth depth then none else some (if b then "true" else "false")
  encode_canonical e depth (num s) =
      if ltb json_nesting_depth depth then none else number_text (canonical_number e.set_string s)
  encode_canonical e depth (str s) = if ltb json_nesting_depth depth then none else e.text s
  encode_canonical e depth (arr vs) =
      let parts = encode_items e (suc depth) vs in
      if ltb json_nesting_depth depth then none else bracketed "[" "]" parts
  encode_canonical e depth (obj fs) =
      let rows = encode_fields e (suc depth) fs in
      if ltb json_nesting_depth depth
      then none
      else bracketed "{" "}" (all_texts (sort row_le rows))

  pub encode_items : Encoder → ℕ → Items → Option (List String)
  encode_items e depth nil = some []
  encode_items e depth (cons v vs) =
      cons_text (encode_canonical e depth v) (encode_items e depth vs)

  -- The entries by their keys, each encoded.
  pub encode_fields : Encoder → ℕ → Fields → List Row
  encode_fields e depth end = []
  encode_fields e depth (field k v fs) =
      (k, entry_text (e.text k) (encode_canonical e depth v)) ∷ encode_fields e depth fs

-- `CanonicalJSON`.
unfoldable pub canonical_json : Encoder → Value → Option String
unfolding encode_canonical
canonical_json e v = encode_canonical e 0 v
