-- ===== src/Model/Pcore.antt =====
-- internal/model/pcore.go: projecting Pcore rich values to the strings that PuppetDB stores.
pub mod Laws
use Prim.Native.Char.{code}
use Prim.Native.String
use Prim.Native.String.{◌++◌ as ◌<>◌}
use piace.Base.{
  ℕ, zero, suc, ◌%◌, ◌+◌, String, Bool, true, false, not, ◌&&◌, ◌||◌, Option, none, some, ◌==◌,
  string_eq, nat_eq, if◌then◌else◌, is_some,
}
use piace.Model.Value.{
  Value, null, bool, str, num, arr, obj, Items, nil, cons, Fields, end, field, get, at,
}
use piace.Model.Disclosure.{pcore_type_key}

abbrev pub pcore_value_key : String
pcore_value_key = "__pvalue"

abbrev pub regexp_wrapper_type : String
regexp_wrapper_type = "Regexp"

abbrev type_name_of : Option Value → Option String
type_name_of (some (str name)) = if name == "" then none else some name
type_name_of _ = none

unfoldable pub rich_type_name : Fields → Option String
unfolding get
rich_type_name m = type_name_of (get pcore_type_key m)

-- The loop over the bytes; only ASCII bytes are looked at, so characters serve.
unfoldable pub escape_from : ℕ → String → String
escape_from backslashes String.[] = String.[]
escape_from backslashes (String.◌∷◌ c s) =
    let rest = escape_from (if nat_eq (code c) 0x5c then suc backslashes else 0) s in
    if nat_eq (code c) b'/' && nat_eq (backslashes % 2) 0
    then String.◌∷◌ "\\" (String.◌∷◌ c rest)
    else String.◌∷◌ c rest

unfoldable pub escape_regexp_slashes : String → String
unfolding escape_from
escape_regexp_slashes pattern = escape_from 0 pattern

unfoldable pub stringify_rich : String → Value → Option Value
unfolding escape_regexp_slashes
stringify_rich name (str pattern) =
    if not (name == regexp_wrapper_type)
    then none
    else some (str ("/" <> (escape_regexp_slashes pattern <> "/")))
stringify_rich name v = none

-- `ContainsRichData`.
unfoldable mutual
  unfolding rich_type_name

  pub contains_rich : Value → Bool
  contains_rich (obj m) = is_some (rich_type_name m) || any_field_rich m
  contains_rich (arr vs) = any_item_rich vs
  contains_rich null = false
  contains_rich (bool b) = false
  contains_rich (str s) = false
  contains_rich (num s) = false

  pub any_item_rich : Items → Bool
  any_item_rich nil = false
  any_item_rich (cons v vs) = contains_rich v || any_item_rich vs

  pub any_field_rich : Fields → Bool
  any_field_rich end = false
  any_field_rich (field k v fs) = contains_rich v || any_field_rich fs

-- A projected value, or the name of a rich type whose string form was never measured.
pub data Projection {ℓ} (A : Type ℓ) : Type ℓ where
  projected : A → Projection A
  unmeasured : String → Projection A

module _ {ℓ κ} {A : Type ℓ} {B : Type κ} where
  infixl 5 ◌>>=◌
  abbrev pub ◌>>=◌ : Projection A → (A → Projection B) → Projection B
  projected a >>= f = f a
  unmeasured name >>= f = unmeasured name

abbrev pub measured_or : String → Option Value → Projection Value
measured_or name none = unmeasured name
measured_or name (some v) = projected v

abbrev pub rich_or : Option String → Value → Projection Value → Projection Value
rich_or none value plain = plain
rich_or (some name) value plain = measured_or name (stringify_rich name value)

-- `ProjectStringifiedRich`. Go ranges over a map in no fixed order: where several types of one map
-- are unmeasured, which of them is named is not determined, and this names the first of the list.
unfoldable mutual
  unfolding rich_type_name stringify_rich get

  pub project : Value → Projection Value
  project (obj m) =
      rich_or (rich_type_name m) (at pcore_value_key m)
        (do fs ← project_fields m; projected (obj fs))
  project (arr vs) = do ws ← project_items vs; projected (arr ws)
  project null = projected null
  project (bool b) = projected (bool b)
  project (str s) = projected (str s)
  project (num s) = projected (num s)

  pub project_items : Items → Projection Items
  project_items nil = projected nil
  project_items (cons v vs) = do w ← project v; ws ← project_items vs; projected (cons w ws)

  pub project_fields : Fields → Projection Fields
  project_fields end = projected end
  project_fields (field k v fs) = do w ← project v; gs ← project_fields fs; projected (field k w gs)
