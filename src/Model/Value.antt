-- ===== src/Model/Value.antt =====
-- internal/model/catalog.go `Value` and `Number`: canonical JSON values. A Go map is the list of
-- its entries; `get` reads the first entry of a key, and the order of entries means nothing.
pub mod Equal
use piace.Base.{
  ℕ, suc, String, Bool, true, false, ◌&&◌, ◌||◌, Option, none, some, List, [], ◌∷◌, ◌==◌, string_eq,
  if◌then◌else◌,
}

mutual
  pub data Value : Type 0 where
    null : Value
    bool : Bool → Value
    str : String → Value
    -- `Number`: canonical decimal digits
    num : String → Value
    arr : Items → Value
    obj : Fields → Value

  pub data Fields : Type 0 where
    end : Fields
    field : String → Value → Fields → Fields

  pub data Items : Type 0 where
    nil : Items
    cons : Value → Items → Items

-- `m[k]` with its second result.
unfoldable pub get : String → Fields → Option Value
get k end = none
get k (field j v fs) = if j == k then some v else get k fs

abbrev pub or_null : Option Value → Value
or_null none = null
or_null (some v) = v

-- `m[k]` where a missing key reads as `nil`.
abbrev pub at : String → Fields → Value
at k fs = or_null (get k fs)

abbrev pub keys : Fields → List String
keys end = []
keys (field k v fs) = k ∷ keys fs

abbrev pub count_items : Items → ℕ
count_items nil = 0
count_items (cons v vs) = suc (count_items vs)

abbrev pub count_fields : Fields → ℕ
count_fields end = 0
count_fields (field k v fs) = suc (count_fields fs)

-- A loop that builds a map with the keys of another.
unfoldable pub map_fields : (String → Value → Value) → Fields → Fields
map_fields f end = end
map_fields f (field k v fs) = field k (f k v) (map_fields f fs)
