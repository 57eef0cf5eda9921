-- ===== src/Normalize/Values.antt =====
-- internal/normalize/value.go: parameter values in canonical form. `CanonicalNumberString` of
-- internal/snapshot is an argument; where Go ranges over a map, the list gives the order.
pub mod Laws
use piace.Base.{
  String, Bool, true, false, ◌&&◌, not, Option, none, some, List, [], ◌∷◌, map, ◌==◌, string_eq,
  if◌then◌else◌, contains, is_some, ltb, ◌⊎◌, inl, inr,
}
use piace.Base.Text.{trim_space}
use piace.Base.Order.{str_le}
use piace.Base.Sort.{sort}
use Prim.Native.String.{◌++◌ as ◌<>◌}
use piace.Model.Value.{
  Value, null, bool, str, num, arr, obj, Items, nil, cons, Fields, end, field, get,
}
use piace.Model.Disclosure.{is_sensitive_wrapper}
use piace.Normalize.Wire.{Json}

-- `snapshot.ErrNumericBudget`, or any other error.
pub data ValueError : Type 0 where
  numeric_budget invalid : ValueError

abbrev pub Numbers : Type 0
Numbers = String → ValueError ⊎ String

abbrev pub generated_metadata_parameters : List String
generated_metadata_parameters = "alias" ∷ []

abbrev pub unordered_metaparameters : List String
unordered_metaparameters =
    "audit" ∷ "before" ∷ "check" ∷ "notify" ∷ "require" ∷ "subscribe" ∷ "tag" ∷ []

unfoldable pub key_of_marshal : Option String → Option String
key_of_marshal none = none
key_of_marshal (some t) = some ("j" <> t)

-- The key that an item is sorted by.
unfoldable pub sort_key : Json → Value → Option String
unfolding key_of_marshal
sort_key json (str s) = some ("s" <> s)
sort_key json v = key_of_marshal (json.marshal v)

unfoldable pub with_key :
    Option String → Value → Option (List (String × Value)) → Option (List (String × Value))
with_key none v rest = none
with_key (some k) v none = none
with_key (some k) v (some rest) = some ((k, v) ∷ rest)

unfoldable pub keyed : Json → Items → Option (List (String × Value))
unfolding with_key sort_key
keyed json nil = some []
keyed json (cons v vs) = with_key (sort_key json v) v (keyed json vs)

unfoldable pub items_of : List (String × Value) → Items
items_of [] = nil
items_of ((k, v) ∷ rest) = cons v (items_of rest)

unfoldable pub key_le : String × Value → String × Value → Bool
key_le a b = str_le a.0 b.0

unfoldable pub sorted_items : Items → Option (List (String × Value)) → Value
unfolding items_of sort key_le
sorted_items vs none = arr vs
sorted_items vs (some rows) = arr (items_of (sort key_le rows))

-- `sortUnorderedMetaparameter`. A list of fewer than two items is its own sort.
unfoldable pub sort_unordered_metaparameter : Json → Value → Value
unfolding sorted_items keyed
sort_unordered_metaparameter json (arr nil) = arr nil
sort_unordered_metaparameter json (arr (cons v nil)) = arr (cons v nil)
sort_unordered_metaparameter json (arr (cons v (cons w vs))) =
    sorted_items (cons v (cons w vs)) (keyed json (cons v (cons w vs)))
sort_unordered_metaparameter json v = v

unfoldable pub number_value : ValueError ⊎ String → ValueError ⊎ Value
number_value (inl e) = inl e
number_value (inr s) = inr (num s)

unfoldable pub array_value : ValueError ⊎ Items → ValueError ⊎ Value
array_value (inl e) = inl e
array_value (inr vs) = inr (arr vs)

unfoldable pub object_value : ValueError ⊎ Fields → ValueError ⊎ Value
object_value (inl e) = inl e
object_value (inr fs) = inr (obj fs)

unfoldable pub cons_value : ValueError ⊎ Value → ValueError ⊎ Items → ValueError ⊎ Items
cons_value (inl e) rest = inl e
cons_value (inr v) (inl e) = inl e
cons_value (inr v) (inr vs) = inr (cons v vs)

unfoldable pub field_value : String → ValueError ⊎ Value → ValueError ⊎ Fields → ValueError ⊎ Fields
field_value k (inl e) rest = inl e
field_value k (inr v) (inl e) = inl e
field_value k (inr v) (inr fs) = inr (field k v fs)

-- A wrapper that names no value.
unfoldable pub is_malformed_wrapper : Fields → Bool
unfolding is_sensitive_wrapper
is_malformed_wrapper m = is_sensitive_wrapper m && not (is_some (get "__pvalue" m))

unfoldable mutual
  unfolding number_value array_value object_value cons_value field_value is_malformed_wrapper

  pub canonicalize_value : Numbers → Value → ValueError ⊎ Value
  canonicalize_value numbers null = inr null
  canonicalize_value numbers (bool b) = inr (bool b)
  canonicalize_value numbers (str s) = inr (str s)
  canonicalize_value numbers (num s) = number_value (numbers s)
  canonicalize_value numbers (arr vs) = array_value (canonicalize_items numbers vs)
  canonicalize_value numbers (obj m) =
      let fields = object_value (canonicalize_fields numbers m) in
      if is_malformed_wrapper m then inl invalid else fields

  pub canonicalize_items : Numbers → Items → ValueError ⊎ Items
  canonicalize_items numbers nil = inr nil
  canonicalize_items numbers (cons v vs) =
      cons_value (canonicalize_value numbers v) (canonicalize_items numbers vs)

  pub canonicalize_fields : Numbers → Fields → ValueError ⊎ Fields
  canonicalize_fields numbers end = inr end
  canonicalize_fields numbers (field k v fs) =
      field_value k (canonicalize_value numbers v) (canonicalize_fields numbers fs)

unfoldable pub canonical_or_invalid : Numbers → Option Value → ValueError ⊎ Value
unfolding canonicalize_value
canonical_or_invalid numbers none = inl invalid
canonical_or_invalid numbers (some v) = canonicalize_value numbers v

-- `canonicalizeRaw`.
unfoldable pub canonicalize_raw : Json → Numbers → String → ValueError ⊎ Value
unfolding canonical_or_invalid
canonicalize_raw json numbers raw = canonical_or_invalid numbers (json.value raw)

unfoldable pub ordered : Json → String → ValueError ⊎ Value → ValueError ⊎ Value
unfolding sort_unordered_metaparameter
ordered json k (inl e) = inl e
ordered json k (inr v) =
    if contains k unordered_metaparameters then inr (sort_unordered_metaparameter json v) else inr v

-- The loop over the entries of the parameters object.
unfoldable pub parameter_entries : Json → Numbers → List (String × String) → ValueError ⊎ Fields
unfolding ordered canonicalize_raw field_value
parameter_entries json numbers [] = inr end
parameter_entries json numbers ((k, raw) ∷ entries) =
    let rest = parameter_entries json numbers entries in
    if contains k generated_metadata_parameters
    then rest
    else field_value k (ordered json k (canonicalize_raw json numbers raw)) rest

unfoldable pub entries_or_invalid :
    Json → Numbers → Option (List (String × String)) → ValueError ⊎ Fields
unfolding parameter_entries
entries_or_invalid json numbers none = inl invalid
entries_or_invalid json numbers (some entries) = parameter_entries json numbers entries

-- `decodeParameters`.
unfoldable pub decode_parameters : Json → Numbers → String → ValueError ⊎ Fields
unfolding entries_or_invalid trim_space
decode_parameters json numbers raw =
    let text = trim_space raw in
    if text == ""
    then inr end
    else if text == "null"
    then inr end
    else entries_or_invalid json numbers (json.object text)
