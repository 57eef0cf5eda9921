-- ===== src/Model/Disclosure.antt =====
-- internal/model/disclosure.go: Sensitive wrappers, and the content-bearing File parameters.
use piace.Base.{String, Bool, false, ◌||◌, Option, some, List, [], ◌∷◌, ◌==◌, string_eq, contains}
use piace.Model.Value.{
  Value, null, bool, str, num, arr, obj, Items, nil, cons, Fields, end, field, get,
}

abbrev pub pcore_type_key : String
pcore_type_key = "__ptype"

abbrev pub sensitive_wrapper_type : String
sensitive_wrapper_type = "Sensitive"

abbrev pub names_sensitive : Option Value → Bool
names_sensitive (some (str name)) = name == sensitive_wrapper_type
names_sensitive _ = false

unfoldable pub is_sensitive_wrapper : Fields → Bool
is_sensitive_wrapper m = names_sensitive (get pcore_type_key m)

unfoldable mutual
  unfolding is_sensitive_wrapper

  pub contains_sensitive : Value → Bool
  contains_sensitive (obj m) = is_sensitive_wrapper m || any_field_sensitive m
  contains_sensitive (arr vs) = any_item_sensitive vs
  contains_sensitive null = false
  contains_sensitive (bool b) = false
  contains_sensitive (str s) = false
  contains_sensitive (num s) = false

  pub any_item_sensitive : Items → Bool
  any_item_sensitive nil = false
  any_item_sensitive (cons v vs) = contains_sensitive v || any_item_sensitive vs

  pub any_field_sensitive : Fields → Bool
  any_field_sensitive end = false
  any_field_sensitive (field k v fs) = contains_sensitive v || any_field_sensitive fs

abbrev pub file_resource_type : String
file_resource_type = "File"

-- `FileContentBearingParameters`, in its sorted order.
abbrev pub content_bearing_parameters : List String
content_bearing_parameters = "checksum" ∷ "checksum_value" ∷ "content" ∷ "source" ∷ []

unfoldable pub is_content_bearing : String → Bool
is_content_bearing name = contains name content_bearing_parameters
