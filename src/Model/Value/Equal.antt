-- ===== src/Model/Value/Equal.antt =====
-- `reflect.DeepEqual` on values: maps are equal if they have as many keys, and equal values at each.
use piace.Base.{
  String, Bool, true, false, ◌&&◌, Option, none, some, nat_eq, ◌==◌, string_eq, ◌≡◌, refl, arith,
  eq_iff, beq_refl,
}
use piace.Model.Value.{
  Value, null, bool, str, num, arr, obj, Items, nil, cons, Fields, end, field, get, count_fields,
}

unfoldable pub bool_eq : Bool → Bool → Bool
bool_eq true true = true
bool_eq false false = true
bool_eq _ _ = false

-- An absent key is no `nil` here: `reflect.DeepEqual` compares the key sets too.
abbrev equal_entry : (Value → Bool) → Option Value → Bool
equal_entry test none = false
equal_entry test (some w) = test w

unfoldable mutual
  unfolding bool_eq get

  pub deep_equal : Value → Value → Bool
  deep_equal null null = true
  deep_equal (bool a) (bool b) = bool_eq a b
  deep_equal (str s) (str t) = s == t
  deep_equal (num s) (num t) = s == t
  deep_equal (arr vs) (arr ws) = equal_items vs ws
  deep_equal (obj fs) (obj gs) = nat_eq (count_fields fs) (count_fields gs) && equal_fields fs gs
  deep_equal _ _ = false

  pub equal_items : Items → Items → Bool
  equal_items nil nil = true
  equal_items (cons v vs) (cons w ws) = deep_equal v w && equal_items vs ws
  equal_items _ _ = false

  pub equal_fields : Fields → Fields → Bool
  equal_fields end gs = true
  equal_fields (field k v fs) gs = equal_entry (deep_equal v) (get k gs) && equal_fields fs gs

-- What a Go map gives for nothing: at every depth, no key stands twice.
unfoldable mutual
  pub HasDistinctKeys : Value → Type 0
  HasDistinctKeys null = Unit
  HasDistinctKeys (bool b) = Unit
  HasDistinctKeys (str s) = Unit
  HasDistinctKeys (num s) = Unit
  HasDistinctKeys (arr vs) = ItemsDistinct vs
  HasDistinctKeys (obj fs) = FieldsDistinct fs

  pub ItemsDistinct : Items → Type 0
  ItemsDistinct nil = Unit
  ItemsDistinct (cons v vs) = HasDistinctKeys v × ItemsDistinct vs

  pub FieldsDistinct : Fields → Type 0
  FieldsDistinct end = Unit
  FieldsDistinct (field k v fs) = (get k fs ≡ none) × HasDistinctKeys v × FieldsDistinct fs

-- Every entry of the first map is the one that the second reads.
abbrev pub Within : Fields → Fields → Type 0
Within end gs = Unit
Within (field k v fs) gs = (get k gs ≡ some v) × Within fs gs

Within-field :
    (j : String) (w : Value) (fs gs : Fields)
    → get j fs ≡ none
    → Within fs gs
    → Within fs (field j w gs)
unfolding get
Within-field j w end gs h k = tt
Within-field j w (field i v fs) gs h (k, ks) =
    ground (arith, eq_iff j i, eq_iff i j, Within-field j w fs gs, beq_refl i)

pub Within-refl : (fs : Fields) → FieldsDistinct fs → Within fs fs
unfolding get HasDistinctKeys
Within-refl end h = tt
Within-refl (field k v fs) (h, d, ds) = (rw beq_refl, Within-field k v fs fs h (Within-refl fs ds))

mutual
  unfolding deep_equal HasDistinctKeys

  equal_refl : (v : Value) → HasDistinctKeys v → deep_equal v v ≡ true
  equal_refl null h = refl
  equal_refl (bool true) h = refl
  equal_refl (bool false) h = refl
  equal_refl (str s) h = beq_refl s
  equal_refl (num s) h = beq_refl s
  equal_refl (arr vs) h = items_refl vs h
  equal_refl (obj fs) h = ground (arith, fields_refl fs fs (Within-refl fs h) h)

  items_refl : (vs : Items) → ItemsDistinct vs → equal_items vs vs ≡ true
  items_refl nil h = refl
  items_refl (cons v vs) (h, hs) = ground (arith, equal_refl v h, items_refl vs hs)

  fields_refl : (fs gs : Fields) → Within fs gs → FieldsDistinct fs → equal_fields fs gs ≡ true
  fields_refl end gs w h = refl
  fields_refl (field k v fs) gs (w, ws) (h, d, ds) =
      rw w (ground (arith, equal_refl v d, fields_refl fs gs ws ds))

-- A value with distinct keys equals itself.
pub deep_equal_refl : (v : Value) → HasDistinctKeys v → deep_equal v v ≡ true
deep_equal_refl v h = equal_refl v h
