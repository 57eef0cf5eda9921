-- ===== src/Diff/Redact/Secrecy/Mask.antt =====
-- A value whose Sensitive wrappers, at any depth, have lost their content.
use piace.Base.{
  String, Bool, true, false, not, ◌||◌, Option, none, some, ◌==◌, string_eq, ◌≡◌, refl, inl, inr,
  if◌then◌else◌, is_some, Bool-cases, ||-eq-false, ap, suc,
}
use mathlib.Core.Path.{ap₂}
use piace.Model.Value.{
  Value, null, bool, str, num, arr, obj, Items, nil, cons, Fields, end, field, get, at, count_items,
  or_null,
}
use piace.Model.Disclosure.{
  is_sensitive_wrapper, contains_sensitive, any_item_sensitive, any_field_sensitive,
  names_sensitive, pcore_type_key,
}
use piace.Diff.Redact.{one_sided_secret, missing_key, key_sets_differ}

abbrev pub sealed : Fields
sealed = field "__ptype" (str "Sensitive") end

-- Every wrapper, at any depth, loses its content.
unfoldable mutual
  pub mask : Value → Value
  mask (obj m) = if is_sensitive_wrapper m then obj sealed else obj (mask_fields m)
  mask (arr vs) = arr (mask_items vs)
  mask null = null
  mask (bool b) = bool b
  mask (str s) = str s
  mask (num s) = num s

  pub mask_items : Items → Items
  mask_items nil = nil
  mask_items (cons v vs) = cons (mask v) (mask_items vs)

  pub mask_fields : Fields → Fields
  mask_fields end = end
  mask_fields (field k v fs) = field k (mask v) (mask_fields fs)

abbrev pub mask_option : Option Value → Option Value
mask_option none = none
mask_option (some v) = some (mask v)

pub get-mask_fields : (k : String) (m : Fields) → get k (mask_fields m) ≡ mask_option (get k m)
unfolding get mask
get-mask_fields k end = refl
get-mask_fields k (field j v m) = elim (Bool-cases (j == k)) [
  | inl e ↦ rw e
  | inr e ↦ rw e (get-mask_fields k m)
]

pub at-mask_fields : (k : String) (m : Fields) → at k (mask_fields m) ≡ mask (at k m)
at-mask_fields k m = rw get-mask_fields (or_null-mask (get k m))
  where
    or_null-mask : (o : Option Value) → or_null (mask_option o) ≡ mask (or_null o)
    or_null-mask none = unfold mask in refl
    or_null-mask (some v) = refl

pub names_sensitive-if :
    (b : Bool) (m n : Fields) → names_sensitive (some (if b then obj m else obj n)) ≡ false
names_sensitive-if true m n = refl
names_sensitive-if false m n = refl

pub names_sensitive-mask : (o : Option Value) → names_sensitive (mask_option o) ≡ names_sensitive o
unfolding mask
names_sensitive-mask none = refl
names_sensitive-mask (some (obj m)) =
    names_sensitive-if (is_sensitive_wrapper m) sealed (mask_fields m)
names_sensitive-mask (some _) = refl

pub wrapper-mask_fields :
    (m : Fields) → is_sensitive_wrapper (mask_fields m) ≡ is_sensitive_wrapper m
unfolding is_sensitive_wrapper
wrapper-mask_fields m = rw get-mask_fields (names_sensitive-mask (get pcore_type_key m))

mutual
  unfolding contains_sensitive mask get

  pub contains-mask : (v : Value) → contains_sensitive (mask v) ≡ contains_sensitive v
  contains-mask (obj m) = elim (Bool-cases (is_sensitive_wrapper m)) [
    | inl e ↦ rw e
    | inr e ↦ rw e (rw (wrapper-mask_fields m, e, fields-mask m))
  ]
  contains-mask (arr vs) = items-mask vs
  contains-mask null = refl
  contains-mask (bool b) = refl
  contains-mask (str s) = refl
  contains-mask (num s) = refl

  pub items-mask : (vs : Items) → any_item_sensitive (mask_items vs) ≡ any_item_sensitive vs
  items-mask nil = refl
  items-mask (cons v vs) = rw (contains-mask v, items-mask vs)

  pub fields-mask : (m : Fields) → any_field_sensitive (mask_fields m) ≡ any_field_sensitive m
  fields-mask end = refl
  fields-mask (field k v m) = rw (contains-mask v, fields-mask m)

mutual
  unfolding contains_sensitive mask

  pub mask_clear : (v : Value) → contains_sensitive v ≡ false → mask v ≡ v
  mask_clear (obj m) h =
      let (plain, clear) = ||-eq-false (is_sensitive_wrapper m) (any_field_sensitive m) h in
      rw plain (ap obj (fields_clear m clear))
  mask_clear (arr vs) h = ap arr (items_clear vs h)
  mask_clear null h = refl
  mask_clear (bool b) h = refl
  mask_clear (str s) h = refl
  mask_clear (num s) h = refl

  pub items_clear : (vs : Items) → any_item_sensitive vs ≡ false → mask_items vs ≡ vs
  items_clear nil h = refl
  items_clear (cons v vs) h =
      let (first, rest) = ||-eq-false (contains_sensitive v) (any_item_sensitive vs) h in
      ap₂ cons (mask_clear v first) (items_clear vs rest)

  pub fields_clear : (m : Fields) → any_field_sensitive m ≡ false → mask_fields m ≡ m
  fields_clear end h = refl
  fields_clear (field k v m) h =
      let (first, rest) = ||-eq-false (contains_sensitive v) (any_field_sensitive m) h in
      ap₂ (field k) (mask_clear v first) (fields_clear m rest)

pub missing_key-mask :
    (m n : Fields) → missing_key (mask_fields m) (mask_fields n) ≡ missing_key m n
unfolding missing_key mask
missing_key-mask end n = refl
missing_key-mask (field k v m) n =
    rw (get-mask_fields k n, missing_key-mask m n) (is_some-mask (get k n))
  where
    is_some-mask :
        (o : Option Value)
        → (not (is_some (mask_option o)) || missing_key m n) ≡ (not (is_some o) || missing_key m n)
    is_some-mask none = refl
    is_some-mask (some v) = refl

pub count_items-mask : (vs : Items) → count_items (mask_items vs) ≡ count_items vs
unfolding mask
count_items-mask nil = refl
count_items-mask (cons v vs) = ap suc (count_items-mask vs)

pub contains-mask_fields :
    (m : Fields) → contains_sensitive (obj (mask_fields m)) ≡ contains_sensitive (obj m)
unfolding contains_sensitive
contains-mask_fields m = rw (wrapper-mask_fields m, fields-mask m)

pub one_sided-mask :
    (m n : Fields) → one_sided_secret (mask_fields m) (mask_fields n) ≡ one_sided_secret m n
unfolding key_sets_differ
one_sided-mask m n =
    rw (contains-mask_fields m, contains-mask_fields n, missing_key-mask m n, missing_key-mask n m)
