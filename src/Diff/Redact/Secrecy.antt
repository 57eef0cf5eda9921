-- ===== src/Diff/Redact/Secrecy.antt =====
-- The redaction of values that differ inside their wrappers only.
mod Mask
unfoldable pub use Mask.*
use piace.Base.{
  String, Bool, true, false, not, ◌&&◌, ◌||◌, Option, none, some, ◌==◌, string_eq, ◌≡◌, refl, inl,
  inr, nat_eq, if◌then◌else◌, is_some, Bool-cases, ||-eq-false, sym, ap, ◌∙◌, ℕ, suc,
}
use mathlib.Core.Path.{ap₂}
use piace.Model.Value.{
  Value, null, bool, str, num, arr, obj, Items, nil, cons, Fields, end, field, get, at, map_fields,
  count_items, or_null,
}
use piace.Model.Disclosure.{
  is_sensitive_wrapper, contains_sensitive, any_item_sensitive, any_field_sensitive,
  names_sensitive, pcore_type_key,
}
use piace.Diff.Redact.{
  marker, both_masked, redact_leaf, one_sided_secret, missing_key, key_sets_differ, redact_pair,
  redact_items, redact_before, redact_entry, is_wrapper_value,
}

redact_leaf-mask : (v w : Value) → redact_leaf v w ≡ redact_leaf (mask v) (mask w)
unfolding redact_leaf
redact_leaf-mask v w = elim (Bool-cases (contains_sensitive v || contains_sensitive w)) [
  | inl e ↦ rw (contains-mask v, contains-mask w) (rw (e))
  | inr e ↦
      let (first, second) = ||-eq-false (contains_sensitive v) (contains_sensitive w) e in
      rw (mask_clear v first, mask_clear w second)
]

is_wrapper_value-mask : (w : Value) → is_wrapper_value (mask w) ≡ is_wrapper_value w
unfolding is_wrapper_value mask get is_sensitive_wrapper
is_wrapper_value-mask (obj m) = elim (Bool-cases (is_sensitive_wrapper m)) [
  | inl e ↦ rw e
  | inr e ↦ rw e (rw (wrapper-mask_fields m, e))
]
is_wrapper_value-mask null = refl
is_wrapper_value-mask _ = refl

entry_end-mask : (k : String) (w : Value) → redact_entry end k w ≡ redact_entry end k (mask w)
unfolding redact_entry
entry_end-mask k w = rw (is_wrapper_value-mask w) (
    ap (λ p. if is_wrapper_value w then both_masked else p)
      (unfold mask in redact_leaf-mask null w))

map_fields-mask :
    (f g : String → Value → Value)
    → ((k : String) (w : Value) → f k w ≡ g k (mask w))
    → (m : Fields) → map_fields f m ≡ map_fields g (mask_fields m)
unfolding map_fields mask
map_fields-mask f g h end = refl
map_fields-mask f g h (field k w m) = ap₂ (field k) (h k w) (map_fields-mask f g h m)

abbrev redact_after : Fields → Fields → Fields
redact_after bm am = map_fields (λ k w. (redact_entry bm k w).1) am

abbrev combine : Bool → Bool → Fields → Fields → Value × Value
combine wrapped one_sided before after =
    if wrapped then both_masked else if one_sided then both_masked else (obj before, obj after)

redact_maps :
    (bm am : Fields)
    → redact_pair (obj bm) (obj am)
      ≡ combine
          (is_sensitive_wrapper bm || is_sensitive_wrapper am)
          (one_sided_secret bm am)
          (redact_before bm am)
          (redact_after bm am)
unfolding redact_pair
redact_maps bm am = refl

sealed_wrapper : is_sensitive_wrapper sealed ≡ true
unfolding is_sensitive_wrapper get
sealed_wrapper = refl

||-true : (b : Bool) → (b || true) ≡ true
||-true true = refl
||-true false = refl

mask_wrapper : (m : Fields) → is_sensitive_wrapper m ≡ true → mask (obj m) ≡ obj sealed
unfolding mask
mask_wrapper m e = rw e

mask_plain : (m : Fields) → is_sensitive_wrapper m ≡ false → mask (obj m) ≡ obj (mask_fields m)
unfolding mask
mask_plain m e = rw e

wrapped_left :
    (m n : Fields) → is_sensitive_wrapper m ≡ true → redact_pair (obj m) (obj n) ≡ both_masked
wrapped_left m n e = rw redact_maps (rw e)

wrapped_right :
    (m n : Fields) → is_sensitive_wrapper n ≡ true → redact_pair (obj m) (obj n) ≡ both_masked
wrapped_right m n e = rw redact_maps (rw e (rw ||-true))

maps_mask :
    (bm am : Fields)
    → redact_before bm am ≡ redact_before (mask_fields bm) (mask_fields am)
    → redact_after bm am ≡ redact_after (mask_fields bm) (mask_fields am)
    → redact_pair (obj bm) (obj am) ≡ redact_pair (mask (obj bm)) (mask (obj am))
maps_mask bm am before after = elim (Bool-cases (is_sensitive_wrapper bm)) [
  | inl e ↦ elim (Bool-cases (is_sensitive_wrapper am)) [
    | inl f ↦
        rw (mask_wrapper bm e, mask_wrapper am f)
          (wrapped_left bm am e ∙ sym (wrapped_left sealed sealed sealed_wrapper))
    | inr f ↦
        rw (mask_wrapper bm e, mask_plain am f)
          (wrapped_left bm am e ∙ sym (wrapped_left sealed (mask_fields am) sealed_wrapper))
  ]
  | inr e ↦ elim (Bool-cases (is_sensitive_wrapper am)) [
    | inl f ↦
        rw (mask_plain bm e, mask_wrapper am f)
          (wrapped_right bm am f ∙ sym (wrapped_right (mask_fields bm) sealed sealed_wrapper))
    | inr f ↦
        rw (mask_plain bm e, mask_plain am f)
          (redact_maps bm am
            ∙ ((rw (
              before,
              after,
              wrapper-mask_fields bm,
              wrapper-mask_fields am,
              one_sided-mask bm am,
            ))
                ∙ sym (redact_maps (mask_fields bm) (mask_fields am))))
  ]
]

-- A value that is no map.
abbrev IsOther : Value → Type 0
IsOther (obj m) = ⊥
IsOther v = Unit

redact_obj_left :
    (m : Fields) (w : Value)
    → IsOther w
    → redact_pair (obj m) w
      ≡ (if is_sensitive_wrapper m then both_masked else redact_leaf (obj m) w)
unfolding redact_pair
redact_obj_left m (obj n) h = absurd h
redact_obj_left m _ h = refl

redact_obj_right :
    (v : Value) (n : Fields)
    → IsOther v
    → redact_pair v (obj n)
      ≡ (if is_sensitive_wrapper n then both_masked else redact_leaf v (obj n))
unfolding redact_pair
redact_obj_right (obj m) n h = absurd h
redact_obj_right _ n h = refl

mask-IsOther : (w : Value) → IsOther w → IsOther (mask w)
unfolding mask
mask-IsOther (obj m) h = absurd h
mask-IsOther _ h = tt

left_mask :
    (m : Fields) (w : Value)
    → IsOther w
    → redact_pair (obj m) w ≡ redact_pair (mask (obj m)) (mask w)
left_mask m w h = elim (Bool-cases (is_sensitive_wrapper m)) [
  | inl e ↦ rw (mask_wrapper m e) (
      redact_obj_left m w h
      ∙ (rw e (sym (redact_obj_left sealed (mask w) (mask-IsOther w h) ∙ rw sealed_wrapper))))
  | inr e ↦
      redact_obj_left m w h
      ∙ (rw e (
          redact_leaf-mask (obj m) w
          ∙ rw (mask_plain m e) (
              sym (
                redact_obj_left (mask_fields m) (mask w) (mask-IsOther w h)
                ∙ rw (wrapper-mask_fields m, e)))))
]

right_mask :
    (v : Value) (n : Fields)
    → IsOther v
    → redact_pair v (obj n) ≡ redact_pair (mask v) (mask (obj n))
right_mask v n h = elim (Bool-cases (is_sensitive_wrapper n)) [
  | inl e ↦ rw (mask_wrapper n e) (
      redact_obj_right v n h
      ∙ (rw e (sym (redact_obj_right (mask v) sealed (mask-IsOther v h) ∙ rw sealed_wrapper))))
  | inr e ↦
      redact_obj_right v n h
      ∙ (rw e (
          redact_leaf-mask v (obj n)
          ∙ rw (mask_plain n e) (
              sym (
                redact_obj_right (mask v) (mask_fields n) (mask-IsOther v h)
                ∙ rw (wrapper-mask_fields n, e)))))
]

lists_mask :
    (bs as' : Items)
    → redact_items bs as' ≡ redact_items (mask_items bs) (mask_items as')
    → redact_pair (arr bs) (arr as') ≡ redact_pair (mask (arr bs)) (mask (arr as'))
unfolding redact_pair
lists_mask bs as' items =
    unfold mask in
    rw (count_items-mask bs, count_items-mask as', items) (rw (redact_leaf-mask (arr bs) (arr as')))

leaf_mask :
    (v w : Value)
    → redact_pair v w ≡ redact_leaf v w
    → redact_pair (mask v) (mask w) ≡ redact_leaf (mask v) (mask w)
    → redact_pair v w ≡ redact_pair (mask v) (mask w)
leaf_mask v w e f = e ∙ (redact_leaf-mask v w ∙ sym f)

leaf_masked : (v w : Value) → redact_leaf v w ≡ redact_leaf (mask v) (mask w)
leaf_masked v w = redact_leaf-mask v w

mutual
  unfolding redact_pair mask

  pair_mask : (v w : Value) → redact_pair v w ≡ redact_pair (mask v) (mask w)
  pair_mask (obj bm) (obj am) = maps_mask bm am (before_mask bm am) (
      map_fields-mask (λ k w. (redact_entry bm k w).1)
        (λ k w. (redact_entry (mask_fields bm) k w).1) (λ k w. ap (λ p. p.1) (entry_mask bm k w))
        am)
  pair_mask (obj bm) null = left_mask bm null tt
  pair_mask (obj bm) (bool b) = left_mask bm (bool b) tt
  pair_mask (obj bm) (str s) = left_mask bm (str s) tt
  pair_mask (obj bm) (num s) = left_mask bm (num s) tt
  pair_mask (obj bm) (arr vs) = left_mask bm (arr vs) tt
  pair_mask (arr bs) (arr as') = lists_mask bs as' (items_mask bs as')
  pair_mask null (obj am) = right_mask null am tt
  pair_mask (bool b) (obj am) = right_mask (bool b) am tt
  pair_mask (str s) (obj am) = right_mask (str s) am tt
  pair_mask (num s) (obj am) = right_mask (num s) am tt
  pair_mask (arr vs) (obj am) = right_mask (arr vs) am tt
  pair_mask v w = leaf_masked v w

  items_mask :
      (bs as' : Items) → redact_items bs as' ≡ redact_items (mask_items bs) (mask_items as')
  items_mask nil as' = refl
  items_mask (cons b bs) nil = refl
  items_mask (cons b bs) (cons a as') = rw (pair_mask b a, items_mask bs as')

  before_mask :
      (bm am : Fields) → redact_before bm am ≡ redact_before (mask_fields bm) (mask_fields am)
  before_mask end am = refl
  before_mask (field k v bm) am = rw (at-mask_fields k am, pair_mask v (at k am), before_mask bm am)

  entry_mask :
      (bm : Fields) (k : String) (w : Value)
      → redact_entry bm k w ≡ redact_entry (mask_fields bm) k (mask w)
  entry_mask end k w = entry_end-mask k w
  entry_mask (field j v bm) k w = rw (pair_mask v w, entry_mask bm k w)

-- What a report shows of two values does not depend on what their Sensitive wrappers hold: values
-- with emptied wrappers are shown in the same way.
pub redact_pair-mask :
    (before after : Value) → redact_pair before after ≡ redact_pair (mask before) (mask after)
redact_pair-mask before after = pair_mask before after
