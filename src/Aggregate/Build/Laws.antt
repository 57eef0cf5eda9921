-- ===== src/Aggregate/Build/Laws.antt =====
-- What the members of one group show together.
use piace.Base.{
  some, ◌≡◌, refl, Bool-cases, inl, inr, ◌==◌, string_eq, eq_iff, ap, List, [], ◌∷◌, All, sym,
}
use piace.Model.Value.{Value, null, bool, str, num, arr, obj, Items, nil, cons, Fields, end, field}
use piace.Model.Value.Equal.{HasDistinctKeys, ItemsDistinct, FieldsDistinct, Within, Within-refl}
use piace.Model.Change.{redacted_value}
use piace.Aggregate.{Member}
use piace.Aggregate.Build.{
  is_marker, marker_or, restrict, restrict_items, restrict_fields, restrict_all,
}

mutual
  unfolding restrict HasDistinctKeys is_marker marker_or

  value_refl : (v : Value) → HasDistinctKeys v → restrict v v ≡ some v
  value_refl null h = refl
  value_refl (bool b) h = refl
  value_refl (num n) h = refl
  value_refl (str s) h = elim (Bool-cases (s == redacted_value)) [
    | inl e ↦ rw e (ap (λ t. some (str t)) (sym ((eq_iff s redacted_value).0 e)))
    | inr e ↦ rw e refl
  ]
  value_refl (arr vs) h = rw (items_refl vs h) refl
  value_refl (obj m) h = rw (fields_refl m m (Within-refl m h) h) refl

  items_refl : (vs : Items) → ItemsDistinct vs → restrict_items vs vs ≡ some vs
  items_refl nil h = refl
  items_refl (cons v vs) (h, hs) = rw (value_refl v h, items_refl vs hs) refl

  fields_refl : (m n : Fields) → Within m n → FieldsDistinct m → restrict_fields m n ≡ some m
  fields_refl end n w h = refl
  fields_refl (field k v m) n (w, ws) (h, d, ds) =
      rw (w, value_refl v d, fields_refl m n ws ds) refl

-- The members of a group that all show the same value, with no key twice in any map, show that
-- value together: restriction neither changes it nor fails.
pub restrict_all-same :
    (side : Member → Value) (v : Value) (ms : List Member)
    → HasDistinctKeys v
    → All (λ m. side m ≡ v) ms
    → restrict_all side (some v) ms ≡ some v
unfolding restrict_all
restrict_all-same side v [] d h = refl
restrict_all-same side v (m ∷ ms) d (h, hs) =
    rw (h, value_refl v d) (restrict_all-same side v ms d hs)
