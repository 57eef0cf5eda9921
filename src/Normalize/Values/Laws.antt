-- ===== src/Normalize/Values/Laws.antt =====
-- Sensitive wrappers in canonical values (internal/normalize/value.go).
use piace.Base.{
  String, Bool, true, false, ◌&&◌, not, some, ◌==◌, string_eq, if◌then◌else◌, is_some, ◌⊎◌, inl,
  inr, ◌≡◌, refl, arith, Bool-cases, subst,
}
use piace.Model.Value.{
  Value, null, bool, str, num, arr, obj, Items, nil, cons, Fields, end, field, get,
}
use piace.Model.Disclosure.{is_sensitive_wrapper, names_sensitive, pcore_type_key}
use piace.Normalize.Values.{
  Numbers, ValueError, is_malformed_wrapper, number_value, array_value, object_value, cons_value,
  field_value, canonicalize_value, canonicalize_items, canonicalize_fields,
}

-- Every Sensitive wrapper in the value holds a value.
unfoldable mutual
  unfolding is_malformed_wrapper

  pub is_wrapped : Value → Bool
  is_wrapped (obj m) = not (is_malformed_wrapper m) && fields_wrapped m
  is_wrapped (arr vs) = items_wrapped vs
  is_wrapped null = true
  is_wrapped (bool b) = true
  is_wrapped (str s) = true
  is_wrapped (num s) = true

  pub items_wrapped : Items → Bool
  items_wrapped nil = true
  items_wrapped (cons v vs) = is_wrapped v && items_wrapped vs

  pub fields_wrapped : Fields → Bool
  fields_wrapped end = true
  fields_wrapped (field k v fs) = is_wrapped v && fields_wrapped fs

abbrev names : Value → Bool
names v = names_sensitive (some v)

-- The value is wrapped, and names the wrapper exactly if the given one does.
abbrev Kept : Value → ValueError ⊎ Value → Type 0
Kept v (inl e) = Unit
Kept v (inr w) = (is_wrapped w ≡ true) × (names w ≡ names v)

abbrev ItemsKept : ValueError ⊎ Items → Type 0
ItemsKept (inl e) = Unit
ItemsKept (inr vs) = items_wrapped vs ≡ true

abbrev FieldsKept : Fields → ValueError ⊎ Fields → Type 0
FieldsKept fs (inl e) = Unit
FieldsKept fs (inr gs) =
    (fields_wrapped gs ≡ true)
    × ((k : String)
        → (is_some (get k gs) ≡ is_some (get k fs))
          × (names_sensitive (get k gs) ≡ names_sensitive (get k fs)))

number_value-Kept : (s : String) (r : ValueError ⊎ String) → Kept (num s) (number_value r)
unfolding number_value is_wrapped
number_value-Kept s (inl e) = tt
number_value-Kept s (inr t) = (refl, refl)

array_value-Kept :
    (vs : Items) (r : ValueError ⊎ Items) → ItemsKept r → Kept (arr vs) (array_value r)
unfolding array_value is_wrapped
array_value-Kept vs (inl e) h = tt
array_value-Kept vs (inr ws) h = (h, refl)

object_value-Kept :
    (fs : Fields) (r : ValueError ⊎ Fields)
    → is_malformed_wrapper fs ≡ false
    → FieldsKept fs r
    → Kept (obj fs) (object_value r)
unfolding object_value is_wrapped is_malformed_wrapper is_sensitive_wrapper
object_value-Kept fs (inl e) m h = tt
object_value-Kept fs (inr gs) m (w, h) =
    let (_, p) = h pcore_type_key in let (q, _) = h "__pvalue" in (ground (arith, m, w, p, q), refl)

cons_value-Kept :
    (v : Value) (r : ValueError ⊎ Value) (rs : ValueError ⊎ Items)
    → Kept v r
    → ItemsKept rs
    → ItemsKept (cons_value r rs)
unfolding cons_value is_wrapped
cons_value-Kept v (inl e) rs h k = tt
cons_value-Kept v (inr w) (inl e) h k = tt
cons_value-Kept v (inr w) (inr ws) (h, _) k = ground (arith, h, k)

field_value-Kept :
    (k : String) (v : Value) (fs : Fields) (r : ValueError ⊎ Value) (rs : ValueError ⊎ Fields)
    → Kept v r
    → FieldsKept fs rs
    → FieldsKept (field k v fs) (field_value k r rs)
unfolding field_value is_wrapped get
field_value-Kept k v fs (inl e) rs h g = tt
field_value-Kept k v fs (inr w) (inl e) h g = tt
field_value-Kept k v fs (inr w) (inr gs) (h, n) (g, p) = (
  ground (arith, h, g),
  λ j. elim (Bool-cases (k == j)) [ inl e ↦ rw e (refl, n) | inr e ↦ rw e (p j) ],
)

if-Kept :
    (m : Fields) (b : Bool) (r : ValueError ⊎ Value) (e : ValueError)
    → (b ≡ false → Kept (obj m) r)
    → Kept (obj m) (if b then inl e else r)
if-Kept m true r e h = tt
if-Kept m false r e h = h refl

mutual
  unfolding canonicalize_value canonicalize_items canonicalize_fields is_wrapped get

  canonicalize_value-Kept : (n : Numbers) (v : Value) → Kept v (canonicalize_value n v)
  canonicalize_value-Kept n null = (refl, refl)
  canonicalize_value-Kept n (bool b) = (refl, refl)
  canonicalize_value-Kept n (str s) = (refl, refl)
  canonicalize_value-Kept n (num s) = number_value-Kept s (n s)
  canonicalize_value-Kept n (arr vs) =
      array_value-Kept vs (canonicalize_items n vs) (canonicalize_items-Kept n vs)
  canonicalize_value-Kept n (obj m) =
      if-Kept m (is_malformed_wrapper m) (object_value (canonicalize_fields n m)) ValueError.invalid
        (λ h. object_value-Kept m (canonicalize_fields n m) h (canonicalize_fields-Kept n m))

  canonicalize_items-Kept : (n : Numbers) (vs : Items) → ItemsKept (canonicalize_items n vs)
  canonicalize_items-Kept n nil = refl
  canonicalize_items-Kept n (cons v vs) =
      cons_value-Kept v (canonicalize_value n v) (canonicalize_items n vs)
        (canonicalize_value-Kept n v) (canonicalize_items-Kept n vs)

  canonicalize_fields-Kept : (n : Numbers) (fs : Fields) → FieldsKept fs (canonicalize_fields n fs)
  canonicalize_fields-Kept n end = (refl, λ k. (refl, refl))
  canonicalize_fields-Kept n (field k v fs) =
      field_value-Kept k v fs (canonicalize_value n v) (canonicalize_fields n fs)
        (canonicalize_value-Kept n v) (canonicalize_fields-Kept n fs)

-- In a value that is accepted, at every depth, each Sensitive wrapper holds a value.
pub canonicalize_value-wraps :
    (n : Numbers) (v w : Value) → canonicalize_value n v ≡ inr w → is_wrapped w ≡ true
canonicalize_value-wraps n v w h = (subst (Kept v) h (canonicalize_value-Kept n v)).0
