-- ===== src/Diff/Redact/Safety.antt =====
-- Sensitive wrappers in a redacted pair.
use piace.Base.{
  String, Bool, true, false, ◌||◌, some, ◌==◌, string_eq, ◌≡◌, refl, ◌⊎◌, inl, inr, nat_eq,
  if◌then◌else◌, arith, Bool-cases, ||-eq-false,
}
use piace.Model.Value.{
  Value, null, str, arr, obj, Items, nil, cons, Fields, end, field, get, at, map_fields,
  count_items,
}
use piace.Model.Disclosure.{
  is_sensitive_wrapper, contains_sensitive, any_field_sensitive, names_sensitive, pcore_type_key,
}
use piace.Diff.Redact.{
  both_masked, redact_leaf, one_sided_secret, is_wrapper_value, redact_pair, redact_items,
  redact_before, redact_entry,
}

-- Neither value of a pair holds a wrapper.
abbrev pub IsSafe : Value × Value → Type 0
IsSafe p = (contains_sensitive p.0 ≡ false) × (contains_sensitive p.1 ≡ false)

redact_leaf-IsSafe : (v w : Value) → IsSafe (redact_leaf v w)
unfolding redact_leaf
redact_leaf-IsSafe v w = elim (Bool-cases (contains_sensitive v || contains_sensitive w)) [
  | inl e ↦ rw e (unfold contains_sensitive in (refl, refl))
  | inr e ↦ rw e (||-eq-false _ _ e)
]

-- Redaction never makes a text that was not there, but the marker.
IsKept : Value → Value → Type 0
IsKept before after = (s : String) → after ≡ str s → (s ≡ "<redacted>") ⊎ (before ≡ str s)

redact_leaf-IsKept : (v w : Value) → IsKept v (redact_leaf v w).0 × IsKept w (redact_leaf v w).1
unfolding IsKept redact_leaf
redact_leaf-IsKept v w = (λ s h. ground arith, λ s h. ground arith)

masked_maps-IsKept :
    (b c : Bool) (bm am fs gs : Fields)
    → let p = if b then both_masked else if c then both_masked else (obj fs, obj gs) in
      IsKept (obj bm) p.0 × IsKept (obj am) p.1
unfolding IsKept
masked_maps-IsKept b c bm am fs gs = (λ s h. ground arith, λ s h. ground arith)

masked_leaf-IsKept :
    (b : Bool) (w : Value) → IsKept w (if b then both_masked else redact_leaf null w).1
unfolding IsKept
masked_leaf-IsKept true w = λ s h. inl (ground arith)
masked_leaf-IsKept false w = (redact_leaf-IsKept null w).1

IsKept-if :
    (b : Bool) (w : Value) (p q : Value × Value)
    → IsKept w p.1
    → IsKept w q.1
    → IsKept w (if b then p else q).1
IsKept-if true w p q h k = h
IsKept-if false w p q h k = k

redact_pair-IsKept : (v w : Value) → IsKept v (redact_pair v w).0 × IsKept w (redact_pair v w).1
unfolding IsKept redact_pair
redact_pair-IsKept (obj bm) (obj am) = masked_maps-IsKept _ _ bm am _ _
redact_pair-IsKept (obj bm) w = (λ s h. ground arith, λ s h. ground arith)
redact_pair-IsKept (arr bs) (arr as') = (λ s h. ground arith, λ s h. ground arith)
redact_pair-IsKept v (obj am) = (λ s h. ground arith, λ s h. ground arith)
redact_pair-IsKept v w = (λ s h. ground arith, λ s h. ground arith)

redact_entry-IsKept : (bm : Fields) (k : String) (w : Value) → IsKept w (redact_entry bm k w).1
unfolding redact_entry
redact_entry-IsKept end k w = masked_leaf-IsKept (is_wrapper_value w) w
redact_entry-IsKept (field j v bm) k w =
    IsKept-if (j == k) w _ _ (redact_pair-IsKept v w).1 (redact_entry-IsKept bm k w)

names_sensitive-IsKept :
    (v v' : Value)
    → IsKept v v'
    → names_sensitive (some v) ≡ false
    → names_sensitive (some v') ≡ false
unfolding IsKept
names_sensitive-IsKept v (str s) kept h = text_case (kept s refl)
  where
    text_case : (s ≡ "<redacted>") ⊎ (v ≡ str s) → (s == "Sensitive") ≡ false
    text_case (inl e) = rw e
    text_case (inr e) = rw e at h
names_sensitive-IsKept v _ kept h = refl

redact_before-wrapper :
    (bm am : Fields)
    → is_sensitive_wrapper bm ≡ false
    → is_sensitive_wrapper (redact_before bm am) ≡ false
unfolding is_sensitive_wrapper redact_before get
redact_before-wrapper end am h = refl
redact_before-wrapper (field j v bm) am h = elim (Bool-cases (j == pcore_type_key)) [
  | inl e ↦ rw e (names_sensitive-IsKept v _ (redact_pair-IsKept v (at j am)).0 (rw e at h))
  | inr e ↦ rw e (redact_before-wrapper bm am (rw e at h))
]

map_fields-wrapper :
    (bm am : Fields)
    → is_sensitive_wrapper am ≡ false
    → is_sensitive_wrapper (map_fields (λ k w. (redact_entry bm k w).1) am) ≡ false
unfolding is_sensitive_wrapper map_fields get
map_fields-wrapper bm end h = refl
map_fields-wrapper bm (field j w am) h = elim (Bool-cases (j == pcore_type_key)) [
  | inl e ↦ rw e (names_sensitive-IsKept w _ (redact_entry-IsKept bm j w) (rw e at h))
  | inr e ↦ rw e (map_fields-wrapper bm am (rw e at h))
]

map_fields-safe :
    (f : String → Value → Value) (am : Fields)
    → ((k : String) (w : Value) → contains_sensitive (f k w) ≡ false)
    → any_field_sensitive (map_fields f am) ≡ false
unfolding contains_sensitive map_fields
map_fields-safe f end h = refl
map_fields-safe f (field k w am) h = rw h (map_fields-safe f am h)

IsSafe-if : (b : Bool) (p q : Value × Value) → IsSafe p → IsSafe q → IsSafe (if b then p else q)
IsSafe-if true p q h k = h
IsSafe-if false p q h k = k

both_masked-IsSafe : IsSafe both_masked
unfolding contains_sensitive
both_masked-IsSafe = (refl, refl)

-- The maps of both sides are rebuilt only where neither is a wrapper.
maps-IsSafe :
    (b w c : Bool) (fs gs : Fields)
    → (b ≡ false → w ≡ false → contains_sensitive (obj fs) ≡ false)
    → (b ≡ false → w ≡ false → contains_sensitive (obj gs) ≡ false)
    → IsSafe (if b || w then both_masked else if c then both_masked else (obj fs, obj gs))
maps-IsSafe true w c fs gs h k = both_masked-IsSafe
maps-IsSafe false true c fs gs h k = both_masked-IsSafe
maps-IsSafe false false true fs gs h k = both_masked-IsSafe
maps-IsSafe false false false fs gs h k = (h refl refl, k refl refl)

obj-safe :
    (fs : Fields)
    → is_sensitive_wrapper fs ≡ false
    → any_field_sensitive fs ≡ false
    → contains_sensitive (obj fs) ≡ false
unfolding contains_sensitive
obj-safe fs h k = rw (h, k)

mutual
  unfolding redact_pair

  pair-IsSafe : (v w : Value) → IsSafe (redact_pair v w)
  pair-IsSafe (obj bm) (obj am) =
      maps-IsSafe (is_sensitive_wrapper bm) (is_sensitive_wrapper am) (one_sided_secret bm am)
        (redact_before bm am) (map_fields (λ k w. (redact_entry bm k w).1) am)
        (λ h k. obj-safe (redact_before bm am) (redact_before-wrapper bm am h) (before_safe bm am))
        (λ h k.
          obj-safe (map_fields (λ k w. (redact_entry bm k w).1) am) (map_fields-wrapper bm am k)
            (map_fields-safe (λ k w. (redact_entry bm k w).1) am (λ k w. (entry-IsSafe bm k w).1)))
  pair-IsSafe (obj bm) w =
      IsSafe-if (is_sensitive_wrapper bm) both_masked (redact_leaf (obj bm) w) both_masked-IsSafe
        (redact_leaf-IsSafe (obj bm) w)
  pair-IsSafe (arr bs) (arr as') =
      IsSafe-if (nat_eq (count_items bs) (count_items as')) _ _ (items-IsSafe bs as')
        (redact_leaf-IsSafe (arr bs) (arr as'))
  pair-IsSafe v (obj am) =
      IsSafe-if (is_sensitive_wrapper am) both_masked (redact_leaf v (obj am)) both_masked-IsSafe
        (redact_leaf-IsSafe v (obj am))
  pair-IsSafe v w = redact_leaf-IsSafe v w

  items-IsSafe :
      (bs as' : Items) → IsSafe (arr (redact_items bs as').0, arr (redact_items bs as').1)
  items-IsSafe nil as' = (refl, refl)
  items-IsSafe (cons b bs) nil = (refl, refl)
  items-IsSafe (cons b bs) (cons a as') =
      let (first, second) = pair-IsSafe b a in
      let (firsts, seconds) = items-IsSafe bs as' in (rw first firsts, rw second seconds)

  before_safe : (bm am : Fields) → any_field_sensitive (redact_before bm am) ≡ false
  before_safe end am = refl
  before_safe (field k v bm) am = rw ((pair-IsSafe v (at k am)).0) (before_safe bm am)

  entry-IsSafe : (bm : Fields) (k : String) (w : Value) → IsSafe (redact_entry bm k w)
  entry-IsSafe end k w =
      IsSafe-if (is_wrapper_value w) both_masked (redact_leaf null w) both_masked-IsSafe
        (redact_leaf-IsSafe null w)
  entry-IsSafe (field j v bm) k w =
      IsSafe-if (j == k) (redact_pair v w) (redact_entry bm k w) (pair-IsSafe v w)
        (entry-IsSafe bm k w)

-- Neither value that redaction lets into a report holds a Sensitive wrapper at any depth, whatever
-- the two catalogs hold.
pub redact_pair-IsSafe : (before after : Value) → IsSafe (redact_pair before after)
redact_pair-IsSafe before after = pair-IsSafe before after
