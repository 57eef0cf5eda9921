-- ===== src/Diff/Redact.antt =====
-- internal/diff/redact.go: the pair of values that a report may show.
-- A recursive call at a key of both maps is made on the entry of the first one; the lookup in the
-- second map is its argument. Both results have the keys of their own side.
pub mod Safety
pub mod Secrecy
use piace.Base.{
  String, Bool, true, false, not, ◌&&◌, ◌||◌, Option, none, some, List, [], ◌∷◌, ◌==◌, string_eq,
  nat_eq, if◌then◌else◌, is_some,
}
use piace.Model.Value.{
  Value, null, bool, str, num, arr, obj, Items, nil, cons, Fields, end, field, get, at, map_fields,
  count_items,
}
use piace.Model.Disclosure.{is_sensitive_wrapper, contains_sensitive}
use piace.Model.Change.{redacted_value}

abbrev pub marker : Value
marker = str redacted_value

-- Some key stands on one side only.
unfoldable pub missing_key : Fields → Fields → Bool
missing_key end gs = false
missing_key (field k v fs) gs = not (is_some (get k gs)) || missing_key fs gs

unfoldable pub key_sets_differ : Fields → Fields → Bool
unfolding missing_key
key_sets_differ bm am = missing_key bm am || missing_key am bm

is_wrapper_value : Value → Bool
is_wrapper_value (obj m) = is_sensitive_wrapper m
is_wrapper_value _ = false

abbrev pub both_masked : Value × Value
both_masked = (marker, marker)

-- The last test of the source, reached for anything but two maps or two lists of one length.
unfoldable pub redact_leaf : Value → Value → Value × Value
redact_leaf before after =
    if contains_sensitive before || contains_sensitive after then both_masked else (before, after)

abbrev pub one_sided_secret : Fields → Fields → Bool
one_sided_secret bm am =
    key_sets_differ bm am && (contains_sensitive (obj bm) || contains_sensitive (obj am))

unfoldable mutual
  unfolding redact_leaf is_wrapper_value key_sets_differ is_sensitive_wrapper contains_sensitive
      map_fields get

  pub redact_pair : Value → Value → Value × Value
  redact_pair (obj bm) (obj am) =
      let before = redact_before bm am in
      let after = map_fields (λ k w. (redact_entry bm k w).1) am in
      if is_sensitive_wrapper bm || is_sensitive_wrapper am
      then both_masked
      else if one_sided_secret bm am
      then both_masked
      else (obj before, obj after)
  redact_pair (obj bm) after =
      if is_sensitive_wrapper bm then both_masked else redact_leaf (obj bm) after
  redact_pair (arr bs) (arr as') =
      let items = redact_items bs as' in
      if nat_eq (count_items bs) (count_items as')
      then (arr items.0, arr items.1)
      else redact_leaf (arr bs) (arr as')
  redact_pair before (obj am) =
      if is_sensitive_wrapper am then both_masked else redact_leaf before (obj am)
  redact_pair before after = redact_leaf before after

  pub redact_items : Items → Items → Items × Items
  redact_items nil as' = (nil, nil)
  redact_items (cons b bs) nil = (nil, nil)
  redact_items (cons b bs) (cons a as') =
      let head = redact_pair b a in
      let rest = redact_items bs as' in (cons head.0 rest.0, cons head.1 rest.1)

  -- The new map of the before side.
  pub redact_before : Fields → Fields → Fields
  redact_before end am = end
  redact_before (field k v fs) am = field k (redact_pair v (at k am)).0 (redact_before fs am)

  -- The pair at one key of the after side: with `bm[k]`, or with `nil` where that is missing.
  pub redact_entry : Fields → String → Value → Value × Value
  redact_entry end k w = if is_wrapper_value w then both_masked else redact_leaf null w
  redact_entry (field j v fs) k w =
      let here = redact_pair v w in
      let later = redact_entry fs k w in if j == k then here else later
