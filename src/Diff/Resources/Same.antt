-- ===== src/Diff/Resources/Same.antt =====
-- A catalog compared with itself.
use piace.Base.{
  String, Bool, true, false, Option, none, some, List, [], ◌∷◌, ◌==◌, string_eq, if◌then◌else◌,
  is_some, lookup, ◌≡◌, refl, ap, inl, inr, Bool-cases, All, subst,
}
use piace.Model.Value.{
  Value, null, bool, str, num, arr, obj, Fields, end, field, get, at, map_fields,
}
use piace.Model.Value.Equal.{HasDistinctKeys, FieldsDistinct, deep_equal_refl}
use piace.Model.Disclosure.{is_sensitive_wrapper}
use piace.Model.Catalog.{
  ResourceIdentity, identity_eq, Resource, ContentContext, FileContentState, FileContentEvidence,
}
use piace.Model.Diagnostic.{Diagnostic}
use piace.FileContent.{Side, unwrap, unwrap_pvalue, parameters}
use piace.FileContent.Evidence.{resolve_file_content_evidence}
use piace.FileContent.Evidence.Laws.{IsQuiet, resolve_file_content_evidence-IsQuiet}
use piace.Diff.Fidelity.{Fidelity}
use piace.Diff.Resources.Identity.{if-some, if-other}
use piace.Diff.Resources.{
  Index, Services, Findings, nothing, compare_parameter, compare_parameters, plain_names,
  plain_findings, union_parameter_names, resolves_content, with_content, content_row,
  content_findings, is_reportable, diff_parameters, side_of, compare_resource, diff_each,
  diff_resources, index_resources, union_identities,
}

at-HasDistinctKeys : (k : String) (m : Fields) → FieldsDistinct m → HasDistinctKeys (at k m)
unfolding get HasDistinctKeys
at-HasDistinctKeys k end h = tt
at-HasDistinctKeys k (field j v fs) (_, h, hs) = elim (Bool-cases (j == k)) [
  | inl e ↦ rw e h
  | inr e ↦ rw e (at-HasDistinctKeys k fs hs)
]

if-distinct :
    (b : Bool) (v w : Value)
    → HasDistinctKeys v
    → HasDistinctKeys w
    → HasDistinctKeys (if b then v else w)
if-distinct true v w h k = h
if-distinct false v w h k = k

mutual
  unfolding HasDistinctKeys unwrap

  unwrap-HasDistinctKeys : (v : Value) → HasDistinctKeys v → HasDistinctKeys (unwrap v)
  unwrap-HasDistinctKeys null h = tt
  unwrap-HasDistinctKeys (bool b) h = tt
  unwrap-HasDistinctKeys (str s) h = tt
  unwrap-HasDistinctKeys (num n) h = tt
  unwrap-HasDistinctKeys (arr vs) h = h
  unwrap-HasDistinctKeys (obj m) h =
      if-distinct (is_sensitive_wrapper m) (unwrap_pvalue m) (obj m) (pvalue-distinct m h) h

  pvalue-distinct : (m : Fields) → FieldsDistinct m → HasDistinctKeys (unwrap_pvalue m)
  pvalue-distinct end h = tt
  pvalue-distinct (field j v fs) (_, h, hs) =
      if-distinct (j == "__pvalue") (unwrap v) (unwrap_pvalue fs) (unwrap-HasDistinctKeys v h)
        (pvalue-distinct fs hs)

at-unwrapped :
    (k : String) (m : Fields)
    → FieldsDistinct m
    → HasDistinctKeys (at k (map_fields (λ j v. unwrap v) m))
unfolding get map_fields HasDistinctKeys
at-unwrapped k end h = tt
at-unwrapped k (field j v fs) (_, h, hs) = elim (Bool-cases (j == k)) [
  | inl e ↦ rw e (unwrap-HasDistinctKeys v h)
  | inr e ↦ rw e (at-unwrapped k fs hs)
]

quiet-is_reportable : (state : FileContentState) → IsQuiet state → is_reportable state ≡ false
unfolding is_reportable
quiet-is_reportable FileContentState.unchanged h = refl
quiet-is_reportable FileContentState.indeterminate h = refl
quiet-is_reportable FileContentState.not_managed h = refl
quiet-is_reportable FileContentState.added h = absurd h
quiet-is_reportable FileContentState.removed h = absurd h
quiet-is_reportable FileContentState.changed h = absurd h
quiet-is_reportable FileContentState.reference_changed h = absurd h

module _ (s : Services) (f : Fidelity) (identity : ResourceIdentity) where
  compare_parameters-same :
      (m : Fields) (names : List String)
      → FieldsDistinct m
      → compare_parameters s f identity m m names ≡ nothing
  unfolding compare_parameters compare_parameter
  compare_parameters-same m [] h = refl
  compare_parameters-same m (name ∷ names) h =
      rw
        (
          deep_equal_refl (at name m) (at-HasDistinctKeys name m h),
          compare_parameters-same m names h,
        )
        refl

  no_row :
      (before after : Fields) (e : FileContentEvidence × Option Diagnostic)
      → IsQuiet e.0.state
      → (content_findings identity before after e).0 ≡ []
  unfolding content_findings content_row is_reportable
  no_row before after (e, d) h = rw (quiet-is_reportable e.state h) refl

  with_content-none :
      (b : Bool) (plain content : Findings)
      → plain.0 ≡ []
      → content.0 ≡ []
      → (with_content b plain content).0 ≡ []
  unfolding with_content
  with_content-none true plain content h k = rw (h, k) refl
  with_content-none false plain content h k = h

  diff_parameters-same :
      (side : Side)
      → FieldsDistinct side.resource.parameters
      → (diff_parameters s f identity side side).0 ≡ []
  unfolding diff_parameters plain_findings parameters
  diff_parameters-same side h =
      let m = side.resource.parameters in
      let evidence =
        resolve_file_content_evidence s.hash s.options s.certname identity side side s.retriever in
      with_content-none (resolves_content identity side.resource side.resource)
        (plain_findings s f identity m m) (content_findings identity m m evidence)
        (ap (λ x. x.0)
          (compare_parameters-same m (plain_names identity (union_parameter_names m m)) h))
        (no_row m m evidence (
          resolve_file_content_evidence-IsQuiet s.hash s.options s.certname identity side
            s.retriever
            (deep_equal_refl (at "source" (parameters side.resource)) (at-unwrapped "source" m h))))

IsCanonical : Index → Type 0
IsCanonical = All (λ (identity, r). FieldsDistinct r.parameters)

index_resources-IsCanonical :
    (rs : List Resource)
    → All (λ r. FieldsDistinct r.parameters) rs
    → IsCanonical (index_resources rs)
unfolding IsCanonical index_resources
index_resources-IsCanonical [] h = tt
index_resources-IsCanonical (r ∷ rs) (h, hs) =
    elim (Bool-cases (is_some (lookup r.identity (index_resources rs)))) [
      | inl e ↦ rw e (index_resources-IsCanonical rs hs)
      | inr e ↦ rw e (h, index_resources-IsCanonical rs hs)
    ]

lookup-FieldsDistinct :
    (m : Index) (identity : ResourceIdentity) (r : Resource)
    → IsCanonical m
    → lookup identity m ≡ some r
    → FieldsDistinct r.parameters
unfolding IsCanonical
lookup-FieldsDistinct [] identity r own h = absurd cc
lookup-FieldsDistinct ((j, v) ∷ m) identity r (d, own) h = elim (Bool-cases (j == identity)) [
  | inl e ↦
      subst (λ x. FieldsDistinct x.parameters) (if-some (j == identity) v r (lookup identity m) e h)
        d
  | inr e ↦
      lookup-FieldsDistinct m identity r own
        (if-other (j == identity) v (lookup identity m) (some r) e h)
]

module _ (s : Services) (f : Fidelity) (context : ContentContext) where
  compare_resource-same :
      (identity : ResourceIdentity) (o : Option Resource)
      → ((r : Resource) → o ≡ some r → FieldsDistinct r.parameters)
      → (compare_resource s f context context identity o o).0 ≡ []
  unfolding compare_resource side_of
  compare_resource-same identity none h = refl
  compare_resource-same identity (some r) h =
      diff_parameters-same s f identity (side_of r context) (h r refl)

  module _ (m : Index) (canonical : IsCanonical m) where
    diff_each-same : (ids : List ResourceIdentity) → (diff_each s f context context m m ids).0 ≡ []
    unfolding diff_each
    diff_each-same [] = refl
    diff_each-same (i ∷ ids) =
        rw
          (
            compare_resource-same i (lookup i m) (λ r. lookup-FieldsDistinct m i r canonical),
            diff_each-same ids,
          )
          refl

  -- A list of resources whose maps hold no key twice has no difference to itself.
  pub diff_resources-same :
      (rs : List Resource)
      → All (λ r. FieldsDistinct r.parameters) rs
      → (diff_resources s f context context (index_resources rs) (index_resources rs)).0 ≡ []
  unfolding diff_resources
  diff_resources-same rs h =
      diff_each-same (index_resources rs) (index_resources-IsCanonical rs h)
        (union_identities (index_resources rs) (index_resources rs))
