-- ===== src/Diff/Resources/Parameters.antt =====
-- Which parameters of a resource in both catalogs are reported.
use piace.Base.{
  any-append, String, Bool, true, false, not, ◌&&◌, ◌||◌, Option, List, [], ◌∷◌, ◌++◌, any, ◌==◌,
  string_eq, is_some, contains, ◌≡◌, refl, ◌∙◌, ap, arith, inl, inr, Bool-cases, Option-cases,
  &&-eq-true, contains-append, eq_iff, keep,
}
use piace.Base.Order.{str_le}
use piace.Base.Sort.{sort, any-sort}
use piace.Base.Distinct.{distinct, contains-distinct}
use piace.Model.Value.{Value, Fields, end, field, get, at, keys}
use piace.Model.Value.Equal.{deep_equal, bool_eq}
use piace.Model.Disclosure.{is_content_bearing}
use piace.Model.Catalog.{ResourceIdentity, Resource, FileContentEvidence}
use piace.Model.Diagnostic.{Diagnostic}
use piace.FileContent.{Side}
use piace.FileContent.Evidence.{resolve_file_content_evidence}
use piace.Diff.Raw.{RawChange}
use piace.Diff.Fidelity.{Fidelity, equal_at}
use piace.Diff.Resources.{
  Services, Findings, union_parameter_names, differing, raw_parameter_change, compare_parameter,
  compare_parameters, is_file, plain_names, plain_findings, resolves_content, with_content,
  content_row, content_findings, is_reportable, diff_parameters,
}

any-flip : (k : String) (names : List String) → any (λ n. n == k) names ≡ contains k names
any-flip k [] = refl
any-flip k (n ∷ names) = ap (λ b. (n == k) || b) (any-flip k names)

contains-keys : (k : String) (m : Fields) → contains k (keys m) ≡ is_some (get k m)
unfolding get
contains-keys k end = refl
contains-keys k (field j v fs) = elim (Bool-cases (j == k)) [
  | inl e ↦ rw e (refl)
  | inr e ↦ rw e (contains-keys k fs)
]

contains-union_parameter_names :
    (k : String) (before after : Fields)
    → contains k (union_parameter_names before after)
      ≡ (is_some (get k before) || is_some (get k after))
unfolding union_parameter_names
contains-union_parameter_names k before after = ground (
  arith,
  any-flip k (sort str_le (distinct [] (keys before ++ keys after))),
  any-flip k (distinct [] (keys before ++ keys after)),
  any-sort str_le (λ n. n == k) (distinct [] (keys before ++ keys after)),
  contains-distinct k [] (keys before ++ keys after),
  contains-append k (keys before) (keys after),
  contains-keys k before,
  contains-keys k after,
)

contains-keep :
    (p : String → Bool) (k : String) (names : List String)
    → contains k (keep p names) ≡ (contains k names && p k)
contains-keep p k [] = refl
contains-keep p k (name ∷ names) =
    let same : (name == k) ≡ true → p name ≡ p k = λ q. ap p ((eq_iff name k).0 q) in
    elim (Bool-cases (p name)) [
      | inl e ↦ rw e (ground (arith, contains-keep p k names, e, same))
      | inr e ↦ rw e (ground (arith, contains-keep p k names, e, same))
    ]

&&-second : (a b : Bool) → (a && b) ≡ false → a ≡ true → b ≡ false
&&-second a b h e = ground (arith, h, e)

share-test :
    (e c d1 d2 : Bool)
    → (e ≡ true → d1 ≡ d2)
    → ((e && not d1) || (c && not d2)) ≡ ((e || c) && not d2)
share-test true c d1 d2 h = ground (arith, h refl)
share-test false c d1 d2 h = refl

-- The parameter has a row.
abbrev pub reports_parameter : String → List RawChange → Bool
reports_parameter k = any (λ c. c.parameter == k)

module _ (s : Services) (f : Fidelity) (identity : ResourceIdentity) (k : String)
    (same : bool_eq f.before f.after ≡ true) where
  reports-compare_parameter :
      (name : String) (bv av : Value)
      → reports_parameter k (compare_parameter s f identity name bv av).0
        ≡ ((name == k) && not (deep_equal bv av))
  unfolding compare_parameter differing raw_parameter_change equal_at
  reports-compare_parameter name bv av = elim (Bool-cases (deep_equal bv av)) [
    | inl e ↦ rw e (ground arith)
    | inr e ↦ rw (e, same) (ground arith)
  ]

  module _ (before after : Fields) where
    reports-both :
        (name : String) (names : List String) (here rest : Bool) {all : Bool}
        → all ≡ (here || rest)
        → here ≡ ((name == k) && not (deep_equal (at name before) (at name after)))
        → rest ≡ (contains k names && not (deep_equal (at k before) (at k after)))
        → all ≡ ((name == k || contains k names) && not (deep_equal (at k before) (at k after)))
    reports-both name names here rest split h r = ground (
      arith,
      split,
      h,
      r,
      share-test (name == k) (contains k names) (deep_equal (at name before) (at name after))
          (deep_equal (at k before) (at k after))
          (λ e. ap (λ n. deep_equal (at n before) (at n after)) ((eq_iff name k).0 e)),
    )

    reports-compare_parameters :
        (names : List String)
        → reports_parameter k (compare_parameters s f identity before after names).0
          ≡ (contains k names && not (deep_equal (at k before) (at k after)))
    unfolding compare_parameters
    reports-compare_parameters [] = refl
    reports-compare_parameters (name ∷ names) =
        let here = (compare_parameter s f identity name (at name before) (at name after)).0 in
        let rest = (compare_parameters s f identity before after names).0 in
        reports-both name names (reports_parameter k here) (reports_parameter k rest)
          (any-append (λ c. c.parameter == k) here rest)
          (reports-compare_parameter name (at name before) (at name after))
          (reports-compare_parameters names)

    contains-plain_names :
        (names : List String)
        → contains k (plain_names identity names)
          ≡ (contains k names && not (is_file identity && is_content_bearing k))
    unfolding plain_names
    contains-plain_names names =
        contains-keep (λ name. not (is_file identity && is_content_bearing name)) k names

    -- A name that neither map has reads as `nil` in both.
    unlisted :
        (is_some (get k before) || is_some (get k after)) ≡ false
        → deep_equal (at k before) (at k after) ≡ true
    unfolding deep_equal
    unlisted h = elim (Option-cases (get k before)) [
      | inl e ↦ elim (Option-cases (get k after)) [
        | inl g ↦ rw (e, g) (refl)
        | inr (v, g) ↦ absurd (ground (arith, h, g))
      ]
      | inr (v, e) ↦ absurd (ground (arith, h, e))
    ]

    reports-plain_findings :
        (is_file identity && is_content_bearing k) ≡ false
        → reports_parameter k (plain_findings s f identity before after).0
          ≡ not (deep_equal (at k before) (at k after))
    unfolding plain_findings
    reports-plain_findings plain = ground (
      arith,
      reports-compare_parameters (plain_names identity (union_parameter_names before after)),
      contains-plain_names (union_parameter_names before after),
      contains-union_parameter_names k before after,
      unlisted,
      plain,
    )

    content_findings-other :
        is_content_bearing k ≡ false
        → (e : FileContentEvidence × Option Diagnostic)
        → reports_parameter k (content_findings identity before after e).0 ≡ false
    unfolding content_findings content_row is_content_bearing
    content_findings-other other (e, d) = elim (Bool-cases (is_reportable e.state)) [
      | inl r ↦ rw r (ground (arith, other))
      | inr r ↦ rw r refl
    ]

    with_content-other :
        (b : Bool) (plain content : Findings)
        → (b ≡ true → reports_parameter k content.0 ≡ false)
        → reports_parameter k (with_content b plain content).0 ≡ reports_parameter k plain.0
    unfolding with_content
    with_content-other false plain content h = refl
    with_content-other true plain content h =
        ground (arith, any-append (λ c. c.parameter == k) plain.0 content.0, h refl)

resolves_content-is_file :
    (identity : ResourceIdentity) (b a : Resource)
    → resolves_content identity b a ≡ true
    → is_file identity ≡ true
unfolding resolves_content
resolves_content-is_file identity b a h = (&&-eq-true (is_file identity) _ h).0

-- Of a resource that both catalogs have, at one fidelity, a parameter has a row exactly if its
-- values differ, where a missing value is undef; the content-bearing parameters of a file excepted.
pub diff_parameters-reports :
    (s : Services) (f : Fidelity) (identity : ResourceIdentity) (before after : Side) (k : String)
    → bool_eq f.before f.after ≡ true
    → (is_file identity && is_content_bearing k) ≡ false
    → reports_parameter k (diff_parameters s f identity before after).0
      ≡ not (deep_equal (at k before.resource.parameters) (at k after.resource.parameters))
unfolding diff_parameters
diff_parameters-reports s f identity before after k same plain =
    let bp = before.resource.parameters in
    let ap = after.resource.parameters in
    let evidence =
      resolve_file_content_evidence s.hash s.options s.certname identity before after s.retriever in
    with_content-other s f identity k same bp ap
      (resolves_content identity before.resource after.resource) (plain_findings s f identity bp ap)
      (content_findings identity bp ap evidence)
      (λ h.
        content_findings-other s f identity k same bp ap
          (&&-second (is_file identity) (is_content_bearing k) plain
            (resolves_content-is_file identity before.resource after.resource h))
          evidence)
    ∙ reports-plain_findings s f identity k same bp ap plain
