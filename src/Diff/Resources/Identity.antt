-- ===== src/Diff/Resources/Identity.antt =====
-- Which resource a raw change is of.
use piace.Base.{
  String, Bool, true, false, not, Option, none, some, List, [], ◌∷◌, ◌==◌, string_eq, if◌then◌else◌,
  is_some, lookup, contains, ◌≡◌, refl, sym, ◌∙◌, ap, arith, inl, inr, Bool-cases, beq-cases,
  beq_refl, All, All-append, All-map,
}
use piace.Model.Value.{Value, Fields, at}
use piace.Model.Catalog.{
  ResourceIdentity, identity_eq, Resource, ContentContext, FileContentEvidence,
}
use piace.Model.Change.{ChangeKind}
use piace.Model.Diagnostic.{Diagnostic}
use piace.FileContent.{Side, needs_evidence}
use piace.FileContent.Evidence.{resolve_membership_evidence, resolve_file_content_evidence}
use piace.Diff.Raw.{RawChange}
use piace.Diff.Fidelity.{Fidelity, equal_at}
use piace.Model.Value.Equal.{deep_equal}
use piace.Diff.Resources.{
  Index, Services, Findings, index_resources, union_identities, compare_parameter,
  compare_parameters, differing, raw_parameter_change, content_row, content_findings,
  diff_parameters, is_reportable, membership_row, with_evidence, with_content, plain_findings,
  resolves_content, plain_names, union_parameter_names, membership_change, side_of,
  compare_resource, diff_each, diff_resources,
}

module _ (identity : ResourceIdentity) where
  -- Every change is of this resource.
  abbrev AllOf : List RawChange → Type 0
  AllOf = All (λ c. c.identity ≡ identity)

  differing-AllOf :
      (s : Services) (name : String) (bv av : Value) (r : Bool × String)
      → AllOf (differing s identity name bv av r).0
  unfolding differing raw_parameter_change
  differing-AllOf s name bv av (true, t) = tt
  differing-AllOf s name bv av (false, t) = (refl, tt)

  compare_parameter-AllOf :
      (s : Services) (f : Fidelity) (name : String) (bv av : Value)
      → AllOf (compare_parameter s f identity name bv av).0
  unfolding compare_parameter
  compare_parameter-AllOf s f name bv av = elim (Bool-cases (deep_equal bv av)) [
    | inl e ↦ rw e tt
    | inr e ↦ rw e (differing-AllOf s name bv av (equal_at f bv av))
  ]

  compare_parameters-AllOf :
      (s : Services) (f : Fidelity) (before after : Fields) (names : List String)
      → AllOf (compare_parameters s f identity before after names).0
  unfolding compare_parameters
  compare_parameters-AllOf s f before after [] = tt
  compare_parameters-AllOf s f before after (name ∷ names) =
      All-append _ _ _ (compare_parameter-AllOf s f name (at name before) (at name after))
        (compare_parameters-AllOf s f before after names)

  content_row-AllOf :
      (before after : Fields) (e : FileContentEvidence)
      → AllOf (content_row identity before after e)
  unfolding content_row
  content_row-AllOf before after e = elim (Bool-cases (is_reportable e.state)) [
    | inl h ↦ rw h (refl, tt)
    | inr h ↦ rw h tt
  ]

  if-AllOf : (b : Bool) (x y : Findings) → AllOf x.0 → AllOf y.0 → AllOf (if b then x else y).0
  if-AllOf true x y h k = h
  if-AllOf false x y h k = k

  with_content-AllOf :
      (b : Bool) (x y : Findings) → AllOf x.0 → AllOf y.0 → AllOf (with_content b x y).0
  unfolding with_content
  with_content-AllOf true x y h k = All-append _ x.0 y.0 h k
  with_content-AllOf false x y h k = h

  content_findings-AllOf :
      (before after : Fields) (e : FileContentEvidence × Option Diagnostic)
      → AllOf (content_findings identity before after e).0
  unfolding content_findings
  content_findings-AllOf before after (e, d) = content_row-AllOf before after e

  diff_parameters-AllOf :
      (s : Services) (f : Fidelity) (b a : Side) → AllOf (diff_parameters s f identity b a).0
  unfolding diff_parameters plain_findings
  diff_parameters-AllOf s f b a =
      let before = b.resource.parameters in
      let after = a.resource.parameters in
      with_content-AllOf (resolves_content identity b.resource a.resource)
        (plain_findings s f identity before after)
        (content_findings identity before after
          (resolve_file_content_evidence s.hash s.options s.certname identity b a s.retriever))
        (compare_parameters-AllOf s f before after
          (plain_names identity (union_parameter_names before after)))
        (content_findings-AllOf before after
          (resolve_file_content_evidence s.hash s.options s.certname identity b a s.retriever))

  membership_row-identity :
      (kind : ChangeKind) (r : Resource) (o : Option FileContentEvidence)
      → (membership_row kind r o).identity ≡ r.identity
  unfolding membership_row
  membership_row-identity ChangeKind.resource_added r o = refl
  membership_row-identity ChangeKind.resource_removed r o = refl
  membership_row-identity ChangeKind.parameter_changed r o = refl
  membership_row-identity ChangeKind.edge_added r o = refl
  membership_row-identity ChangeKind.edge_removed r o = refl

  membership_change-AllOf :
      (s : Services) (kind : ChangeKind) (side : Side)
      → side.resource.identity ≡ identity
      → AllOf (membership_change s kind side).0
  unfolding membership_change with_evidence
  membership_change-AllOf s kind side h =
      let found = resolve_membership_evidence s.hash s.options s.certname kind side s.retriever in
      if-AllOf (not (needs_evidence side.resource))
        (membership_row kind side.resource none ∷ [], []) (with_evidence kind side.resource found)
        (membership_row-identity kind side.resource none ∙ h, tt)
        (membership_row-identity kind side.resource (some found.0) ∙ h, tt)

  compare_resource-AllOf :
      (s : Services) (f : Fidelity) (bc ac : ContentContext) (b a : Option Resource)
      → ((r : Resource) → b ≡ some r → r.identity ≡ identity)
      → ((r : Resource) → a ≡ some r → r.identity ≡ identity)
      → AllOf (compare_resource s f bc ac identity b a).0
  unfolding compare_resource side_of
  compare_resource-AllOf s f bc ac (some b) none h k =
      membership_change-AllOf s ChangeKind.resource_removed (side_of b bc) (h b refl)
  compare_resource-AllOf s f bc ac none (some a) h k =
      membership_change-AllOf s ChangeKind.resource_added (side_of a ac) (k a refl)
  compare_resource-AllOf s f bc ac (some b) (some a) h k =
      diff_parameters-AllOf s f (side_of b bc) (side_of a ac)
  compare_resource-AllOf s f bc ac none none h k = tt

Own : Index → Type 0
Own = All (λ (identity, r). r.identity ≡ identity)

index_resources-Own : (rs : List Resource) → Own (index_resources rs)
unfolding Own index_resources
index_resources-Own [] = tt
index_resources-Own (r ∷ rs) =
    elim (Bool-cases (is_some (lookup r.identity (index_resources rs)))) [
      | inl e ↦ rw e (index_resources-Own rs)
      | inr e ↦ rw e (refl, index_resources-Own rs)
    ]

pub if-some :
    {A : Type 0} (b : Bool) (v r : A) (o : Option A)
    → b ≡ true
    → (if b then some v else o) ≡ some r
    → v ≡ r
if-some true v r o e h = cc
if-some false v r o e h = absurd (ground (arith, e))

pub if-other :
    {A : Type 0} (b : Bool) (v : A) (o p : Option A)
    → b ≡ false
    → (if b then some v else o) ≡ p
    → o ≡ p
if-other true v o p e h = absurd (ground (arith, e))
if-other false v o p e h = h

Own-lookup :
    (m : Index) (identity : ResourceIdentity) (r : Resource)
    → Own m
    → lookup identity m ≡ some r
    → r.identity ≡ identity
unfolding Own
Own-lookup [] identity r own h = absurd (cc)
Own-lookup ((j, v) ∷ m) identity r (p, own) h = elim (beq-cases j identity) [
  | inl (e, q) ↦
      ap (λ x. x.identity) (sym (if-some (j == identity) v r (lookup identity m) e h)) ∙ (p ∙ q)
  | inr (e, _) ↦
      Own-lookup m identity r own (if-other (j == identity) v (lookup identity m) (some r) e h)
]

-- An index holds each resource under its own identity.
pub index_resources-identity :
    (rs : List Resource) (identity : ResourceIdentity) (r : Resource)
    → lookup identity (index_resources rs) ≡ some r
    → r.identity ≡ identity
index_resources-identity rs identity r h =
    Own-lookup (index_resources rs) identity r (index_resources-Own rs) h

contains-head :
    (i j : ResourceIdentity) (ids : List ResourceIdentity) → j ≡ i → contains j (i ∷ ids) ≡ true
contains-head i j ids p = ground (arith, beq_refl i, ap (λ k. i == k) p)

module _ (s : Services) (f : Fidelity) (bc ac : ContentContext) (bs as' : List Resource) where
  diff_each-known :
      (ids : List ResourceIdentity)
      → All
          (λ c. contains c.identity ids ≡ true)
          (diff_each s f bc ac (index_resources bs) (index_resources as') ids).0
  unfolding diff_each
  diff_each-known [] = tt
  diff_each-known (i ∷ ids) =
      All-append _ _ _
        (All-map {P = λ c. c.identity ≡ i} (λ c p. contains-head i c.identity ids p) _
          (compare_resource-AllOf i s f bc ac (lookup i (index_resources bs))
            (lookup i (index_resources as')) (index_resources-identity bs i)
            (index_resources-identity as' i)))
        (All-map {P = λ c. contains c.identity ids ≡ true} (λ c k. ground (arith, k)) _
          (diff_each-known ids))

  -- Every raw change is of a resource that one of the two catalogs has.
  pub diff_resources-known :
      All
        (λ c.
          contains c.identity (union_identities (index_resources bs) (index_resources as')) ≡ true)
        (diff_resources s f bc ac (index_resources bs) (index_resources as')).0
  unfolding diff_resources
  diff_resources-known = diff_each-known _
