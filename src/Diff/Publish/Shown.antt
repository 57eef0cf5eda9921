-- ===== src/Diff/Publish/Shown.antt =====
-- What a published change shows (internal/diff/redact.go).
use piace.Base.{
  String, Bool, true, false, ◌||◌, Option, none, some, List, [], ◌∷◌, ◌==◌, string_eq,
  if◌then◌else◌, ◌≡◌, refl, ◌∙◌, ap, not, ◌&&◌, any, contains, arith, inl, inr, Bool-cases,
  beq-cases, lookup, is_some,
}
use piace.Model.Value.{Value, null, Fields, end, field, get, at, map_fields}
use piace.Model.Disclosure.{contains_sensitive, is_content_bearing, content_bearing_parameters}
use piace.Model.Catalog.{identity_eq, Resource, FileContentEvidence}
use piace.Model.Change.{ChangeKind, redacted_value}
use piace.Config.{RedactionSelector}
use piace.Diff.Raw.{RawChange}
use piace.Diff.Redact.{marker, redact_pair}
use piace.Diff.Resources.{Index}
use piace.Diff.Publish.{
  sensitive_at, parameters_at, masked_if, is_selected, content_selected, is_withheld,
  matches_redaction_selector, parameter_sensitive, published_value, publish_parameters,
  parameter_pair, published_values, publish_change, published_evidence, mask_evidence,
}

at-map_fields-eq :
    (g : String → Value → Value) (k : String) (m : Fields)
    → is_some (get k m) ≡ true
    → at k (map_fields g m) ≡ g k (at k m)
unfolding get map_fields
at-map_fields-eq g k end h = absurd (ground arith)
at-map_fields-eq g k (field j v fs) h = elim (beq-cases j k) [
  | inl (e, p) ↦ rw e (ap (λ n. g n v) p)
  | inr (e, _) ↦ rw e (at-map_fields-eq g k fs (ground (arith, h, e)))
]

published_value-eq :
    (b : Bool) (v : Value) → published_value b v ≡ (if b then marker else (redact_pair v v).0)
unfolding published_value
published_value-eq true v = refl
published_value-eq false v = refl

-- A selector names the parameter by its type and name.
abbrev pub is_named : List RedactionSelector → String → String → Bool
is_named selectors type name =
    not (name == "") && any (λ s. s.type == type && s.parameter == name) selectors

-- A secret parameter of a resource: one of the four that bear the content of a file, one listed as
-- sensitive, or one that a selector names by its type and name.
abbrev pub is_secret : List RedactionSelector → Resource → String → Bool
is_secret selectors r name =
    (r.identity.type == "File"
      && (any (λ n. n == name) ("checksum" ∷ "checksum_value" ∷ "content" ∷ "source" ∷ [])))
    || any (λ n. n == name) r.sensitive_parameters
    || is_named selectors r.identity.type name

matches_redaction_selector-eq :
    (selectors : List RedactionSelector) (type name : String)
    → matches_redaction_selector selectors type name ≡ is_named selectors type name
unfolding matches_redaction_selector
matches_redaction_selector-eq selectors type name = elim (Bool-cases (name == "")) [
  | inl e ↦ rw e refl
  | inr e ↦ rw e refl
]

contains-eq : (name : String) (xs : List String) → contains name xs ≡ any (λ n. n == name) xs
contains-eq name [] = refl
contains-eq name (x ∷ xs) = ground (arith, contains-eq name xs)

is_withheld-eq :
    (selectors : List RedactionSelector) (r : Resource) (name : String)
    → is_withheld selectors r name ≡ is_secret selectors r name
unfolding is_withheld parameter_sensitive is_content_bearing
is_withheld-eq selectors r name = ground (
  arith,
  contains-eq name content_bearing_parameters,
  contains-eq name r.sensitive_parameters,
  matches_redaction_selector-eq selectors r.identity.type name,
)

-- A parameter that a resource has is published with the resource as the marker if it is secret (one
-- of the four that bear the content of a file, one listed as sensitive, or one that a selector names
-- by type and name), and as the redaction of its own value otherwise.
pub at-publish_parameters :
    (selectors : List RedactionSelector) (r : Resource) (name : String)
    → is_some (get name r.parameters) ≡ true
    → at name (publish_parameters selectors r) ≡ (
        if is_secret selectors r name
        then marker
        else (redact_pair (at name r.parameters) (at name r.parameters)).0)
unfolding publish_parameters
at-publish_parameters selectors r name h =
    at-map_fields-eq _ name r.parameters h
    ∙ (published_value-eq (is_withheld selectors r name) (at name r.parameters)
        ∙ ap
            (λ b.
              if b then marker else (redact_pair (at name r.parameters) (at name r.parameters)).0)
            (is_withheld-eq selectors r name))

published_values-content :
    (selectors : List RedactionSelector) (br ar : Option Resource) (raw : RawChange)
    (e : FileContentEvidence)
    → raw.kind ≡ ChangeKind.parameter_changed
    → raw.file_content ≡ some e
    → published_values selectors br ar raw.kind raw ≡ (null, null)
unfolding published_values parameter_pair
published_values-content selectors br ar raw e kind content = rw (kind, content) refl

-- The resource lists the parameter as sensitive.
abbrev pub is_listed : Option Resource → String → Bool
is_listed none name = false
is_listed (some r) name = any (λ n. n == name) r.sensitive_parameters

-- The parameter's value holds a Sensitive wrapper.
abbrev pub is_wrapped : Option Resource → String → Bool
is_wrapped none name = false
is_wrapped (some r) name = contains_sensitive (at name r.parameters)

-- The digests are secret: the changed parameter or one of the four that bear the content is listed as
-- sensitive on a side or named by a selector, or a value of one of the four holds a wrapper.
abbrev pub is_secret_content :
    List RedactionSelector → Option Resource → Option Resource → String → String → Bool
is_secret_content selectors br ar type parameter =
    let is_hidden : String → Bool =
      λ n. is_listed br n || is_listed ar n || is_named selectors type n in
    is_hidden parameter
    || any (λ n. is_hidden n || is_wrapped br n || is_wrapped ar n)
        ("checksum" ∷ "checksum_value" ∷ "content" ∷ "source" ∷ [])

-- Evidence without its algorithm, and with the marker for the digest of each side that has evidence.
abbrev pub masked : FileContentEvidence → FileContentEvidence
masked e = record e {
  algorithm = "";
  before_digest = if is_some e.before then redacted_value else e.before_digest;
  after_digest = if is_some e.after then redacted_value else e.after_digest;
  redacted = true;
}

sensitive_at-eq : (o : Option Resource) (name : String) → sensitive_at o name ≡ is_listed o name
unfolding sensitive_at parameter_sensitive
sensitive_at-eq none name = refl
sensitive_at-eq (some r) name = contains-eq name r.sensitive_parameters

wrapped-eq :
    (o : Option Resource) (name : String)
    → contains_sensitive (at name (parameters_at o)) ≡ is_wrapped o name
unfolding parameters_at get contains_sensitive
wrapped-eq none name = refl
wrapped-eq (some r) name = refl

is_selected-eq :
    (selectors : List RedactionSelector) (br ar : Option Resource) (type name : String)
    → is_selected selectors br ar type name
      ≡ (is_listed br name || is_listed ar name || is_named selectors type name)
unfolding is_selected sensitive_at parameter_sensitive
is_selected-eq selectors br ar type name = ground (
  arith,
  matches_redaction_selector-eq selectors type name,
  sensitive_at-eq br name,
  sensitive_at-eq ar name,
)

content_selected-eq :
    (selectors : List RedactionSelector) (br ar : Option Resource) (type : String)
    (names : List String)
    → content_selected selectors br ar type names
      ≡ any
          (λ n.
            (is_listed br n || is_listed ar n || is_named selectors type n)
            || is_wrapped br n
            || is_wrapped ar n)
          names
unfolding content_selected
content_selected-eq selectors br ar type [] = refl
content_selected-eq selectors br ar type (n ∷ ns) = ground (
  arith,
  is_selected-eq selectors br ar type n,
  wrapped-eq br n,
  wrapped-eq ar n,
  content_selected-eq selectors br ar type ns,
)

mask_evidence-eq :
    (b : Bool) (e : FileContentEvidence) → mask_evidence b e ≡ (if b then masked e else e)
unfolding mask_evidence masked_if
mask_evidence-eq false e = refl
mask_evidence-eq true e = ground arith

-- The published change of a file's content shows no value of the parameters. Its evidence is
-- unchanged unless the content is secret: the changed parameter or one of the four that bear the
-- content is listed as sensitive on a side or named by a selector, or a value of one of the four holds
-- a Sensitive wrapper. Then it shows no algorithm, and the marker for the digest of each side that
-- has evidence.
pub publish_change-content :
    (selectors : List RedactionSelector) (before after : Index) (raw : RawChange)
    (e : FileContentEvidence)
    → raw.kind ≡ ChangeKind.parameter_changed
    → raw.file_content ≡ some e
    → ((publish_change selectors before after raw).before ≡ null)
      × ((publish_change selectors before after raw).after ≡ null)
      × ((publish_change selectors before after raw).file_content
          ≡ some (
              if is_secret_content selectors
                (lookup raw.identity before)
                (lookup raw.identity after)
                raw.identity.type
                raw.parameter
              then masked e
              else e))
unfolding publish_change published_evidence
publish_change-content selectors before after raw e kind content =
    let br = lookup raw.identity before in
    let ar = lookup raw.identity after in
    let values = published_values-content selectors br ar raw e kind content in
    (
      ap (λ v. v.0) values,
      ap (λ v. v.1) values,
      rw content (
          ap some (
            mask_evidence-eq _ e
            ∙ ap (λ b. if b then masked e else e)
                (ground (
                  arith,
                  is_selected-eq selectors br ar raw.identity.type raw.parameter,
                  content_selected-eq selectors br ar raw.identity.type content_bearing_parameters,
                )))),
    )
