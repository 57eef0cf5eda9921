-- ===== src/Puppetdb/Laws.antt =====
-- What a validated factset says of its node (internal/puppetdb/validate.go).
use piace.Base.{
  String, true, ◌||◌, not, Option, none, some, ◌==◌, string_eq, lookup, ◌⊎◌, inl, inr, ◌≡◌, refl,
  arith, Bool-cases, eq_iff, subst, sym,
}
use piace.Base.Text.{trim_space}
use piace.Puppetdb.{
  Factset, FactJson, Flat, text_of, is_text, trusted_problem, problem_of_fields,
  validate_trusted_facts, checked_trusted, with_trusted, flattened, flatten_facts, validate_factset,
}

-- The trusted facts are an object whose certname is this one.
abbrev pub IsTrusted : FactJson → String → Option String → Type 0
IsTrusted json certname none = Unit
IsTrusted json certname (some raw) =
    (fields : Flat) × (json.object raw ≡ some fields)
    × (is_text (text_of json (lookup "certname" fields)) certname ≡ true)

abbrev IsTrustedIn : FactJson → String → String ⊎ Flat → Type 0
IsTrustedIn json certname (inl t) = Unit
IsTrustedIn json certname (inr flat) = IsTrusted json certname (lookup "trusted" flat)

trusted_certname :
    (json : FactJson) (certname : String) (fields : Flat)
    → trusted_problem json certname fields ≡ none
    → is_text (text_of json (lookup "certname" fields)) certname ≡ true
unfolding trusted_problem
trusted_certname json certname fields =
    elim (Bool-cases
      (certname == "" || not (is_text (text_of json (lookup "certname" fields)) certname))) [
        | inl e ↦ rw e (λ h. absurd (cc))
        | inr e ↦ λ h. ground (arith, e)
      ]

problem_of_fields-none :
    (json : FactJson) (certname : String) (o : Option Flat)
    → problem_of_fields json certname o ≡ none
    → (fields : Flat) × (o ≡ some fields)
      × (is_text (text_of json (lookup "certname" fields)) certname ≡ true)
unfolding problem_of_fields
problem_of_fields-none json certname none h = absurd (cc)
problem_of_fields-none json certname (some fields) h =
    (fields, refl, trusted_certname json certname fields h)

object-IsTrusted :
    (json : FactJson) (raw certname : String)
    → validate_trusted_facts json raw certname ≡ none
    → IsTrusted json certname (some raw)
unfolding validate_trusted_facts
object-IsTrusted json raw certname = elim (Bool-cases (trim_space raw == "null")) [
  | inl e ↦ rw e (λ h. absurd (cc))
  | inr e ↦ rw e (problem_of_fields-none json certname (json.object raw))
]

checked_trusted-IsTrustedIn :
    (json : FactJson) (certname raw : String) (flat : Flat) (o : Option String)
    → validate_trusted_facts json raw certname ≡ o
    → lookup "trusted" flat ≡ some raw
    → IsTrustedIn json certname (checked_trusted json certname flat o)
unfolding checked_trusted
checked_trusted-IsTrustedIn json certname raw flat none h k =
    subst (IsTrusted json certname) (sym k) (object-IsTrusted json raw certname h)
checked_trusted-IsTrustedIn json certname raw flat (some t) h k = tt

with_trusted-IsTrustedIn :
    (json : FactJson) (certname : String) (flat : Flat) (o : Option String)
    → lookup "trusted" flat ≡ o
    → IsTrustedIn json certname (with_trusted json certname flat o)
unfolding with_trusted
with_trusted-IsTrustedIn json certname flat none h = subst (IsTrusted json certname) (sym h) tt
with_trusted-IsTrustedIn json certname flat (some raw) h =
    checked_trusted-IsTrustedIn json certname raw flat (validate_trusted_facts json raw certname)
      refl h

flattened-IsTrustedIn :
    (json : FactJson) (certname : String) (r : String ⊎ Flat)
    → IsTrustedIn json certname (flattened json certname r)
unfolding flattened
flattened-IsTrustedIn json certname (inl t) = tt
flattened-IsTrustedIn json certname (inr flat) =
    with_trusted-IsTrustedIn json certname flat (lookup "trusted" flat) refl

-- A factset that is accepted is of the requested node, and if it has trusted facts, they are an object
-- whose certname is that node's.
pub validate_factset-IsTrusted :
    (json : FactJson) (fs : Factset) (certname : String) (flat : Flat)
    → validate_factset json fs certname ≡ inr flat
    → (fs.certname ≡ certname) × IsTrusted json certname (lookup "trusted" flat)
unfolding validate_factset
validate_factset-IsTrusted json fs certname flat =
    elim (Bool-cases (certname == "" || not (fs.certname == certname))) [
      | inl e ↦ rw e (λ h. absurd (cc))
      | inr e ↦ rw e (λ h. (
        ground (arith, e, eq_iff fs.certname certname),
        subst (IsTrustedIn json certname) h
            (flattened-IsTrustedIn json certname (flatten_facts json fs.facts)),
      ))
    ]
