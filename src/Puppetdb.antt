-- ===== src/Puppetdb.antt =====
-- internal/puppetdb/types.go, select.go and validate.go: the sources of facts and catalogs, and the
-- checks of a factset. What encoding/json reads from a raw message is an argument, as for the catalogs.
pub mod Laws
use piace.Base.{
  String, Bool, true, false, ◌&&◌, ◌||◌, not, Option, none, some, List, [], ◌∷◌, ◌==◌, string_eq,
  if◌then◌else◌, lookup, contains, is_some, ◌⊎◌, inl, inr,
}
use piace.Base.Split.{cut}
use piace.Base.Text.{opens_array, trim_space}
use piace.Config.{Target}
use piace.Config.Schema.{source_file}
use piace.Model.Diagnostic.{Diagnostic}
use piace.Model.Provenance.{SourceProvenance}
use piace.Normalize.Catalog.{RawCatalog}

pub record Factset : Type 0 where
  pub certname : String
  pub environment : String
  pub timestamp : String
  pub producer_timestamp : String
  pub producer : String
  pub hash : String
  pub facts : String

abbrev pub FactSource : Type 0
FactSource = Target → Factset × SourceProvenance × Option Diagnostic

abbrev pub CatalogSource : Type 0
CatalogSource = Target → RawCatalog × SourceProvenance × Option Diagnostic

unfoldable pub select_fact_source : Target → FactSource → FactSource → FactSource
select_fact_source target puppetdb file =
    if target.facts.source == source_file then file else puppetdb

unfoldable pub select_catalog_source : Target → CatalogSource → CatalogSource → CatalogSource
select_catalog_source target puppetdb file =
    if target.baseline.source == source_file then file else puppetdb

-- A text, the data of a collection, its entries, and an object; `none` where decoding fails.
pub record FactJson : Type 0 where
  pub text : String → Option String
  pub collection : String → Option String
  pub entries : String → Option (List (String × String))
  pub object : String → Option (List (String × String))

-- A map of raw messages by their names.
abbrev pub Flat : Type 0
Flat = List (String × String)

unfoldable pub cons_fact : String × String → String ⊎ Flat → String ⊎ Flat
cons_fact e (inl t) = inl t
cons_fact e (inr flat) = inr (e ∷ flat)

-- The loop over the entries, with the names seen.
unfoldable pub flat_entries : List String → List (String × String) → String ⊎ Flat
unfolding cons_fact
flat_entries seen [] = inr []
flat_entries seen ((name, value) ∷ entries) =
    let rest = cons_fact (name, value) (flat_entries (name ∷ seen) entries) in
    if name == "" || value == ""
    then inl "fact entry requires a name and value"
    else if contains name seen
    then inl "duplicate fact name"
    else rest

unfoldable pub entries_or_malformed : Option (List (String × String)) → String ⊎ Flat
unfolding flat_entries
entries_or_malformed none = inl "malformed fact entry"
entries_or_malformed (some entries) = flat_entries [] entries

unfoldable pub flatten_collection : FactJson → Option String → String ⊎ Flat
unfolding entries_or_malformed opens_array
flatten_collection json none = inl "facts must contain a data array"
flatten_collection json (some rows) =
    if opens_array rows
    then entries_or_malformed (json.entries rows)
    else inl "facts must contain a data array"

unfoldable pub flatten_facts : FactJson → String → String ⊎ Flat
unfolding flatten_collection
flatten_facts json raw = flatten_collection json (json.collection raw)

-- `json.Unmarshal(fields[name], &text)`; a missing field is an error.
unfoldable pub text_of : FactJson → Option String → Option String
text_of json none = none
text_of json (some raw) = json.text raw

unfoldable pub is_text : Option String → String → Bool
is_text none expected = false
is_text (some t) expected = t == expected

-- An object that is not `null`.
unfoldable pub is_object : FactJson → Option String → Bool
unfolding trim_space
is_object json none = true
is_object json (some raw) = not (trim_space raw == "null") && is_some (json.object raw)

-- A name that agrees with the certname, where the field is present.
unfoldable pub agrees : FactJson → String → Option String → Bool
unfolding is_text trim_space
agrees json expected none = true
agrees json expected (some raw) = not (trim_space raw == "null") && is_text (json.text raw) expected

-- The domain: `null` is allowed for a certname without one.
unfoldable pub domain_agrees : FactJson → Option String → Option String → Bool
unfolding agrees trim_space
domain_agrees json (some domain) raw = agrees json domain raw
domain_agrees json none none = true
domain_agrees json none (some raw) = trim_space raw == "null" || agrees json "" (some raw)

unfoldable pub trusted_problem : FactJson → String → Flat → Option String
unfolding text_of is_text is_object agrees domain_agrees cut
trusted_problem json certname fields =
    let authenticated = text_of json (lookup "authenticated" fields) in
    let parts = cut b'.' certname in
    if certname == "" || not (is_text (text_of json (lookup "certname" fields)) certname)
    then some "trusted certname does not match the requested target"
    else if not (is_text authenticated "remote" || is_text authenticated "local")
    then some "trusted authenticated must establish a remote or local identity"
    else if not (is_object json (lookup "extensions" fields))
    then some "trusted extensions must be an object"
    else if not (is_object json (lookup "external" fields))
    then some "trusted external must be an object"
    else if not (agrees json parts.0 (lookup "hostname" fields))
    then some "trusted hostname does not agree with certname"
    else if not (domain_agrees json parts.1 (lookup "domain" fields))
    then some "trusted domain does not agree with certname"
    else none

unfoldable pub problem_of_fields : FactJson → String → Option Flat → Option String
unfolding trusted_problem
problem_of_fields json certname none = some "trusted facts must be an object"
problem_of_fields json certname (some fields) = trusted_problem json certname fields

unfoldable pub validate_trusted_facts : FactJson → String → String → Option String
unfolding problem_of_fields trim_space
validate_trusted_facts json raw certname =
    if trim_space raw == "null"
    then some "trusted facts must be an object"
    else problem_of_fields json certname (json.object raw)

unfoldable pub checked_trusted : FactJson → String → Flat → Option String → String ⊎ Flat
checked_trusted json certname flat none = inr flat
checked_trusted json certname flat (some t) = inl t

unfoldable pub with_trusted : FactJson → String → Flat → Option String → String ⊎ Flat
unfolding checked_trusted validate_trusted_facts
with_trusted json certname flat none = inr flat
with_trusted json certname flat (some raw) =
    checked_trusted json certname flat (validate_trusted_facts json raw certname)

unfoldable pub flattened : FactJson → String → String ⊎ Flat → String ⊎ Flat
unfolding with_trusted
flattened json certname (inl t) = inl t
flattened json certname (inr flat) = with_trusted json certname flat (lookup "trusted" flat)

unfoldable pub validate_factset : FactJson → Factset → String → String ⊎ Flat
unfolding flattened flatten_facts
validate_factset json fs certname =
    if certname == "" || not (fs.certname == certname)
    then inl "factset certname does not match the requested target"
    else flattened json certname (flatten_facts json fs.facts)
