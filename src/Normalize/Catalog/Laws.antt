-- ===== src/Normalize/Catalog/Laws.antt =====
-- What internal/normalize/catalog.go makes of the rows of a catalog.
use piace.Base.{
  ℕ, suc, String, Bool, true, false, ◌||◌, Option, none, some, List, [], ◌∷◌, map, ◌==◌, string_eq,
  if◌then◌else◌, contains, IsNodup, ◌⊎◌, inl, inr, ◌≡◌, refl, sym, ap, ◌∙◌, subst, arith, beq-cases,
  beq_refl,
}
use piace.Base.Sort.{sort, IsSorted, sort-IsSorted, sort-IsNodup}
use piace.Base.Sort.Items.{map-sort}
use piace.Model.Value.{Fields}
use piace.Model.Catalog.{
  ResourceIdentity, identity_eq, identity_le, identity_le_total, identity_le_trans, Resource, Edge,
  NormalizedCatalog, StaticFileMetadata,
}
use piace.Normalize.Wire.{
  Json, ResourceWire, EdgeWire, extract_resources, extract_edges, decode_sensitivity,
}
use piace.Normalize.Values.{Numbers, ValueError, decode_parameters}
use piace.Normalize.Catalog.{
  RawCatalog, FileNotes, with_notes, built, cons_row, identity_of, resource_rows, finished,
  from_wires, with_metadata, or_diagnostic, optional, normalize_catalog, resource_le, edge_rows,
}

-- No identity comes twice, none was seen before, and each has a type and a title.
abbrev IsFresh : List ResourceIdentity → List ResourceIdentity → Type 0
IsFresh seen [] = Unit
IsFresh seen (i ∷ is) =
    (contains i seen ≡ false) × ((i.type == "" || i.title == "") ≡ false) × IsFresh (i ∷ seen) is

abbrev Rows : List ResourceIdentity → List ResourceWire → String ⊎ List Resource → Type 0
Rows seen wires (inl t) = Unit
Rows seen wires (inr rs) =
    (map (λ r. r.identity) rs ≡ map identity_of wires) × IsFresh seen (map identity_of wires)

abbrev Built : ResourceIdentity → String ⊎ Resource → Type 0
Built i (inl t) = Unit
Built i (inr r) = r.identity ≡ i

if-identity :
    (b : Bool) (x y : Resource) (i : ResourceIdentity)
    → x.identity ≡ i
    → y.identity ≡ i
    → (if b then x else y).identity ≡ i
if-identity true x y i h k = h
if-identity false x y i h k = k

built-Built :
    (notes : FileNotes) (i : ResourceIdentity) (s : String ⊎ List String) (p : ValueError ⊎ Fields)
    → Built i (built notes i s p)
unfolding built with_notes
built-Built notes i (inl t) p = tt
built-Built notes i (inr names) (inl e) = tt
built-Built notes i (inr names) (inr fs) = if-identity (i.type == "File") _ _ i refl refl

cons_row-Rows :
    (seen : List ResourceIdentity) (wire : ResourceWire) (wires : List ResourceWire)
    (r : String ⊎ Resource) (rest : String ⊎ List Resource)
    → contains (identity_of wire) seen ≡ false
    → (wire.type == "" || wire.title == "") ≡ false
    → Built (identity_of wire) r
    → Rows (identity_of wire ∷ seen) wires rest
    → Rows seen (wire ∷ wires) (cons_row r rest)
unfolding cons_row
cons_row-Rows seen wire wires (inl t) rest a b h k = tt
cons_row-Rows seen wire wires (inr r) (inl t) a b h k = tt
cons_row-Rows seen wire wires (inr r) (inr rs) a b h (e, k) = (cc, (a, b, k))

if-Rows :
    (seen : List ResourceIdentity) (wires : List ResourceWire) (b : Bool)
    (x y : String ⊎ List Resource)
    → (b ≡ true → Rows seen wires x)
    → (b ≡ false → Rows seen wires y)
    → Rows seen wires (if b then x else y)
if-Rows seen wires true x y h k = h refl
if-Rows seen wires false x y h k = k refl

resource_rows-Rows :
    (json : Json) (numbers : Numbers) (notes : FileNotes) (i : ℕ) (seen : List ResourceIdentity)
    (wires : List ResourceWire)
    → Rows seen wires (resource_rows json numbers notes i seen wires)
unfolding resource_rows
resource_rows-Rows json numbers notes i seen [] = (refl, tt)
resource_rows-Rows json numbers notes i seen (wire ∷ wires) =
    let all = wire ∷ wires in
    if-Rows seen all (wire.type == "" || wire.title == "") _ _ (λ h. tt)
      (λ h.
        if-Rows seen all (contains (identity_of wire) seen) _ _ (λ k. tt)
          (λ k.
            cons_row-Rows seen wire wires _ _ k h
              (built-Built notes (identity_of wire)
                (decode_sensitivity json wire.sensitive_parameters)
                (decode_parameters json numbers wire.parameters))
              (resource_rows-Rows json numbers notes (suc i) (identity_of wire ∷ seen) wires)))

fresh-contains :
    (i : ResourceIdentity) (seen is : List ResourceIdentity)
    → IsFresh seen is
    → contains i seen ≡ true
    → contains i is ≡ false
fresh-contains i seen [] h k = refl
fresh-contains i seen (j ∷ is) (a, _, h) k = elim (beq-cases j i) [
  | inl (_, p) ↦ absurd (ground (arith, a, k, ap (λ x. contains x seen) p))
  | inr (e, _) ↦ ground (arith, e, fresh-contains i (j ∷ seen) is h (ground (arith, k)))
]

fresh-IsNodup : (seen is : List ResourceIdentity) → IsFresh seen is → IsNodup is
fresh-IsNodup seen [] h = tt
fresh-IsNodup seen (i ∷ is) (_, _, h) =
    (fresh-contains i (i ∷ seen) is h (ground (arith, beq_refl i)), fresh-IsNodup (i ∷ seen) is h)

-- The resources of a catalog are those of the rows, sorted, and none comes twice.
abbrev pub Sorted : List ResourceWire → List Resource → Type 0
Sorted wires rs =
    (map (λ r. r.identity) rs ≡ sort identity_le (map identity_of wires))
    × IsNodup (map (λ r. r.identity) rs)
    × IsSorted identity_le (map (λ r. r.identity) rs)

Rows-Sorted :
    (wires : List ResourceWire) (rs : List Resource)
    → Rows [] wires (inr rs)
    → Sorted wires (sort resource_le rs)
unfolding resource_le
Rows-Sorted wires rs (e, f) =
    let same : map (λ r. r.identity) (sort resource_le rs)
        ≡ sort identity_le (map identity_of wires) =
      map-sort (λ r. r.identity) identity_le rs ∙ ap (sort identity_le) e in
    (
      same,
      subst IsNodup (sym same) (
          sort-IsNodup identity_le (map identity_of wires)
            (fresh-IsNodup [] (map identity_of wires) f)),
      subst (IsSorted identity_le) (sym same)
          (sort-IsSorted identity_le identity_le_total identity_le_trans (map identity_of wires)),
    )

abbrev Answer : {E : Type 0} → List ResourceWire → E ⊎ NormalizedCatalog → Type 0
Answer wires (inl e) = Unit
Answer wires (inr c) = Sorted wires c.resources

finished-Answer :
    (raw : RawCatalog) (wires : List ResourceWire) (rs : String ⊎ List Resource)
    (es : String ⊎ List Edge)
    → Rows [] wires rs
    → Answer wires (finished raw rs es)
unfolding finished
finished-Answer raw wires (inl t) es h = tt
finished-Answer raw wires (inr rs) (inl t) h = tt
finished-Answer raw wires (inr rs) (inr es) h = Rows-Sorted wires rs h

from_wires-Answer :
    (json : Json) (numbers : Numbers) (raw : RawCatalog) (notes : FileNotes)
    (wires : List ResourceWire) (es : String ⊎ List EdgeWire)
    → Answer wires (from_wires json numbers raw notes (inr wires) es)
unfolding from_wires
from_wires-Answer json numbers raw notes wires (inl t) = tt
from_wires-Answer json numbers raw notes wires (inr es) =
    finished-Answer raw wires (resource_rows json numbers notes 0 [] wires) (edge_rows 0 es)
      (resource_rows-Rows json numbers notes 0 [] wires)

with_metadata-Answer :
    (json : Json) (numbers : Numbers) (raw : RawCatalog) (wires : List ResourceWire)
    (m : Option (List (String × StaticFileMetadata))) (r : Option (List (String × String)))
    → extract_resources json raw.resources ≡ inr wires
    → Answer wires (with_metadata json numbers raw m r)
unfolding with_metadata
with_metadata-Answer json numbers raw wires none r h = tt
with_metadata-Answer json numbers raw wires (some m) none h = tt
with_metadata-Answer json numbers raw wires (some m) (some r) h = rw h (
    from_wires-Answer json numbers raw
      (record { metadata = m; captured = raw.captured_content; recursive = r }) wires
      (extract_edges json raw.edges))

or_diagnostic-Answer :
    (certname : String) (wires : List ResourceWire) (o : String ⊎ NormalizedCatalog)
    → Answer wires o
    → Answer wires (or_diagnostic certname o)
unfolding or_diagnostic
or_diagnostic-Answer certname wires (inl t) h = tt
or_diagnostic-Answer certname wires (inr c) h = h

-- A catalog that is normalized has one resource for each row of the raw one, in ascending order of
-- their identities, and no two resources of the same identity.
pub normalize_catalog-Sorted :
    (json : Json) (numbers : Numbers) (raw : RawCatalog) (wires : List ResourceWire)
    (c : NormalizedCatalog)
    → extract_resources json raw.resources ≡ inr wires
    → normalize_catalog json numbers raw ≡ inr c
    → Sorted wires c.resources
unfolding normalize_catalog
normalize_catalog-Sorted json numbers raw wires c h k =
    let answer : Answer wires (normalize_catalog json numbers raw) =
      or_diagnostic-Answer raw.certname wires
        (with_metadata json numbers raw (optional json.metadata raw.metadata)
          (optional json.object raw.recursive_metadata))
        (with_metadata-Answer json numbers raw wires (optional json.metadata raw.metadata)
          (optional json.object raw.recursive_metadata) h) in
    subst (Answer wires) k answer
