-- ===== src/Aggregate/Laws.antt =====
-- Where the changes of internal/aggregate/build.go end up: the members of the groups.
use piace.Base.{
  ℕ, zero, suc, ◌+◌, String, Bool, true, not, Option, none, List, [], ◌∷◌, ◌++◌, map, arith, ◌≡◌,
  refl, sym, ◌∙◌, ap, inl, inr, Bool-cases, nat_eq, nat_eq_iff, eq_iff, string_eq, if◌then◌else◌,
}
use piace.Base.Sort.{count, SameItems, sort, insert, sort-SameItems}
use piace.Base.Sort.Items.{count-append, SameItems-map}
use piace.Model.Value.{Value, null}
use piace.Model.Catalog.{
  ResourceIdentity, identity_eq, identity_beq_iff, Edge, edge_eq, edge_beq_iff, FileContentEvidence,
}
use piace.Model.Change.{ChangeKind, ResourceChange, EdgeChange, NodeDiff}
use piace.Aggregate.{
  GroupKey, Member, Groups, same_key, kind_order, add, add_resources, add_edges, collect, Collected,
  key_less, member_less, sorted_groups, resource_key_of, resource_member, next_seq, edge_key_of,
  edge_member,
}

-- A change of a node, with its place in the list of the node.
pub record Entry : Type 0 where
  pub certname : String
  pub index : ℕ
  pub kind : ChangeKind
  pub identity : ResourceIdentity
  pub parameter : String
  pub edge : Edge
  pub fingerprint : String
  pub before : Value
  pub after : Value
  pub content : Option FileContentEvidence

-- What a member of a group stands for.
abbrev pub entry : GroupKey → Member → Entry
entry k m = record {
  certname = m.certname;
  index = m.index;
  kind = k.kind;
  identity = k.resource_key;
  parameter = k.parameter;
  edge = k.edge;
  fingerprint = k.fingerprint;
  before = m.before;
  after = m.after;
  content = m.content;
}

-- The members of all groups.
abbrev pub entries : Groups → List Entry
entries [] = []
entries ((k, ms) ∷ gs) = map (entry k) ms ++ entries gs

-- The resource changes of a node from place `i`.
abbrev pub resource_entries : String → ℕ → List ResourceChange → List Entry
resource_entries certname i [] = []
resource_entries certname i (c ∷ cs) =
    record {
      certname = certname;
      index = i;
      kind = c.kind;
      identity = c.identity;
      parameter = c.parameter;
      edge = record { source = ""; target = "" };
      fingerprint = c.fingerprint;
      before = c.before;
      after = c.after;
      content = c.file_content;
    }
    ∷ resource_entries certname (suc i) cs

-- The edge changes of a node from place `i`.
abbrev pub edge_entries : String → ℕ → List EdgeChange → List Entry
edge_entries certname i [] = []
edge_entries certname i (c ∷ cs) =
    record {
      certname = certname;
      index = i;
      kind = c.kind;
      identity = record { type = ""; title = "" };
      parameter = "";
      edge = c.edge;
      fingerprint = "";
      before = null;
      after = null;
      content = none;
    }
    ∷ edge_entries certname (suc i) cs

-- All changes of all nodes.
abbrev pub changes_of : List NodeDiff → List Entry
changes_of [] = []
changes_of (nd ∷ nds) =
    resource_entries nd.certname 0 nd.resource_changes
    ++ (edge_entries nd.certname 0 nd.edge_changes ++ changes_of nds)

abbrev kind_at : ℕ → ChangeKind
kind_at zero = ChangeKind.resource_added
kind_at (suc zero) = ChangeKind.resource_removed
kind_at (suc (suc zero)) = ChangeKind.parameter_changed
kind_at (suc (suc (suc zero))) = ChangeKind.edge_added
kind_at (suc (suc (suc (suc n)))) = ChangeKind.edge_removed

kind_at-kind_order : (k : ChangeKind) → kind_at (kind_order k) ≡ k
unfolding kind_order
kind_at-kind_order ChangeKind.resource_added = refl
kind_at-kind_order ChangeKind.resource_removed = refl
kind_at-kind_order ChangeKind.parameter_changed = refl
kind_at-kind_order ChangeKind.edge_added = refl
kind_at-kind_order ChangeKind.edge_removed = refl

same_kind : (a b : ChangeKind) → nat_eq (kind_order a) (kind_order b) ≡ true → a ≡ b
same_kind a b h =
    sym (kind_at-kind_order a)
    ∙ (ap kind_at ((nat_eq_iff (kind_order a) (kind_order b)).0 h) ∙ kind_at-kind_order b)

-- Members stand for the same changes under keys that are the same.
entry-same_key : (a b : GroupKey) (m : Member) → same_key a b ≡ true → entry a m ≡ entry b m
unfolding same_key
entry-same_key a b m h =
    rw
      (
        same_kind a.kind b.kind (ground (arith, h)),
        (identity_beq_iff a.resource_key b.resource_key).0 (ground (arith, h)),
        (eq_iff a.parameter b.parameter).0 (ground (arith, h)),
        (edge_beq_iff a.edge b.edge).0 (ground (arith, h)),
        (eq_iff a.fingerprint b.fingerprint).0 (ground (arith, h)),
      )
      refl

module _ (p : Entry → Bool) where
  abbrev weight : Entry → ℕ
  weight e = if p e then 1 else 0

  count-map_append :
      (k : GroupKey) (ms : List Member) (m : Member)
      → count p (map (entry k) (ms ++ (m ∷ []))) ≡ weight (entry k m) + count p (map (entry k) ms)
  count-map_append k [] m = omega arith
  count-map_append k (n ∷ ms) m = omega (arith, count-map_append k ms m)

  count-add :
      (key : GroupKey) (m : Member) (gs : Groups)
      → count p (entries (add key m gs)) ≡ weight (entry key m) + count p (entries gs)
  unfolding add
  count-add key m [] = omega arith
  count-add key m ((k, ms) ∷ gs) = elim (Bool-cases (same_key k key)) [
    | inl e ↦ rw e (
        omega (
          arith,
          count-append p (map (entry k) (ms ++ (m ∷ []))) (entries gs),
          count-append p (map (entry k) ms) (entries gs),
          count-map_append k ms m,
          ap weight (entry-same_key k key m e),
        ))
    | inr e ↦ rw e (
        omega (
          arith,
          count-append p (map (entry k) ms) (entries (add key m gs)),
          count-append p (map (entry k) ms) (entries gs),
          count-add key m gs,
        ))
  ]

  count-add_resources :
      (certname : String) (i : ℕ) (changes : List ResourceChange) (c : Collected)
      → count p (entries (add_resources certname i changes c).0)
        ≡ count p (resource_entries certname i changes) + count p (entries c.0)
  unfolding add_resources resource_key_of resource_member
  count-add_resources certname i [] c = omega arith
  count-add_resources certname i (change ∷ changes) (gs, n) = omega (
    arith,
    count-add_resources certname (suc i) changes
        (add (resource_key_of change n) (resource_member certname i change) gs, next_seq change n),
    count-add (resource_key_of change n) (resource_member certname i change) gs,
  )

  count-add_edges :
      (certname : String) (i : ℕ) (changes : List EdgeChange) (c : Collected)
      → count p (entries (add_edges certname i changes c).0)
        ≡ count p (edge_entries certname i changes) + count p (entries c.0)
  unfolding add_edges edge_key_of edge_member
  count-add_edges certname i [] c = omega arith
  count-add_edges certname i (change ∷ changes) (gs, n) = omega (
    arith,
    count-add_edges certname (suc i) changes
        (add (edge_key_of change) (edge_member certname i) gs, n),
    count-add (edge_key_of change) (edge_member certname i) gs,
  )

  count-collect :
      (nds : List NodeDiff) (c : Collected)
      → count p (entries (collect nds c).0) ≡ count p (changes_of nds) + count p (entries c.0)
  unfolding collect
  count-collect [] c = omega arith
  count-collect (nd ∷ nds) c =
      let r = add_resources nd.certname 0 nd.resource_changes c in
      let edges = edge_entries nd.certname 0 nd.edge_changes in
      omega (
        arith,
        count-collect nds (add_edges nd.certname 0 nd.edge_changes r),
        count-add_edges nd.certname 0 nd.edge_changes r,
        count-add_resources nd.certname 0 nd.resource_changes c,
        count-append p (resource_entries nd.certname 0 nd.resource_changes)
            (edges ++ changes_of nds),
        count-append p edges (changes_of nds),
      )

  module _ (le : GroupKey × List Member → GroupKey × List Member → Bool) where
    count-entries-insert :
        (g : GroupKey × List Member) (gs : Groups)
        → count p (entries (insert le g gs)) ≡ count p (entries (g ∷ gs))
    unfolding insert
    count-entries-insert g [] = refl
    count-entries-insert (k, ms) ((j, ns) ∷ gs) = elim (Bool-cases (le (k, ms) (j, ns))) [
      | inl e ↦ rw e refl
      | inr e ↦ rw e (
          omega (
            arith,
            count-entries-insert (k, ms) gs,
            count-append p (map (entry k) ms) (map (entry j) ns ++ entries gs),
            count-append p (map (entry j) ns) (entries gs),
            count-append p (map (entry k) ms) (entries gs),
            count-append p (map (entry j) ns) (entries (insert le (k, ms) gs)),
          ))
    ]

    count-entries-sort : (gs : Groups) → count p (entries (sort le gs)) ≡ count p (entries gs)
    unfolding sort
    count-entries-sort [] = refl
    count-entries-sort ((k, ms) ∷ gs) = omega (
      arith,
      count-entries-insert (k, ms) (sort le gs),
      count-entries-sort gs,
      count-append p (map (entry k) ms) (entries (sort le gs)),
      count-append p (map (entry k) ms) (entries gs),
    )

  count-entries-map :
      (le : Member → Member → Bool) (gs : Groups)
      → count p (entries (map (λ (k, ms). (k, sort le ms)) gs)) ≡ count p (entries gs)
  count-entries-map le [] = refl
  count-entries-map le ((k, ms) ∷ gs) = omega (
    arith,
    SameItems-map (entry k) (sort le ms) ms (sort-SameItems le ms) p,
    count-entries-map le gs,
    count-append p (map (entry k) (sort le ms)) (entries (map (λ (k, ms). (k, sort le ms)) gs)),
    count-append p (map (entry k) ms) (entries gs),
  )

-- Grouping loses no change, doubles none and alters none: the members of all groups, read with the
-- keys of their groups, are the resource and edge changes of all nodes, each as often as it is there,
-- with its certname, its own index in the node's list, its kind, what it changes and its values.
pub sorted_groups-conserves :
    (nds : List NodeDiff) → SameItems (entries (sorted_groups nds)) (changes_of nds)
unfolding sorted_groups
sorted_groups-conserves nds p = omega (
  arith,
  count-entries-map p (λ a b. not (member_less b a))
      (sort (λ (a, ms) (b, ns). not (key_less b a)) (collect nds ([], 0)).0),
  count-entries-sort p (λ (a, ms) (b, ns). not (key_less b a)) (collect nds ([], 0)).0,
  count-collect p nds ([], 0),
)
