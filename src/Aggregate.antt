-- ===== src/Aggregate.antt =====
-- internal/aggregate/build.go: the changes of all nodes, grouped. A failed type assertion or an
-- index out of range, at which Go panics, is `none`.
pub mod Build
pub mod Laws
use piace.Base.{
  ℕ, zero, suc, ◌+◌, String, Bool, true, false, not, ◌&&◌, ◌||◌, Option, none, some, List, [], ◌∷◌,
  ◌++◌, map, ◌==◌, string_eq, if◌then◌else◌, ltb, nat_eq,
}
use piace.Base.Order.{str_lt}
use piace.Base.Sort.{sort}
use piace.Model.Value.{
  Value, null, bool, str, num, arr, obj, Items, nil, cons, Fields, end, field, get, at,
}
use piace.Model.Catalog.{
  ResourceIdentity, identity_eq, Edge, edge_eq, FileContentEvidence, FileContentSummary,
  FileSideEvidence, FileSideSummary, EvidenceSource,
}
use piace.Model.Change.{
  ChangeKind, ResourceChange, EdgeChange, NodeDiff, AggregateChangeKey, AggregateGroup,
  NodeChangeRef, redacted_value,
}
use piace.FileContent.Evidence.{same_source}

pub record GroupKey : Type 0 where
  pub kind : ChangeKind
  pub resource_key : ResourceIdentity
  pub parameter : String
  pub edge : Edge
  pub fingerprint : String
  pub unfingerprintable_seq : ℕ

pub record Member : Type 0 where
  pub certname : String
  pub index : ℕ
  pub before : Value
  pub after : Value
  pub content : Option FileContentEvidence

unfoldable pub kind_order : ChangeKind → ℕ
kind_order ChangeKind.resource_added = 0
kind_order ChangeKind.resource_removed = 1
kind_order ChangeKind.parameter_changed = 2
kind_order ChangeKind.edge_added = 3
kind_order ChangeKind.edge_removed = 4

unfoldable pub is_edge_kind : ChangeKind → Bool
is_edge_kind ChangeKind.edge_added = true
is_edge_kind ChangeKind.edge_removed = true
is_edge_kind _ = false

-- `==` on the keys; two kinds are the same if their places in the order are.
unfoldable pub same_key : GroupKey → GroupKey → Bool
unfolding kind_order
same_key a b =
    nat_eq (kind_order a.kind) (kind_order b.kind)
    && a.resource_key == b.resource_key
    && a.parameter == b.parameter
    && a.edge == b.edge
    && a.fingerprint == b.fingerprint
    && nat_eq a.unfingerprintable_seq b.unfingerprintable_seq

-- `order` with `members`: the keys in the order of their first change.
abbrev pub Groups : Type 0
Groups = List (GroupKey × List Member)

unfoldable pub add : GroupKey → Member → Groups → Groups
unfolding same_key
add key m [] = (key, m ∷ []) ∷ []
add key m ((k, ms) ∷ gs) =
    let later = (k, ms) ∷ add key m gs in if same_key k key then (k, ms ++ (m ∷ [])) ∷ gs else later

-- The groups, and the number of changes without a fingerprint so far.
abbrev Collected : Type 0
Collected = Groups × ℕ

abbrev no_identity : ResourceIdentity
no_identity = record { type = ""; title = "" }

abbrev no_edge : Edge
no_edge = record { source = ""; target = "" }

next_seq : ResourceChange → ℕ → ℕ
next_seq c n = if c.fingerprint == "" then suc n else n

unfoldable pub resource_key_of : ResourceChange → ℕ → GroupKey
unfolding next_seq
resource_key_of c n = record {
  kind = c.kind;
  resource_key = c.identity;
  parameter = c.parameter;
  edge = no_edge;
  fingerprint = c.fingerprint;
  unfingerprintable_seq = if c.fingerprint == "" then next_seq c n else 0;
}

unfoldable pub resource_member : String → ℕ → ResourceChange → Member
resource_member certname i c = record {
  certname = certname;
  index = i;
  before = c.before;
  after = c.after;
  content = c.file_content;
}

unfoldable pub add_resources : String → ℕ → List ResourceChange → Collected → Collected
unfolding add next_seq resource_key_of resource_member
add_resources certname i [] c = c
add_resources certname i (change ∷ changes) (gs, n) =
    add_resources certname (suc i) changes
      (add (resource_key_of change n) (resource_member certname i change) gs, next_seq change n)

unfoldable pub edge_key_of : EdgeChange → GroupKey
edge_key_of c = record {
  kind = c.kind;
  resource_key = no_identity;
  parameter = "";
  edge = c.edge;
  fingerprint = "";
  unfingerprintable_seq = 0;
}

unfoldable pub edge_member : String → ℕ → Member
edge_member certname i = record {
  certname = certname;
  index = i;
  before = null;
  after = null;
  content = none;
}

unfoldable pub add_edges : String → ℕ → List EdgeChange → Collected → Collected
unfolding add edge_key_of edge_member
add_edges certname i [] c = c
add_edges certname i (change ∷ changes) (gs, n) =
    add_edges certname (suc i) changes (add (edge_key_of change) (edge_member certname i) gs, n)

-- The loop over the nodes.
unfoldable pub collect : List NodeDiff → Collected → Collected
unfolding add_resources add_edges
collect [] c = c
collect (nd ∷ nds) c =
    collect nds
      (add_edges nd.certname 0 nd.edge_changes (add_resources nd.certname 0 nd.resource_changes c))

resource_key_less : GroupKey → GroupKey → Bool
resource_key_less a b =
    if not (a.resource_key.type == b.resource_key.type)
    then str_lt a.resource_key.type b.resource_key.type
    else if not (a.resource_key.title == b.resource_key.title)
    then str_lt a.resource_key.title b.resource_key.title
    else if not (a.parameter == b.parameter)
    then str_lt a.parameter b.parameter
    else if not (a.fingerprint == b.fingerprint)
    then str_lt a.fingerprint b.fingerprint
    else ltb a.unfingerprintable_seq b.unfingerprintable_seq

edge_key_less : GroupKey → GroupKey → Bool
edge_key_less a b =
    if not (a.edge.source == b.edge.source)
    then str_lt a.edge.source b.edge.source
    else str_lt a.edge.target b.edge.target

-- The `less` of `sortGroupKeys`.
unfoldable pub key_less : GroupKey → GroupKey → Bool
unfolding resource_key_less edge_key_less kind_order is_edge_kind
key_less a b =
    if not (nat_eq (kind_order a.kind) (kind_order b.kind))
    then ltb (kind_order a.kind) (kind_order b.kind)
    else if is_edge_kind a.kind
    then edge_key_less a b
    else resource_key_less a b

unfoldable pub member_less : Member → Member → Bool
member_less a b =
    if not (a.certname == b.certname) then str_lt a.certname b.certname else ltb a.index b.index

-- The groups in their order, the members of each in theirs.
unfoldable pub sorted_groups : List NodeDiff → Groups
unfolding collect key_less member_less
sorted_groups nds =
    map (λ (k, ms). (k, sort (λ a b. not (member_less b a)) ms))
      (sort (λ (a, ms) (b, ns). not (key_less b a)) (collect nds ([], 0)).0)
