-- ===== src/Aggregate/Build.antt =====
-- `restrictProjection`, the summaries of file content, and `Build` of internal/aggregate/build.go.
pub mod Laws
use piace.Base.{
  ℕ, String, Bool, true, false, not, ◌&&◌, ◌||◌, Option, none, some, List, [], ◌∷◌, map, ◌==◌,
  string_eq, if◌then◌else◌,
}
use piace.Model.Value.{
  Value, null, bool, str, num, arr, obj, Items, nil, cons, Fields, end, field, get, at,
}
use piace.Model.Catalog.{
  FileContentEvidence, FileContentSummary, FileSideEvidence, FileSideSummary, EvidenceSource,
}
use piace.Model.Change.{NodeDiff, AggregateChangeKey, AggregateGroup, NodeChangeRef, redacted_value}
use piace.FileContent.Evidence.{same_source}
use piace.Aggregate.{GroupKey, Member, Groups, is_edge_kind, sorted_groups}

both : {A B C : Type 0} → (A → B → C) → Option A → Option B → Option C
both f none b = none
both f (some a) none = none
both f (some a) (some b) = some (f a b)

mapped : {A B : Type 0} → (A → B) → Option A → Option B
mapped f none = none
mapped f (some a) = some (f a)

abbrev marker : Value
marker = str redacted_value

unfoldable pub is_marker : Value → Bool
is_marker (str s) = s == redacted_value
is_marker _ = false

-- Beside a map or a list, the other value is the marker, or of the same shape; else Go panics.
marker_or_panic : Value → Option Value
unfolding is_marker
marker_or_panic b = if is_marker b then some marker else none

marker_or : Value → Value → Option Value
unfolding is_marker
marker_or a b = if is_marker a || is_marker b then some marker else some a

unfoldable mutual
  unfolding both mapped marker_or_panic marker_or get

  pub restrict : Value → Value → Option Value
  restrict (obj m) (obj n) = mapped obj (restrict_fields m n)
  restrict (arr vs) (arr ws) = mapped arr (restrict_items vs ws)
  restrict (obj m) b = marker_or_panic b
  restrict (arr vs) b = marker_or_panic b
  restrict a b = marker_or a b

  pub restrict_items : Items → Items → Option Items
  restrict_items nil ws = some nil
  restrict_items (cons v vs) nil = none
  restrict_items (cons v vs) (cons w ws) = both cons (restrict v w) (restrict_items vs ws)

  pub restrict_fields : Fields → Fields → Option Fields
  restrict_fields end n = some end
  restrict_fields (field k v m) n = both (field k) (restrict v (at k n)) (restrict_fields m n)

combine_side : Option FileSideSummary → Option FileSideEvidence → Option FileSideSummary
combine_side summary none = summary
combine_side none (some e) = some (record { source = e.source; verified = e.verified })
combine_side (some s) (some e) = some (record {
  source = if not (same_source s.source e.source) then EvidenceSource.mixed else s.source;
  verified = s.verified && e.verified;
})

start_summary : Option FileContentSummary → FileContentEvidence → FileContentSummary
start_summary none e = record {
  state = e.state;
  evidence_source = e.evidence_source;
  redacted = false;
  reference_changed = false;
  before = none;
  after = none;
}
start_summary (some s) e =
    if not (same_source s.evidence_source e.evidence_source)
    then record s { evidence_source = EvidenceSource.mixed }
    else s

add_evidence : FileContentSummary → FileContentEvidence → FileContentSummary
unfolding combine_side
add_evidence s e = record s {
  redacted = s.redacted || e.redacted;
  reference_changed = s.reference_changed || e.reference_changed;
  before = combine_side s.before e.before;
  after = combine_side s.after e.after;
}

unfoldable pub combine_summary :
    Option FileContentSummary → Option FileContentEvidence → Option FileContentSummary
unfolding start_summary add_evidence
combine_summary summary none = summary
combine_summary summary (some e) = some (add_evidence (start_summary summary e) e)

-- The loop over the members that follow the first.
unfoldable pub restrict_all : (Member → Value) → Option Value → List Member → Option Value
restrict_all side acc [] = acc
restrict_all side none (m ∷ ms) = none
restrict_all side (some v) (m ∷ ms) = restrict_all side (restrict v (side m)) ms

unfoldable pub summarize : Option FileContentSummary → List Member → Option FileContentSummary
unfolding combine_summary
summarize s [] = s
summarize s (m ∷ ms) = summarize (combine_summary s m.content) ms

-- The certname of each member that is not the one before it.
unfoldable pub certnames_of : Option String → List Member → List String
certnames_of last [] = []
certnames_of none (m ∷ ms) = m.certname ∷ certnames_of (some m.certname) ms
certnames_of (some last) (m ∷ ms) =
    let rest = certnames_of (some m.certname) ms in
    if not (last == m.certname) then m.certname ∷ rest else rest

unfoldable pub public_key : GroupKey → AggregateChangeKey
public_key k =
    if is_edge_kind k.kind
    then record { kind = k.kind; identity = none; parameter = ""; edge = some k.edge }
    else record {
      kind = k.kind;
      identity = some k.resource_key;
      parameter = k.parameter;
      edge = none;
    }

group_with : GroupKey → List Member → Option FileContentSummary → Value → Value → AggregateGroup
group_with k ms content before after = record {
  key = public_key k;
  file_content = content;
  before = before;
  after = after;
  certnames = certnames_of none ms;
  node_change_refs = map (λ m. record { certname = m.certname; index = m.index }) ms;
}

-- The values of both sides; a group has a first member.
group_values : GroupKey → List Member → Option AggregateGroup
unfolding both group_with restrict_all summarize
group_values k [] = none
group_values k (m ∷ ms) =
    both (group_with k (m ∷ ms) (summarize none (m ∷ ms)))
      (restrict_all (λ x. x.before) (some m.before) ms)
      (restrict_all (λ x. x.after) (some m.after) ms)

unfoldable pub group_of : GroupKey → List Member → Option AggregateGroup
unfolding group_values group_with
group_of k ms =
    if is_edge_kind k.kind then some (group_with k ms none null null) else group_values k ms

groups_of : Groups → Option (List AggregateGroup)
unfolding both group_of
groups_of [] = some []
groups_of ((k, ms) ∷ gs) = both (λ g rest. g ∷ rest) (group_of k ms) (groups_of gs)

unfoldable pub build : List NodeDiff → Option (List AggregateGroup)
unfolding groups_of sorted_groups
build nds = groups_of (sorted_groups nds)
