-- ===== src/Examples/Groups.antt =====
-- Grouping on two example nodes.
use piace.Base.{String, true, List, [], ◌∷◌, ◌≡◌, refl, none, length}
use piace.Base.Order.{str_le}
use piace.Base.Sort.{sort, SameItems}
use piace.Model.Value.{Value, str, obj, end, field, get}
use piace.Model.Change.{ChangeKind, ResourceChange, NodeDiff, EdgeChange}
use piace.Aggregate.{sorted_groups, Member}
use piace.Model.Value.Equal.{HasDistinctKeys}
use piace.Aggregate.Laws.{entries, changes_of, sorted_groups-conserves}
use piace.Examples.Data.{service, edge}

abbrev change : String → ResourceChange
change fingerprint = record {
  kind = ChangeKind.parameter_changed;
  identity = service;
  parameter = "ensure";
  before = str "running";
  after = str "stopped";
  file_content = none;
  fingerprint = fingerprint;
}

abbrev node : String → List ResourceChange → NodeDiff
node certname changes = record {
  certname = certname;
  resource_changes = changes;
  edge_changes = removed ∷ [];
  exclusions = [];
  has_difference = true;
}
  where
    removed : EdgeChange
    removed = record { kind = ChangeKind.edge_removed; edge = edge "a" "b" }

abbrev nodes : List NodeDiff
nodes =
    node "web2" (change "sha256:01" ∷ change "" ∷ [])
    ∷ node "web1" (change "sha256:01" ∷ change "" ∷ [])
    ∷ []

-- The equal changes share a group, those without a fingerprint do not.
four_groups : length (sorted_groups nodes) ≡ 4
unfolding sorted_groups sort str_le
four_groups = refl

sorted_groups-conserves_example : SameItems (entries (sorted_groups nodes)) (changes_of nodes)
sorted_groups-conserves_example = sorted_groups-conserves nodes

abbrev shown : Value
shown = obj (field "ensure" (str "present") end)

abbrev member : Member
member = record { certname = "web1"; index = 0; before = shown; after = shown; content = none }

shown-HasDistinctKeys : HasDistinctKeys shown
unfolding HasDistinctKeys get
shown-HasDistinctKeys = (refl, tt, tt)
