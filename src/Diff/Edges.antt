-- ===== src/Diff/Edges.antt =====
-- internal/diff/edges.go: the edges of one catalog that the other lacks.
pub mod Laws
use piace.Base.{
  String, Bool, true, false, not, ◌&&◌, ◌||◌, List, [], ◌∷◌, ◌++◌, map, keep, contains, ◌==◌,
  string_eq, if◌then◌else◌,
}
use piace.Base.Order.{str_lt, str_le}
use piace.Base.Sort.{sort}
use piace.Model.Catalog.{Edge, edge_eq}
use piace.Model.Change.{ChangeKind, EdgeChange}

-- The string that the kind is compared by.
unfoldable pub kind_text : ChangeKind → String
kind_text ChangeKind.resource_added = "resource_added"
kind_text ChangeKind.resource_removed = "resource_removed"
kind_text ChangeKind.parameter_changed = "parameter_changed"
kind_text ChangeKind.edge_added = "edge_added"
kind_text ChangeKind.edge_removed = "edge_removed"

unfoldable pub edge_change_less : EdgeChange → EdgeChange → Bool
unfolding kind_text
edge_change_less a b =
    if not (a.edge.source == b.edge.source)
    then str_lt a.edge.source b.edge.source
    else if not (a.edge.target == b.edge.target)
    then str_lt a.edge.target b.edge.target
    else str_lt (kind_text a.kind) (kind_text b.kind)

unfoldable pub edge_change_le : EdgeChange → EdgeChange → Bool
unfolding edge_change_less
edge_change_le a b = not (edge_change_less b a)

-- The loop over one side: a change for each edge that is not in the set of the other side.
unfoldable pub missing_edges : ChangeKind → List Edge → List Edge → List EdgeChange
missing_edges kind other edges =
    map (λ e. record { kind = kind; edge = e }) (keep (λ e. not (contains e other)) edges)

unfoldable pub diff_edges : List Edge → List Edge → List EdgeChange
unfolding edge_change_le missing_edges
diff_edges before after = sort edge_change_le (
    missing_edges ChangeKind.edge_removed after before
    ++ missing_edges ChangeKind.edge_added before after)
