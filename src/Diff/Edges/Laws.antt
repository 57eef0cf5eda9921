-- ===== src/Diff/Edges/Laws.antt =====
-- What the comparison of two edge lists reports.
use piace.Base.{
  any-append, Bool, true, not, ◌&&◌, ◌||◌, List, [], ◌∷◌, ◌++◌, map, contains, any, ◌==◌, string_eq,
  ◌≡◌, refl, ap, arith, All, All-map, keep-none, Bool-cases, inl, inr, beq_refl, beq-cases,
}
use piace.Base.Sort.{sort, any-sort}
use piace.Model.Catalog.{Edge, edge_eq}
use piace.Model.Change.{ChangeKind, EdgeChange}
use piace.Diff.Edges.{edge_change_le, missing_edges, diff_edges}

module _ (wanted : ChangeKind → Bool) (edge : Edge) where
  -- A change of a wanted kind for the edge is reported.
  abbrev pub reports : List EdgeChange → Bool
  reports = any (λ c. wanted c.kind && c.edge == edge)

  reports-missing :
      (kind : ChangeKind) (other edges : List Edge)
      → reports (missing_edges kind other edges)
        ≡ (wanted kind && (contains edge edges && not (contains edge other)))
  unfolding missing_edges
  reports-missing kind other [] = ground arith
  reports-missing kind other (e ∷ es) = elim (beq-cases e edge) [
    | inl (h, p) ↦ elim (Bool-cases (contains e other)) [
      | inl k ↦
          rw (k) (ground (arith, reports-missing kind other es, h, k, ap (λ a. contains a other) p))
      | inr k ↦
          rw (k) (ground (arith, reports-missing kind other es, h, k, ap (λ a. contains a other) p))
    ]
    | inr (h, _) ↦ elim (Bool-cases (contains e other)) [
      | inl k ↦ rw (k) (ground (arith, reports-missing kind other es, h))
      | inr k ↦ rw (k) (ground (arith, reports-missing kind other es, h))
    ]
  ]

-- Whatever kinds one asks for, an edge is reported as removed exactly if the first side has it and
-- the second has not, as added exactly if the second side has it and the first has not, and under no
-- other kind.
pub diff_edges-reports :
    (wanted : ChangeKind → Bool) (edge : Edge) (before after : List Edge)
    → reports wanted edge (diff_edges before after) ≡ (
        (wanted ChangeKind.edge_removed && (contains edge before && not (contains edge after)))
        || (wanted ChangeKind.edge_added && (contains edge after && not (contains edge before))))
unfolding diff_edges
diff_edges-reports wanted edge before after = ground (
  arith,
  any-sort edge_change_le (λ c. wanted c.kind && c.edge == edge)
      (missing_edges ChangeKind.edge_removed after before
        ++ missing_edges ChangeKind.edge_added before after),
  any-append (λ c. wanted c.kind && c.edge == edge)
      (missing_edges ChangeKind.edge_removed after before)
      (missing_edges ChangeKind.edge_added before after),
  reports-missing wanted edge ChangeKind.edge_removed after before,
  reports-missing wanted edge ChangeKind.edge_added before after,
)

missing_edges-same :
    (kind : ChangeKind) (all es : List Edge)
    → All (λ e. contains e all ≡ true) es
    → missing_edges kind all es ≡ []
unfolding missing_edges
missing_edges-same kind all es h =
    ap (map (λ e. record { kind = kind; edge = e }))
      (keep-none (λ e. not (contains e all)) es (All-map (λ e k. ap not k) es h))

own-edges : (es : List Edge) → All (λ e. contains e es ≡ true) es
own-edges [] = tt
own-edges (e ∷ es) = (
  ground (arith, beq_refl e),
  All-map {P = λ a. contains a es ≡ true} (λ a k. ground (arith, k)) es (own-edges es),
)

-- A list of edges has no difference to itself.
pub diff_edges-same : (es : List Edge) → diff_edges es es ≡ []
unfolding diff_edges sort
diff_edges-same es =
    rw
      (
        missing_edges-same ChangeKind.edge_removed es es (own-edges es),
        missing_edges-same ChangeKind.edge_added es es (own-edges es),
      )
      refl
