-- ===== src/Diff/Exclusion/Counts.antt =====
-- Counting in the outcomes of the exclusion rules.
use piace.Base.{
  ℕ, zero, suc, ◌+◌, ◌<◌, Bool, true, false, some, List, [], ◌∷◌, ◌==◌, string_eq, if◌then◌else◌,
  lookup, arith, ◌≡◌, refl, inl, inr, All, Bool-cases, length,
}
use piace.Model.Catalog.{ResourceIdentity, identity_eq}
use piace.Model.Change.{ChangeKind, ExclusionOutcome}
use piace.Diff.Exclusion.{RuleMap, update, count_kind, count_edge}

-- Everything that a rule suppressed.
abbrev pub suppressed : ExclusionOutcome → ℕ
suppressed c = c.suppressed_resources + (c.suppressed_parameters + c.suppressed_edges)

abbrev pub total : List ExclusionOutcome → ℕ
total [] = 0
total (c ∷ cs) = suppressed c + total cs

-- A kind that `rawResourceChange` has.
unfoldable pub is_resource_kind : ChangeKind → Bool
is_resource_kind ChangeKind.edge_added = false
is_resource_kind ChangeKind.edge_removed = false
is_resource_kind _ = true

abbrev pub InRange : ℕ → RuleMap → Type 0
InRange n = All (λ (identity, i). i < n)

pub length-update :
    (f : ExclusionOutcome → ExclusionOutcome) (i : ℕ) (cs : List ExclusionOutcome)
    → length (update f i cs) ≡ length cs
unfolding update
length-update f i [] = refl
length-update f zero (c ∷ cs) = refl
length-update f (suc i) (c ∷ cs) = omega (arith, length-update f i cs)

pub total-update :
    (f : ExclusionOutcome → ExclusionOutcome)
    → ((c : ExclusionOutcome) → suppressed (f c) ≡ suc (suppressed c))
    → (i : ℕ) (cs : List ExclusionOutcome) → i < length cs
    → total (update f i cs) ≡ suc (total cs)
unfolding update
total-update f step i [] h = absurd (omega arith)
total-update f step zero (c ∷ cs) h = omega (arith, step c)
total-update f step (suc i) (c ∷ cs) h = omega (arith, total-update f step i cs (omega arith))

pub suppressed-count_kind :
    (kind : ChangeKind) (c : ExclusionOutcome)
    → is_resource_kind kind ≡ true
    → suppressed (count_kind kind c) ≡ suc (suppressed c)
unfolding count_kind is_resource_kind
suppressed-count_kind ChangeKind.resource_added c h = omega arith
suppressed-count_kind ChangeKind.resource_removed c h = omega arith
suppressed-count_kind ChangeKind.parameter_changed c h = omega arith
suppressed-count_kind ChangeKind.edge_added c h = absurd (ground (arith, h))
suppressed-count_kind ChangeKind.edge_removed c h = absurd (ground (arith, h))

pub suppressed-count_edge : (c : ExclusionOutcome) → suppressed (count_edge c) ≡ suc (suppressed c)
unfolding count_edge
suppressed-count_edge c = omega arith

pub lookup-InRange :
    (n : ℕ) (m : RuleMap) (identity : ResourceIdentity) (i : ℕ)
    → InRange n m
    → lookup identity m ≡ some i
    → i < n
lookup-InRange n [] identity i r h = absurd cc
lookup-InRange n ((j, k) ∷ m) identity i (k<n, r) h = elim (Bool-cases (j == identity)) [
  | inl e ↦ omega (arith, here (j == identity) e h)
  | inr e ↦ lookup-InRange n m identity i r (later (j == identity) e h)
]
  where
    here : (b : Bool) → b ≡ true → (if b then some k else lookup identity m) ≡ some i → k ≡ i
    here true e h = cc
    here false e h = absurd (ground (arith, e))

    later :
        (b : Bool)
        → b ≡ false
        → (if b then some k else lookup identity m) ≡ some i
        → lookup identity m ≡ some i
    later true e h = absurd (ground (arith, e))
    later false e h = h
