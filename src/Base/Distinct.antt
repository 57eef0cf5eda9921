-- ===== src/Base/Distinct.antt =====
-- A loop with a `seen` set that keeps the first occurrence of each item.
use mathlib.Core.Path.{◌≡◌, refl, ap}
use mathlib.Core.Logic.{inl, inr}
use mathlib.Core.Bool.{◌&&◌, not}
use mathlib.Core.List.{List, [], ◌∷◌}
use native.Mathlib.Omega.{arith}
use piace.Base.Tests.{if◌then◌else◌, Bool-cases}
use piace.Base.Equality.{Eq, contains, beq_refl, beq-cases, IsNodup}

module _ {ℓ} {A : Type ℓ} ⦃e : Eq A⦄ where
  unfoldable pub distinct : List A → List A → List A
  distinct seen [] = []
  distinct seen (x ∷ xs) =
      let rest = distinct (x ∷ seen) xs in if contains x seen then rest else x ∷ rest

  pub contains-distinct :
      (a : A) (seen xs : List A)
      → contains a (distinct seen xs) ≡ (contains a xs && not (contains a seen))
  unfolding distinct
  contains-distinct a seen [] = refl
  contains-distinct a seen (x ∷ xs) = elim (beq-cases x a) [
    | inl (h, p) ↦ ground (arith, contains-distinct a (x ∷ seen) xs, h, ap (λ b. contains b seen) p)
    | inr (h, _) ↦ ground (arith, contains-distinct a (x ∷ seen) xs, h)
  ]

  pub distinct-IsNodup : (seen xs : List A) → IsNodup (distinct seen xs)
  unfolding distinct
  distinct-IsNodup seen [] = tt
  distinct-IsNodup seen (x ∷ xs) = elim (Bool-cases (contains x seen)) [
    | inl h ↦ rw h (distinct-IsNodup (x ∷ seen) xs)
    | inr h ↦ rw h (
      ground (arith, contains-distinct x (x ∷ seen) xs, beq_refl x),
      distinct-IsNodup (x ∷ seen) xs,
    )
  ]

  -- Only the items of `seen` matter.
  pub distinct-same :
      (seen shown xs : List A)
      → ((a : A) → contains a seen ≡ contains a shown)
      → distinct seen xs ≡ distinct shown xs
  unfolding distinct
  distinct-same seen shown [] h = refl
  distinct-same seen shown (x ∷ xs) h =
      let same : distinct (x ∷ seen) xs ≡ distinct (x ∷ shown) xs =
        distinct-same (x ∷ seen) (x ∷ shown) xs (λ a. ground (arith, h a)) in
      elim (Bool-cases (contains x shown)) [
        | inl k ↦ rw (h x, k, same) refl
        | inr k ↦ rw (h x, k, same) refl
      ]
