-- ===== src/Base/Equality.antt =====
-- Go's `==` as an interface: a Boolean test that decides paths, for texts and what is built of them.
use Prim.Native.String.{String}
use mathlib.Core.Path.{◌≡◌, refl}
use mathlib.Core.Logic.{◌↔◌, ◌⊎◌, inl, inr}
use mathlib.Core.Bool.{Bool, true, false, ◌||◌}
use mathlib.Core.List.{List, [], ◌∷◌, ◌++◌}
use mathlib.Core.Option.{Option, none, some}
use native.Mathlib.Omega.{arith}
use text.Mathlib.Text.{◌==◌ as str_eq}
use text.Mathlib.TextEquality.{eq_iff}
use piace.Base.Tests.{if◌then◌else◌, Bool-cases}

pub record Eq {ℓ} (A : Type ℓ) : Type ℓ where
  pub eqb : A → A → Bool
  pub eqb_iff : (a b : A) → (eqb a b ≡ true) ↔ (a ≡ b)

infix 50 ◌==◌
abbrev pub ◌==◌ {ℓ} : {A : Type ℓ} ⦃e : Eq A⦄ → A → A → Bool
◌==◌ ⦃e⦄ = e.eqb

instance abbrev pub string_eq : Eq String
string_eq = record { eqb = str_eq; eqb_iff = eq_iff }

module _ {ℓ} {A : Type ℓ} ⦃e : Eq A⦄ where
  pub beq_refl : (a : A) → (a == a) ≡ true
  beq_refl a = (e.eqb_iff a a).1 refl

  pub beq-cases : (a b : A) → ((a == b) ≡ true) × (a ≡ b) ⊎ ((a == b) ≡ false) × ¬ (a ≡ b)
  beq-cases a b = elim (Bool-cases (a == b)) [
    | inl h ↦ inl (h, (e.eqb_iff a b).0 h)
    | inr h ↦ inr (h, λ p. cc (h, (e.eqb_iff a b).1 p))
  ]

  -- Membership in a set of values, as Go's `map[A]bool`.
  abbrev pub contains : A → List A → Bool
  contains a [] = false
  contains a (x ∷ xs) = x == a || contains a xs

  pub contains-append :
      (a : A) (xs ys : List A) → contains a (xs ++ ys) ≡ (contains a xs || contains a ys)
  contains-append a [] ys = refl
  contains-append a (x ∷ xs) ys = ground (arith, contains-append a xs ys)

  abbrev pub IsNodup : List A → Type 0
  IsNodup [] = Unit
  IsNodup (x ∷ xs) = (contains x xs ≡ false) × IsNodup xs

  -- Go's `map[A]V`, as the list of its entries.
  abbrev pub lookup {κ} : {V : Type κ} → A → List (A × V) → Option V
  lookup a [] = none
  lookup a ((k, v) ∷ m) = if k == a then some v else lookup a m
