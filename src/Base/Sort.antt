-- ===== src/Base/Sort.antt =====
-- `sort.Slice`, `sort.SliceStable` and `sort.Strings` by insertion: a later element goes behind the
-- earlier ones that are not greater, so the sort is stable. `le a b` is `!less(b, a)` of the source.
pub mod Items
use Prim.Native.Nat.{ℕ, ◌+◌, ◌<◌}
use mathlib.Core.Path.{◌≡◌, refl, sym, ◌∙◌, ap}
use mathlib.Core.Bool.{Bool, true, false}
use mathlib.Core.Logic.{inl, inr}
use mathlib.Core.List.{List, [], ◌∷◌}
use native.Mathlib.Omega.{arith}
use piace.Base.Tests.{if◌then◌else◌, Bool-cases}
use piace.Base.Lists.{any, All}
use piace.Base.Equality.{Eq, ◌==◌, beq_refl, beq-cases, contains, IsNodup}
use piace.Base.Order.{Ord}

module _ {ℓ} {A : Type ℓ} where
  unfoldable pub insert : (A → A → Bool) → A → List A → List A
  insert le x [] = x ∷ []
  insert le x (y ∷ ys) = if le x y then x ∷ y ∷ ys else y ∷ insert le x ys

  unfoldable pub sort : (A → A → Bool) → List A → List A
  unfolding insert
  sort le [] = []
  sort le (x ∷ xs) = insert le x (sort le xs)

  abbrev pub count : (A → Bool) → List A → ℕ
  count p [] = 0
  count p (x ∷ xs) = (if p x then 1 else 0) + count p xs

  -- Two lists hold the same items, as often: every test counts the same on both.
  abbrev pub SameItems : List A → List A → Type ℓ
  SameItems xs ys = (p : A → Bool) → count p xs ≡ count p ys

  count-insert :
      (le : A → A → Bool) (p : A → Bool) (x : A) (xs : List A)
      → count p (insert le x xs) ≡ count p (x ∷ xs)
  unfolding insert
  count-insert le p x [] = refl
  count-insert le p x (y ∷ ys) = ground (arith, count-insert le p x ys)

  -- Sorting keeps the items.
  pub sort-SameItems : (le : A → A → Bool) (xs : List A) → SameItems (sort le xs) xs
  unfolding sort
  sort-SameItems le [] p = refl
  sort-SameItems le (x ∷ xs) p =
      omega (arith, count-insert le p x (sort le xs), sort-SameItems le xs p)

  pub any-count : (p : A → Bool) (xs : List A) → any p xs ≡ true → 0 < count p xs
  any-count p [] h = ground arith
  any-count p (x ∷ xs) h = ground (arith, any-count p xs)

  pub count-any : (p : A → Bool) (xs : List A) → 0 < count p xs → any p xs ≡ true
  count-any p [] h = ground arith
  count-any p (x ∷ xs) h = ground (arith, count-any p xs)

  pub any-SameItems : (p : A → Bool) (xs ys : List A) → SameItems xs ys → any p xs ≡ any p ys
  any-SameItems p xs ys h =
      ground (arith, h p, any-count p xs, count-any p xs, any-count p ys, count-any p ys)

  pub any-sort : (le : A → A → Bool) (p : A → Bool) (xs : List A) → any p (sort le xs) ≡ any p xs
  any-sort le p xs = any-SameItems p (sort le xs) xs (sort-SameItems le xs)

module _ {ℓ} {A : Type ℓ} (le : A → A → Bool) where
  -- Pairwise ascending.
  abbrev pub IsSorted : List A → Type 0
  IsSorted [] = Unit
  IsSorted (x ∷ xs) = All (λ y. le x y ≡ true) xs × IsSorted xs

module _ {ℓ} {A : Type ℓ} (le : A → A → Bool) (total : (a b : A) → le a b ≡ false → le b a ≡ true)
    (trans : (a b c : A) → le a b ≡ true → le b c ≡ true → le a c ≡ true) where
  All-le_trans :
      (x y : A) (ys : List A)
      → le x y ≡ true
      → All (λ z. le y z ≡ true) ys
      → All (λ z. le x z ≡ true) ys
  All-le_trans x y [] h k = tt
  All-le_trans x y (z ∷ ys) h (k, ks) = (trans x y z h k, All-le_trans x y ys h ks)

  All-insert :
      (w x : A) (ys : List A)
      → le w x ≡ true
      → All (λ z. le w z ≡ true) ys
      → All (λ z. le w z ≡ true) (insert le x ys)
  unfolding insert
  All-insert w x [] h k = (h, tt)
  All-insert w x (y ∷ ys) h (k, ks) = ground (arith, All-insert w x ys h ks)

  insert-IsSorted : (x : A) (ys : List A) → IsSorted le ys → IsSorted le (insert le x ys)
  unfolding insert
  insert-IsSorted x [] s = (tt, tt)
  insert-IsSorted x (y ∷ ys) (h, s) = elim (Bool-cases (le x y)) [
    | inl e ↦ rw e ((e, All-le_trans x y ys e h), (h, s))
    | inr e ↦ rw e (All-insert y x ys (total x y e) h, insert-IsSorted x ys s)
  ]

  -- The sort is ascending, for a total and transitive comparison.
  pub sort-IsSorted : (xs : List A) → IsSorted le (sort le xs)
  unfolding sort
  sort-IsSorted [] = tt
  sort-IsSorted (x ∷ xs) = insert-IsSorted x (sort le xs) (sort-IsSorted xs)

module _ {ℓ} {A : Type ℓ} ⦃e : Eq A⦄ (le : A → A → Bool)
    (antisymm : (a b : A) → le a b ≡ true → le b a ≡ true → a ≡ b) where
  All-le_at :
      (x y : A) (ys : List A)
      → All (λ z. le x z ≡ true) ys
      → any (λ z. z == y) ys ≡ true
      → le x y ≡ true
  All-le_at x y [] h m = ground arith
  All-le_at x y (z ∷ ys) (h, hs) m = ground (arith, e.eqb_iff z y, All-le_at x y ys hs)

  head_eq :
      (x y : A) (xs ys : List A)
      → All (λ z. le x z ≡ true) xs
      → All (λ z. le y z ≡ true) ys
      → SameItems (x ∷ xs) (y ∷ ys)
      → x ≡ y
  head_eq x y xs ys h k same = ground (
    arith,
    antisymm x y,
    All-le_at x y xs h,
    All-le_at y x ys k,
    e.eqb_iff x y,
    e.eqb_iff y x,
    beq_refl x,
    beq_refl y,
    any-SameItems (λ z. z == x) (x ∷ xs) (y ∷ ys) same,
    any-SameItems (λ z. z == y) (x ∷ xs) (y ∷ ys) same,
  )

  -- Ascending lists with the same items are equal.
  pub IsSorted-eq_of_SameItems :
      (xs ys : List A) → IsSorted le xs → IsSorted le ys → SameItems xs ys → xs ≡ ys
  IsSorted-eq_of_SameItems [] [] h k same = refl
  IsSorted-eq_of_SameItems [] (y ∷ ys) h k same = absurd (omega (arith, same (λ z. true)))
  IsSorted-eq_of_SameItems (x ∷ xs) [] h k same = absurd (omega (arith, same (λ z. true)))
  IsSorted-eq_of_SameItems (x ∷ xs) (y ∷ ys) (h, hs) (k, ks) same =
      let p : x ≡ y = head_eq x y xs ys h k same in
      let rest : xs ≡ ys =
        IsSorted-eq_of_SameItems xs ys hs ks
          (λ q. omega (arith, same q, ap {B = ℕ} (λ z. if q z then 1 else 0) p)) in
      cc

module _ {ℓ} {A : Type ℓ} ⦃e : Eq A⦄ ⦃o : Ord A⦄ where
  -- The sorted list depends on the items alone, not on the order in which they came.
  pub sort-eq_of_SameItems : (xs ys : List A) → SameItems xs ys → sort o.le xs ≡ sort o.le ys
  sort-eq_of_SameItems xs ys same =
      IsSorted-eq_of_SameItems o.le o.le_antisymm (sort o.le xs) (sort o.le ys)
        (sort-IsSorted o.le o.le_total o.le_trans xs) (sort-IsSorted o.le o.le_total o.le_trans ys)
        (λ p. sort-SameItems o.le xs p ∙ same p ∙ sym (sort-SameItems o.le ys p))

module _ {ℓ} {A : Type ℓ} ⦃e : Eq A⦄ (le : A → A → Bool) where
  contains-any : (x : A) (ys : List A) → contains x ys ≡ any (λ z. z == x) ys
  contains-any x [] = refl
  contains-any x (y ∷ ys) = ground (arith, contains-any x ys)

  insert-IsNodup :
      (x : A) (ys : List A) → contains x ys ≡ false → IsNodup ys → IsNodup (insert le x ys)
  unfolding insert
  insert-IsNodup x [] h k = (refl, tt)
  insert-IsNodup x (y ∷ ys) h (n, k) = elim (Bool-cases (le x y)) [
    | inl b ↦ rw b (h, (n, k))
    | inr b ↦ rw b (
      ground (
        arith,
        any-SameItems (λ z. z == y) (insert le x ys) (x ∷ ys) (λ p. count-insert le p x ys),
        contains-any y (insert le x ys),
        contains-any y ys,
        n,
        h,
        beq-cases x y,
        beq-cases y x,
      ),
      insert-IsNodup x ys (ground (arith, h)) k,
    )
  ]

  -- Sorting gives no item twice if there was none.
  pub sort-IsNodup : (xs : List A) → IsNodup xs → IsNodup (sort le xs)
  unfolding sort
  sort-IsNodup [] h = tt
  sort-IsNodup (x ∷ xs) (n, h) =
      insert-IsNodup x (sort le xs)
        (ground
          (arith, n, contains-any x (sort le xs), contains-any x xs, any-sort le (λ z. z == x) xs))
        (sort-IsNodup xs h)
