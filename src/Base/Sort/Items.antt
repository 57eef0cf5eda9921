-- ===== src/Base/Sort/Items.antt =====
-- Lists with the same items under `append`, `map` and loops that gather.
use Prim.Native.Nat.{◌+◌, ◌≤◌}
use mathlib.Core.Path.{◌≡◌, refl, sym, ◌∙◌, ap}
use mathlib.Core.Bool.{Bool, true}
use mathlib.Core.List.{List, [], ◌∷◌, ◌++◌, map}
use native.Mathlib.Omega.{arith}
use mathlib.Core.Logic.{inl, inr}
use piace.Base.Tests.{if◌then◌else◌, Bool-cases}
use piace.Base.Lists.{any, length}
use piace.Base.Sort.{count, SameItems, sort, insert}

module _ {ℓ} {A : Type ℓ} where
  pub count-append : (p : A → Bool) (xs ys : List A) → count p (xs ++ ys) ≡ count p xs + count p ys
  count-append p [] ys = omega arith
  count-append p (x ∷ xs) ys = omega (arith, count-append p xs ys)

  pub SameItems-append :
      (xs ys us vs : List A) → SameItems xs us → SameItems ys vs → SameItems (xs ++ ys) (us ++ vs)
  SameItems-append xs ys us vs h k p =
      omega (arith, count-append p xs ys, count-append p us vs, h p, k p)

  count-short :
      (p : A → Bool) (ys : List A) → length ys ≤ 1 → count p ys ≡ (if any p ys then 1 else 0)
  count-short p [] h = refl
  count-short p (y ∷ []) h = ground arith
  count-short p (y ∷ z ∷ ys) h = absurd (omega arith)

  length-count : (xs : List A) → length xs ≡ count (λ a. true) xs
  length-count [] = refl
  length-count (x ∷ xs) = omega (arith, length-count xs)

  pub length_of_SameItems : (xs ys : List A) → SameItems xs ys → length xs ≡ length ys
  length_of_SameItems xs ys h = length-count xs ∙ (h (λ a. true) ∙ sym (length-count ys))

module _ {ℓ κ} {A : Type ℓ} {B : Type κ} where
  count-map :
      (p : B → Bool) (f : A → B) (xs : List A) → count p (map f xs) ≡ count (λ a. p (f a)) xs
  count-map p f [] = refl
  count-map p f (x ∷ xs) = omega (arith, count-map p f xs)

  pub SameItems-map :
      (f : A → B) (xs ys : List A) → SameItems xs ys → SameItems (map f xs) (map f ys)
  SameItems-map f xs ys h p = count-map p f xs ∙ (h (λ a. p (f a)) ∙ sym (count-map p f ys))

  -- A loop that appends at most one item for each element.
  abbrev pub gather : (A → List B) → List A → List B
  gather f [] = []
  gather f (x ∷ xs) = f x ++ gather f xs

module _ {ℓ κ} {A : Type ℓ} {B : Type κ} where
  count-gather :
      (p : B → Bool) (f : A → List B)
      → ((a : A) → length (f a) ≤ 1)
      → (xs : List A) → count p (gather f xs) ≡ count (λ a. any p (f a)) xs
  count-gather p f short [] = refl
  count-gather p f short (x ∷ xs) = omega (
    arith,
    count-append p (f x) (gather f xs),
    count-short p (f x) (short x),
    count-gather p f short xs,
  )

  pub SameItems-gather :
      (f : A → List B)
      → ((a : A) → length (f a) ≤ 1)
      → (xs ys : List A) → SameItems xs ys
      → SameItems (gather f xs) (gather f ys)
  SameItems-gather f short xs ys h p =
      count-gather p f short xs ∙ (h (λ a. any p (f a)) ∙ sym (count-gather p f short ys))

module _ {ℓ κ} {A : Type ℓ} {B : Type κ} (f : A → B) (le : B → B → Bool) where
  map-insert :
      (x : A) (xs : List A)
      → map f (insert (λ a b. le (f a) (f b)) x xs) ≡ insert le (f x) (map f xs)
  unfolding insert
  map-insert x [] = refl
  map-insert x (y ∷ ys) = elim (Bool-cases (le (f x) (f y))) [
    | inl e ↦ rw e refl
    | inr e ↦ rw e (ap (λ l. f y ∷ l) (map-insert x ys))
  ]

  -- Sorting by a key, and the keys sorted.
  pub map-sort : (xs : List A) → map f (sort (λ a b. le (f a) (f b)) xs) ≡ sort le (map f xs)
  unfolding sort
  map-sort [] = refl
  map-sort (x ∷ xs) =
      map-insert x (sort (λ a b. le (f a) (f b)) xs) ∙ ap (insert le (f x)) (map-sort xs)
