-- ===== src/Exitcode/Laws.antt =====
-- The reduction of outcomes against the numeric exit codes.
use piace.Base.{
  ℕ, ◌≤◌, max, ◌≡◌, refl, ◌↔◌, ◌⊎◌, List, [], ◌∷◌, map, arith, Option, none, some, ap, ◌∙◌, true,
  All,
}
use piace.Exitcode.{Code, Outcome, for_outcome, reduce, reduce_from, reduce_all, success}

-- The greatest of a list of codes; `success` for none.
abbrev pub max_code : List Outcome → Code
max_code [] = success
max_code (o ∷ os) = max (for_outcome o) (max_code os)

pub for_outcome-reduce :
    (a b : Outcome) → for_outcome (reduce a b) ≡ max (for_outcome a) (for_outcome b)
unfolding for_outcome reduce
for_outcome-reduce a b = ground arith

for_outcome-reduce_from :
    (o : Outcome) (os : List Outcome)
    → for_outcome (reduce_from o os) ≡ max (for_outcome o) (max_code os)
unfolding reduce_from
for_outcome-reduce_from o [] = omega arith
for_outcome-reduce_from o (p ∷ os) =
    omega (arith, for_outcome-reduce o p, for_outcome-reduce_from (reduce o p) os)

-- The exit code of the reduced outcome is the greatest exit code among the outcomes, an
-- unrecognized outcome counting as an operational error, and success for no outcome at all.
pub for_outcome-reduce_all : (os : List Outcome) → for_outcome (reduce_all os) ≡ max_code os
unfolding reduce_all for_outcome
for_outcome-reduce_all [] = refl
for_outcome-reduce_all (o ∷ os) = for_outcome-reduce_from o os

pub max_code-append :
    (xs ys : List Outcome) → max_code (piace.Base.◌++◌ xs ys) ≡ max (max_code xs) (max_code ys)
max_code-append [] ys = omega arith
max_code-append (x ∷ xs) ys = omega (arith, max_code-append xs ys)
