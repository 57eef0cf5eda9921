-- ===== src/Exitcode.antt =====
-- internal/exitcode/exitcode.go: outcome classes, their precedence, and exit codes.
pub mod Laws
use piace.Base.{
  ℕ, suc, String, Bool, true, false, Option, none, some, List, [], ◌∷◌, map, leb, if◌then◌else◌,
}

-- `type Code int`; every code is one of the constants below.
abbrev pub Code : Type 0
Code = ℕ

abbrev pub success : Code
success = 0

abbrev pub policy_disallowed_difference_code : Code
policy_disallowed_difference_code = 10

abbrev pub compilation_failure_code : Code
compilation_failure_code = 20

abbrev pub operational_error_code : Code
operational_error_code = 30

-- `other` stands for a string that is none of the constants, the empty one included.
pub data Outcome : Type 0 where
  clean differences_allowed policy_disallowed_difference : Outcome
  compilation_failure operational_error : Outcome
  other : String → Outcome

unfoldable pub outcome_text : Outcome → String
outcome_text clean = "clean"
outcome_text differences_allowed = "differences_allowed"
outcome_text policy_disallowed_difference = "policy_disallowed_difference"
outcome_text compilation_failure = "compilation_failure"
outcome_text operational_error = "operational_error"
outcome_text (other s) = s

abbrev pub precedence : List Outcome
precedence =
    operational_error ∷ compilation_failure ∷ policy_disallowed_difference ∷ differences_allowed
    ∷ clean ∷ []

-- `p == o` for a constant `p`.
unfoldable pub same_outcome : Outcome → Outcome → Bool
same_outcome clean clean = true
same_outcome differences_allowed differences_allowed = true
same_outcome policy_disallowed_difference policy_disallowed_difference = true
same_outcome compilation_failure compilation_failure = true
same_outcome operational_error operational_error = true
same_outcome _ _ = false

unfoldable pub index_from : ℕ → List Outcome → Outcome → Option ℕ
index_from i [] o = none
index_from i (p ∷ ps) o = if same_outcome p o then some i else index_from (suc i) ps o

-- The map `rank`, with its second result.
unfoldable pub rank : Outcome → Option ℕ
unfolding index_from same_outcome
rank o = index_from 0 precedence o

unfoldable pub for_outcome : Outcome → Code
for_outcome clean = success
for_outcome differences_allowed = success
for_outcome policy_disallowed_difference = policy_disallowed_difference_code
for_outcome compilation_failure = compilation_failure_code
for_outcome operational_error = operational_error_code
for_outcome (other s) = operational_error_code

reduce_ranked : Outcome → Outcome → Option ℕ → Option ℕ → Outcome
reduce_ranked a b none rb = a
reduce_ranked a b (some ra) none = b
reduce_ranked a b (some ra) (some rb) = if leb ra rb then a else b

unfoldable pub reduce : Outcome → Outcome → Outcome
unfolding reduce_ranked rank
reduce a b = reduce_ranked a b (rank a) (rank b)

unfoldable pub reduce_from : Outcome → List Outcome → Outcome
reduce_from result [] = result
reduce_from result (o ∷ os) = reduce_from (reduce result o) os

-- The first element replaces the initial `clean`.
unfoldable pub reduce_all : List Outcome → Outcome
unfolding reduce_from
reduce_all [] = clean
reduce_all (o ∷ os) = reduce_from o os
