-- ===== src/Outcome/Reasons.antt =====
-- `buildReasons` and `Reduce` of internal/model/outcome.go.
pub mod Laws
use Prim.Native.String.{◌++◌ as ◌<>◌}
use piace.Base.{
  ℕ, String, Bool, true, false, not, List, [], ◌∷◌, ◌++◌, map, ◌==◌, string_eq, if◌then◌else◌, ltb,
  nat_eq, length,
}
use piace.Base.Decimal.{decimal}
use piace.Base.Order.{str_lt}
use piace.Base.Sort.{sort}
use piace.Base.Sort.Items.{gather}
use piace.Model.Diagnostic.{Diagnostic}
use piace.Model.Result.{TargetResult, Result}
use piace.Outcome.{Reason, diagnostic_reason, target_reason, classify_outcome, finalize}

-- The `less` of the sort.
unfoldable pub reason_less : Reason → Reason → Bool
reason_less a b =
    if not (nat_eq a.rank b.rank)
    then ltb a.rank b.rank
    else if not (a.certname == b.certname)
    then str_lt a.certname b.certname
    else str_lt a.text b.text

unfoldable pub reason_le : Reason → Reason → Bool
unfolding reason_less
reason_le a b = not (reason_less b a)

unfoldable pub diagnostic_reasons : List Diagnostic → List Reason
unfolding diagnostic_reason
diagnostic_reasons ds = gather diagnostic_reason ds

unfoldable pub target_reasons : List TargetResult → List Reason
unfolding target_reason
target_reasons ts = gather target_reason ts

texts_or : String → List Reason → List String
texts_or default [] = default ∷ []
texts_or default rs = map (λ r. r.text) rs

unfoldable pub sorted_reasons : Result → List Reason
unfolding reason_le diagnostic_reasons target_reasons
sorted_reasons r = sort reason_le (diagnostic_reasons r.diagnostics ++ target_reasons r.targets)

unfoldable pub build_reasons : Result → List String
unfolding sorted_reasons texts_or
build_reasons r =
    texts_or (decimal (length r.targets) <> " target(s) compared with no non-excluded differences")
      (sorted_reasons r)

-- `func (r *Result) Reduce()`.
unfoldable pub reduce_result : Result → Result
unfolding classify_outcome finalize build_reasons
reduce_result r =
    let classified = record r { targets = map classify_outcome r.targets } in
    let final = finalize classified in record final { reasons = build_reasons final }
