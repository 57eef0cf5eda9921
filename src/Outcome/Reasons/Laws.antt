-- ===== src/Outcome/Reasons/Laws.antt =====
-- The reasons of a run, and the order of its targets and diagnostics.
use piace.Base.{
  ◌≤◌, ◌≡◌, ◌↔◌, ◌++◌, map, arith, Bool, true, false, ◌&&◌, Eq, ◌==◌, string_eq, eq_iff, length,
  nat_eq,
}
use piace.Base.Order.{Ord, str_le_total, str_le_trans, str_le_antisymm}
use piace.Base.Sort.{SameItems, sort-eq_of_SameItems}
use piace.Base.Sort.Items.{SameItems-append, SameItems-map, SameItems-gather, length_of_SameItems}
use piace.Model.Diagnostic.{Diagnostic}
use piace.Model.Result.{TargetResult, Result}
use piace.Outcome.{Reason, diagnostic_reason, target_reason, classify_outcome, finalize}
use piace.Outcome.Reasons.{
  reason_le, diagnostic_reasons, target_reasons, sorted_reasons, build_reasons, reduce_result,
}

abbrev reason_beq : Reason → Reason → Bool
reason_beq a b = nat_eq a.rank b.rank && (a.certname == b.certname && a.text == b.text)

reason_beq_iff : (a b : Reason) → (reason_beq a b ≡ true) ↔ (a ≡ b)
reason_beq_iff a b = ground (arith, eq_iff a.certname b.certname, eq_iff a.text b.text)

instance reason_eq : Eq Reason
reason_eq = record { eqb = reason_beq; eqb_iff = reason_beq_iff }

reason_le_total : (a b : Reason) → reason_le a b ≡ false → reason_le b a ≡ true
unfolding reason_le
reason_le_total a b h = ground (
  arith,
  eq_iff a.certname b.certname,
  eq_iff b.certname a.certname,
  str_le_total a.certname b.certname,
  str_le_total a.text b.text,
)

reason_le_antisymm : (a b : Reason) → reason_le a b ≡ true → reason_le b a ≡ true → a ≡ b
unfolding reason_le
reason_le_antisymm a b h k = ground (
  arith,
  eq_iff a.certname b.certname,
  eq_iff b.certname a.certname,
  str_le_antisymm a.certname b.certname,
  str_le_antisymm a.text b.text,
)

reason_le_trans :
    (a b c : Reason) → reason_le a b ≡ true → reason_le b c ≡ true → reason_le a c ≡ true
unfolding reason_le
reason_le_trans a b c h k = ground (
  arith,
  eq_iff b.certname a.certname,
  eq_iff c.certname b.certname,
  eq_iff c.certname a.certname,
  str_le_trans a.certname b.certname c.certname,
  str_le_antisymm a.certname b.certname,
  str_le_antisymm c.certname b.certname,
  str_le_trans a.text b.text c.text,
)

instance reason_ord : Ord Reason
reason_ord = record {
  le = reason_le;
  le_total = reason_le_total;
  le_trans = reason_le_trans;
  le_antisymm = reason_le_antisymm;
}

diagnostic_reason_short : (d : Diagnostic) → length (diagnostic_reason d) ≤ 1
unfolding diagnostic_reason
diagnostic_reason_short d = ground arith

target_reason_short : (t : TargetResult) → length (target_reason t) ≤ 1
unfolding target_reason
target_reason_short t = ground arith

SameItems-reasons :
    (r s : Result)
    → SameItems r.targets s.targets
    → SameItems r.diagnostics s.diagnostics
    → sorted_reasons r ≡ sorted_reasons s
unfolding sorted_reasons reason_ord
SameItems-reasons r s h k =
    sort-eq_of_SameItems (diagnostic_reasons r.diagnostics ++ target_reasons r.targets)
      (diagnostic_reasons s.diagnostics ++ target_reasons s.targets)
      (SameItems-append (diagnostic_reasons r.diagnostics) (target_reasons r.targets)
        (diagnostic_reasons s.diagnostics) (target_reasons s.targets)
        (SameItems-gather diagnostic_reason diagnostic_reason_short r.diagnostics s.diagnostics k)
        (SameItems-gather target_reason target_reason_short r.targets s.targets h))

build_reasons_eq :
    (r s : Result)
    → SameItems r.targets s.targets
    → SameItems r.diagnostics s.diagnostics
    → build_reasons r ≡ build_reasons s
unfolding build_reasons
build_reasons_eq r s h k = rw (SameItems-reasons r s h k, length_of_SameItems r.targets s.targets h)

-- The reasons of a run depend on its targets and run-level diagnostics alone, not on the order in
-- which the pipeline collected them.
pub reasons_of_SameItems :
    (r s : Result)
    → SameItems r.targets s.targets
    → SameItems r.diagnostics s.diagnostics
    → (reduce_result r).reasons ≡ (reduce_result s).reasons
unfolding reduce_result finalize
reasons_of_SameItems r s h k =
    build_reasons_eq (finalize (record r { targets = map classify_outcome r.targets }))
      (finalize (record s { targets = map classify_outcome s.targets })) same k
  where
    same : SameItems (map classify_outcome r.targets) (map classify_outcome s.targets)
    same = SameItems-map classify_outcome r.targets s.targets h
