-- ===== src/FileContent/Evidence/Laws.antt =====
-- The content evidence of a file that did not change.
use piace.Base.{
  String, Bool, true, false, not, ◌||◌, Option, none, List, [], ◌∷◌, string_eq, if◌then◌else◌, ◌≡◌,
  refl, sym, subst, ◌∙◌, ap, inl, inr, Bool-cases, beq_refl,
}
use piace.Model.Value.{at}
use piace.Model.Value.Equal.{deep_equal}
use piace.Model.Catalog.{
  ResourceIdentity, FileContentState, FileContentEvidence, FileSideEvidence, EvidenceSource,
}
use piace.Model.Diagnostic.{Severity, Diagnostic}
use piace.FileContent.{
  DigestEvidence, Fallible, ok, err, Retriever, Side, Options, parameters, manages_content,
  non_byte_comparable,
}
use piace.FileContent.Digest.{resolve_side}
use piace.FileContent.Evidence.{
  resolve_file_content_evidence, compared, comparable, two_sided, side_evidence, notice,
  state_from_digests, suppress_source_warning, unverified_reason, is_ok, blank, non_byte_reason,
}

-- The states in which a file gives no row.
abbrev pub IsQuiet : FileContentState → Type 0
IsQuiet FileContentState.unchanged = Unit
IsQuiet FileContentState.indeterminate = Unit
IsQuiet FileContentState.not_managed = Unit
IsQuiet _ = ⊥

IsQuiet-of : (state : FileContentState) → state ≡ FileContentState.indeterminate → IsQuiet state
IsQuiet-of state h = subst IsQuiet (sym h) tt

module _ (o : Options) (sides : List Side) (certname : String) (identity : ResourceIdentity) where
  notice-evidence :
      (severity : Severity) (reason : String) (e : FileContentEvidence)
      → (notice o sides severity certname identity reason e).0 ≡ e
  unfolding notice
  notice-evidence severity reason e =
      elim (Bool-cases (suppress_source_warning o severity e sides)) [
        | inl h ↦ rw h refl
        | inr h ↦ rw h refl
      ]

compared-IsQuiet :
    (unverified : FileContentEvidence × Option Diagnostic) (e : FileContentEvidence)
    (s : EvidenceSource) (d : Fallible DigestEvidence)
    → unverified.0.state ≡ FileContentState.indeterminate
    → IsQuiet (compared unverified e s s d d).0.state
unfolding compared comparable state_from_digests
compared-IsQuiet unverified e s (ok d) h = rw (beq_refl d.algorithm, beq_refl d.digest) tt
compared-IsQuiet unverified e s (err x) h = rw h tt

if-IsQuiet :
    (b : Bool) (x y : FileContentEvidence × Option Diagnostic)
    → IsQuiet x.0.state
    → IsQuiet y.0.state
    → IsQuiet (if b then x else y).0.state
if-IsQuiet true x y h k = h
if-IsQuiet false x y h k = k

module _ (hash : String → String) (o : Options) (certname : String) (identity : ResourceIdentity)
    (side : Side) (retriever : Option Retriever) where
  source_test : Bool
  source_test =
      not (
        deep_equal (at "source" (parameters side.resource))
          (at "source" (parameters side.resource)))

  tried : FileContentEvidence
  tried =
      let a = resolve_side hash certname side retriever in
      let s = side_evidence side a.source (is_ok a.evidence) in two_sided source_test s s

  untried : FileContentEvidence
  untried = let s = side_evidence side EvidenceSource.unset false in two_sided source_test s s

  two_sided-state :
      (b : Bool) (s t : FileSideEvidence)
      → b ≡ false
      → (two_sided b s t).state ≡ FileContentState.indeterminate
  unfolding two_sided
  two_sided-state b s t h = rw h refl

  notice-state :
      (severity : Severity) (reason : String) (s t : FileSideEvidence)
      → source_test ≡ false
      → (notice o
          (side ∷ side ∷ [])
          severity
          certname
          identity
          reason
          (two_sided source_test s t)).0.state
        ≡ FileContentState.indeterminate
  notice-state severity reason s t still =
      ap (λ e. e.state)
        (notice-evidence o (side ∷ side ∷ []) certname identity severity reason
          (two_sided source_test s t))
      ∙ two_sided-state source_test s t still

  -- The evidence of a file against itself is no row of a report, whatever the file server answers,
  -- as long as it answers alike both times and the source of the file is equal to itself.
  pub resolve_file_content_evidence-IsQuiet :
      deep_equal (at "source" (parameters side.resource)) (at "source" (parameters side.resource))
        ≡ true
      → IsQuiet (resolve_file_content_evidence hash o certname identity side side retriever).0.state
  unfolding resolve_file_content_evidence tried untried source_test
  resolve_file_content_evidence-IsQuiet same =
      let a = resolve_side hash certname side retriever in
      let p = parameters side.resource in
      let sides = side ∷ side ∷ [] in
      let unverified =
        notice o sides (unverified_reason a.evidence a.evidence).1 certname identity
          (unverified_reason a.evidence a.evidence).0 tried in
      let refused = notice o sides Severity.warning certname identity non_byte_reason untried in
      let still : source_test ≡ false = ap not same in
      let u = side_evidence side EvidenceSource.unset false in
      let t = side_evidence side a.source (is_ok a.evidence) in
      let answer = compared unverified tried a.source a.source a.evidence a.evidence in
      if-IsQuiet (not (manages_content p) || not (manages_content p))
        (blank FileContentState.not_managed, none) _ tt
        (if-IsQuiet (non_byte_comparable side.resource p || non_byte_comparable side.resource p)
          refused answer
          (IsQuiet-of refused.0.state (notice-state Severity.warning non_byte_reason u u still))
          (compared-IsQuiet unverified tried a.source a.evidence (
            notice-state (unverified_reason a.evidence a.evidence).1
              (unverified_reason a.evidence a.evidence).0 t t still)))
