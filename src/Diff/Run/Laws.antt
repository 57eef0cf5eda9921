-- ===== src/Diff/Run/Laws.antt =====
-- What a run of the differ over one target decides.
use piace.Base.{
  ℕ, String, Bool, true, false, not, ◌&&◌, ◌||◌, List, [], ◌∷◌, length, ltb, keep, any, contains,
  ◌≡◌, refl, ◌∙◌, ap, arith, All, Bool-cases, inl, inr,
}
use piace.Model.Catalog.{NormalizedCatalog, ResourceIdentity, identity_eq}
use piace.Config.{Target}
use piace.Diff.Raw.{RawChange}
use piace.Diff.Edges.{diff_edges}
use piace.Diff.Exclusion.{apply_exclusions}
use piace.Diff.Exclusion.Laws.{
  is_excluded, names_excluded, apply_exclusions-keeps_resources, apply_exclusions-keeps_edges,
}
use piace.Diff.Fingerprint.{Digester, Digested, digested, refused, fingerprint_resource_change}
use piace.Diff.Resources.{index_resources, union_identities}
use piace.Diff.Resources.Identity.{diff_resources-known}
use piace.Model.Value.Equal.{FieldsDistinct}
use piace.Diff.Edges.Laws.{diff_edges-same}
use piace.Diff.Resources.Same.{diff_resources-same}
use piace.Diff.Run.{
  Environment, stamp, fingerprint_all, services_of, fidelity_of, raw_changes, node_diff, diff,
}

module _ {A : Type 0} where
  -- `len(...) > 0` of a filtered list.
  some_left : (p : A → Bool) (xs : List A) → ltb 0 (length (keep p xs)) ≡ any p xs
  some_left p [] = refl
  some_left p (x ∷ xs) = elim (Bool-cases (p x)) [
    | inl e ↦ rw e (ground arith)
    | inr e ↦ rw e (some_left p xs)
  ]

stamp-identity : (c : RawChange) (d : Digested) → (stamp c d).identity ≡ c.identity
unfolding stamp
stamp-identity c (digested text) = refl
stamp-identity c (refused reason) = refl

module _ (digest : Digester) (certname : String) where
  fingerprint_all-any :
      (p : ResourceIdentity → Bool) (cs : List RawChange)
      → any (λ c. p c.identity) (fingerprint_all digest certname cs).0 ≡ any (λ c. p c.identity) cs
  unfolding fingerprint_all
  fingerprint_all-any p [] = refl
  fingerprint_all-any p (c ∷ cs) = ground (
    arith,
    fingerprint_all-any p cs,
    ap p (stamp-identity c (fingerprint_resource_change digest c)),
  )

  fingerprint_all-All :
      (p : ResourceIdentity → Bool) (cs : List RawChange)
      → All (λ c. p c.identity ≡ true) cs
      → All (λ c. p c.identity ≡ true) (fingerprint_all digest certname cs).0
  unfolding fingerprint_all
  fingerprint_all-All p [] h = tt
  fingerprint_all-All p (c ∷ cs) (h, hs) = (
    ap p (stamp-identity c (fingerprint_resource_change digest c)) ∙ h,
    fingerprint_all-All p cs hs,
  )

module _ (env : Environment) (target : Target) (before after : NormalizedCatalog) where
  -- The identities of both catalogs, which exclusion is evaluated over.
  abbrev pub all_identities : List ResourceIdentity
  all_identities =
      union_identities (index_resources before.resources) (index_resources after.resources)

  -- A run reports a difference exactly if some raw resource or parameter change is of a resource
  -- that no exclusion rule matches, or some raw edge change has no endpoint that reads like an
  -- identity of either catalog that a rule matches.
  pub diff-has_difference : (diff env target before after).0.has_difference ≡ (
      any
        (λ c. not (is_excluded env.path_match target.exclude c.identity))
        (raw_changes env target before after).0
      || any
          (λ c.
            not (names_excluded env.path_match target.exclude all_identities c.edge.source)
            && not (names_excluded env.path_match target.exclude all_identities c.edge.target))
          (diff_edges before.edges after.edges))
  unfolding diff node_diff raw_changes
  diff-has_difference =
      let raw = raw_changes env target before after in
      let stamped = (fingerprint_all env.digest target.certname raw.0).0 in
      let edges = diff_edges before.edges after.edges in
      let known =
        fingerprint_all-All env.digest target.certname (λ i. contains i all_identities) raw.0
          (diff_resources-known (services_of env target) (fidelity_of before after)
            before.content_context after.content_context before.resources after.resources) in
      let x = apply_exclusions env.path_match target.exclude stamped edges all_identities in
      let kept =
        apply_exclusions-keeps_resources env.path_match target.exclude stamped edges all_identities
          known in
      let kept_edges =
        apply_exclusions-keeps_edges env.path_match target.exclude stamped edges all_identities in
      ground (
        arith,
        ap {B = ℕ} length kept,
        ap {B = ℕ} length kept_edges,
        some_left (λ c. not (is_excluded env.path_match target.exclude c.identity)) stamped,
        some_left
            (λ c.
              not (names_excluded env.path_match target.exclude all_identities c.edge.source)
              && not (names_excluded env.path_match target.exclude all_identities c.edge.target))
            edges,
        fingerprint_all-any env.digest target.certname
            (λ i. not (is_excluded env.path_match target.exclude i)) raw.0,
      )

-- A catalog whose maps hold no key twice, compared with itself, has no difference, whatever the
-- exclusion rules and the digest of fingerprints are, and whatever the file server answers, as long
-- as it answers a request alike each time.
pub diff-same :
    (env : Environment) (target : Target) (c : NormalizedCatalog)
    → All (λ r. FieldsDistinct r.parameters) c.resources
    → (diff env target c c).0.has_difference ≡ false
unfolding raw_changes
diff-same env target c h =
    let none_raw =
      diff_resources-same (services_of env target) (fidelity_of c c) c.content_context c.resources
        h in
    let none_edges = diff_edges-same c.edges in
    diff-has_difference env target c c ∙ (rw (none_raw, none_edges) refl)
