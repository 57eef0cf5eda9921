-- ===== src/Impact/All/Asked.antt =====
-- Which resources internal/impact/estimate_all.go asks for, and with which limits.
use piace.Base.{
  ℕ, suc, ◌<◌, Bool, true, false, ◌&&◌, ◌||◌, not, Option, none, some, List, [], ◌∷◌, map,
  string_eq, if◌then◌else◌, ltb, nat_eq, lookup, contains, any, IsNodup, ◌≡◌, refl, sym, ap, arith,
  inl, inr, Bool-cases, subst, ◌∙◌,
}
use piace.Base.Sort.{sort}
use piace.Config.{Target}
use piace.Model.Catalog.{ResourceIdentity, identity_eq, identity_le}
use piace.Model.Change.{ResourceChange, NodeDiff}
use piace.Impact.Querier.{Limits, limits_from}
use piace.Impact.All.{
  TargetPolicy, Winner, Policies, policy_of, policies, ImpactQuerier, no_limits, limits_of,
  ask_each, keys, selected, estimate_all,
}
use piace.Impact.All.Laws.{policy_shows, exhibits, ask_each-identities, estimate_all-exhibited}
use piace.Impact.All.First.{holds, grants, at_most, selected-first, selected-least}
use piace.Impact.All.Wants.{wants, first_limits, winner_at, any_at, any-grants}

module _ (i : ResourceIdentity) (nds : List NodeDiff) where
  exhibits-grants :
      (ps : Policies) (xs : List NodeDiff)
      → any (exhibits ps i) xs
        ≡ any (λ nd. grants (λ w. true) i (lookup nd.certname ps) nd.resource_changes) xs
  exhibits-grants ps [] = refl
  exhibits-grants ps (nd ∷ xs) =
      ground (arith, exhibits-grants ps xs, same (lookup nd.certname ps) nd.resource_changes)
    where
      same :
          (o : Option TargetPolicy) (cs : List ResourceChange)
          → policy_shows i o cs ≡ grants (λ w. true) i o cs
      same none cs = refl
      same (some p) cs = ground arith

  any_at-all :
      (k : ℕ) (ts : List Target) → any_at (λ w. true) (wants i nds) k ts ≡ any (wants i nds) ts
  any_at-all k [] = refl
  any_at-all k (t ∷ ts) = ground (arith, any_at-all (suc k) ts)

  -- The first target that wants the estimate, with its index.
  abbrev first : ℕ → List Target → Option Winner
  first k [] = none
  first k (t ∷ ts) =
      let rest = first (suc k) ts in if wants i nds t then some (winner_at k t) else rest

  limits_of-first : (k : ℕ) (ts : List Target) → limits_of (first k ts) ≡ first_limits i nds ts
  unfolding limits_of no_limits policy_of limits_from
  limits_of-first k [] = refl
  limits_of-first k (t ∷ ts) = elim (Bool-cases (wants i nds t)) [
    | inl e ↦ rw e refl
    | inr e ↦ rw e (limits_of-first (suc k) ts)
  ]

  first-none :
      (T : Winner → Bool) (k : ℕ) (ts : List Target)
      → first k ts ≡ none
      → any_at T (wants i nds) k ts ≡ false
  first-none T k [] h = refl
  first-none T k (t ∷ ts) h = elim (Bool-cases (wants i nds t)) [
    | inl e ↦ absurd (
        some_none (winner_at k t)
          (subst (λ b. (if b then some (winner_at k t) else first (suc k) ts) ≡ none) e h))
    | inr e ↦ ground (
      arith,
      e,
      first-none T (suc k) ts
          (subst (λ b. (if b then some (winner_at k t) else first (suc k) ts) ≡ none) e h),
    )
  ]
    where
      some_none : (w : Winner) → some w ≡ none → ⊥
      some_none w p = absurd (cc)

  same_limits : Limits → Winner → Bool
  same_limits l w = nat_eq w.limits.timeout l.timeout && nat_eq w.limits.result_limit l.result_limit

  -- Not the first, but no later than it.
  abbrev beats : Winner → Winner → Bool
  beats f w = not (ltb f.order w.order || same_limits f.limits w)

  later :
      (f : Winner) (k : ℕ) (ts : List Target)
      → f.order < k
      → any_at (beats f) (wants i nds) k ts ≡ false
  unfolding policy_of
  later f k [] h = refl
  later f k (t ∷ ts) h = ground (arith, h, later f (suc k) ts (omega (arith, h)))

  first-some :
      (f : Winner) (k : ℕ) (ts : List Target)
      → first k ts ≡ some f
      → (any_at (at_most f.order) (wants i nds) k ts ≡ true)
        × (any_at (beats f) (wants i nds) k ts ≡ false)
  unfolding policy_of same_limits
  first-some f k [] h = absurd (cc)
  first-some f k (t ∷ ts) h = elim (Bool-cases (wants i nds t)) [
    | inl e ↦
        subst
          (λ g.
            (any_at (at_most g.order) (wants i nds) k (t ∷ ts) ≡ true)
            × (any_at (beats g) (wants i nds) k (t ∷ ts) ≡ false))
          (some_inj (winner_at k t) f
            (subst (λ b. (if b then some (winner_at k t) else first (suc k) ts) ≡ some f) e h))
          (head e)
    | inr e ↦
        let (a, b) =
          first-some f (suc k) ts
            (subst (λ b. (if b then some (winner_at k t) else first (suc k) ts) ≡ some f) e h) in
        (ground (arith, a), ground (arith, b, e))
  ]
    where
      some_inj : (v w : Winner) → some v ≡ some w → v ≡ w
      some_inj v w p = cc

      head :
          wants i nds t ≡ true
          → (any_at (at_most (winner_at k t).order) (wants i nds) k (t ∷ ts) ≡ true)
            × (any_at (beats (winner_at k t)) (wants i nds) k (t ∷ ts) ≡ false)
      head e = (ground (arith, e), ground (arith, e, later (winner_at k t) (suc k) ts))

  settle :
      (f : Winner) (o : Option Winner)
      → holds (at_most f.order) o ≡ true
      → (holds (beats f) o ≡ true → ⊥)
      → limits_of o ≡ f.limits
  unfolding limits_of same_limits
  settle f none h k = absurd (ground (arith, h))
  settle f (some w) h k = elim (Bool-cases (same_limits f.limits w)) [
    | inl e ↦ limits_eq w.limits f.limits (ground (arith, e)) (ground (arith, e))
    | inr e ↦ absurd (k (ground (arith, h, e)))
  ]
    where
      limits_eq : (l m : Limits) → l.timeout ≡ m.timeout → l.result_limit ≡ m.result_limit → l ≡ m
      limits_eq l m p q = ground (arith, p, q)

  unsettled : (o : Option Winner) → (holds (λ w. true) o ≡ true → ⊥) → limits_of o ≡ no_limits
  unfolding limits_of
  unsettled none k = refl
  unsettled (some w) k = absurd (k refl)

  limits_of-selected :
      (targets : List Target)
      → IsNodup (map (λ t. t.certname) targets)
      → (o : Option Winner) → first 0 targets ≡ o
      → limits_of (lookup i (selected targets nds)) ≡ limits_of o
  unfolding limits_of
  limits_of-selected targets h none e = unsettled (lookup i (selected targets nds)) (λ k. ground (
    arith,
    selected-first i targets nds (λ w. true) k,
    any-grants (λ w. true) i targets nds h,
    first-none (λ w. true) 0 targets e,
  ))
  limits_of-selected targets h (some f) e =
      let (a, b) = first-some f 0 targets e in
      settle f (lookup i (selected targets nds))
        (selected-least i targets nds f.order (any-grants (at_most f.order) i targets nds h ∙ a))
        (λ k. ground (
          arith,
          selected-first i targets nds (beats f) k,
          any-grants (beats f) i targets nds h,
          b,
        ))

-- A resource has an estimate exactly if some target of the file has the estimate enabled and its node
-- shows a change of the resource or of one of its parameters, where the certnames of the targets are
-- distinct.
pub estimate_all-identities :
    (q : ImpactQuerier) (targets : List Target) (nds : List NodeDiff) (i : ResourceIdentity)
    → IsNodup (map (λ t. t.certname) targets)
    → contains i (map (λ e. e.identity) (estimate_all q targets nds).0) ≡ any (wants i nds) targets
estimate_all-identities q targets nds i h =
    estimate_all-exhibited q targets nds i
    ∙ (exhibits-grants i nds (policies 0 targets []) nds
        ∙ (any-grants (λ w. true) i targets nds h ∙ any_at-all i nds 0 targets))

ask_each-first :
    (q : ImpactQuerier) (targets : List Target) (nds : List NodeDiff) (is : List ResourceIdentity)
    → IsNodup (map (λ t. t.certname) targets)
    → (ask_each q (selected targets nds) is).0
      ≡ map (λ i. (q.estimate i (first_limits i nds targets)).0) is
unfolding ask_each
ask_each-first q targets nds [] h = refl
ask_each-first q targets nds (i ∷ is) h =
    rw
      (
        limits_of-selected i nds targets h (first i nds 0 targets) refl,
        limits_of-first i nds 0 targets,
        ask_each-first q targets nds is h,
      )
      refl

-- Every estimate of a run is the querier's answer for its resource with the limits of the first
-- target of the file that has the estimate enabled and whose node shows a change of the resource or
-- of one of its parameters, where the certnames of the targets are distinct.
pub estimate_all-first :
    (q : ImpactQuerier) (targets : List Target) (nds : List NodeDiff)
    → IsNodup (map (λ t. t.certname) targets)
    → (estimate_all q targets nds).0
      ≡ map
          (λ i. (q.estimate i (first_limits i nds targets)).0)
          (map (λ e. e.identity) (estimate_all q targets nds).0)
unfolding estimate_all
estimate_all-first q targets nds h =
    let is = sort identity_le (keys (selected targets nds)) in
    ask_each-first q targets nds is h
    ∙ ap (map (λ i. (q.estimate i (first_limits i nds targets)).0))
        (sym (ask_each-identities q (selected targets nds) is))
