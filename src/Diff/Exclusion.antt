-- ===== src/Diff/Exclusion.antt =====
-- internal/diff/exclusion.go: the second pass, over a matcher for title globs. `path_match pattern
-- title` is Go's `path.Match`, and is `none` for a malformed pattern.
pub mod Accounting
pub mod Counts
pub mod Laws
use piace.Base.{
  ℕ, zero, suc, ◌+◌, ◌≤◌, String, Bool, true, false, not, ◌&&◌, ◌||◌, Option, none, some, List, [],
  ◌∷◌, map, keep, contains, any, ◌==◌, string_eq, if◌then◌else◌, ltb, leb, lookup,
}
use piace.Model.Catalog.{ResourceIdentity, identity_eq, to_string, Edge}
use piace.Model.Change.{ChangeKind, EdgeChange, ExclusionRuleRef, ExclusionOutcome}
use piace.Config.{ExclusionRule}
use piace.Diff.Raw.{RawChange}

abbrev pub Matcher : Type 0
Matcher = String → String → Option Bool

or_no_match : Option Bool → Bool
or_no_match none = false
or_no_match (some b) = b

unfoldable pub matches_exclusion_rule : Matcher → ExclusionRule → ResourceIdentity → Bool
unfolding or_no_match
matches_exclusion_rule path_match rule identity =
    if not (rule.type == identity.type)
    then false
    else or_no_match (path_match rule.title identity.title)

-- The index of the first rule that matches, counted from `i`.
unfoldable pub first_rule : Matcher → ℕ → List ExclusionRule → ResourceIdentity → Option ℕ
first_rule path_match i [] identity = none
first_rule path_match i (rule ∷ rules) identity =
    let later = first_rule path_match (suc i) rules identity in
    if matches_exclusion_rule path_match rule identity then some i else later

-- The map `excludedIdentityRule`.
abbrev RuleMap : Type 0
RuleMap = List (ResourceIdentity × ℕ)

prepend_rule : ResourceIdentity → Option ℕ → RuleMap → RuleMap
prepend_rule identity none m = m
prepend_rule identity (some i) m = (identity, i) ∷ m

unfoldable pub excluded_rules : Matcher → List ExclusionRule → List ResourceIdentity → RuleMap
unfolding prepend_rule first_rule matches_exclusion_rule
excluded_rules path_match rules [] = []
excluded_rules path_match rules (identity ∷ ids) =
    prepend_rule identity (first_rule path_match 0 rules identity)
      (excluded_rules path_match rules ids)

unfoldable pub excluded_strings : RuleMap → List String
unfolding to_string
excluded_strings m = map (λ (identity, i). to_string identity) m

-- `counts[i]`, with one more.
pub update :
    (ExclusionOutcome → ExclusionOutcome) → ℕ → List ExclusionOutcome → List ExclusionOutcome
update f i [] = []
update f zero (c ∷ cs) = f c ∷ cs
update f (suc i) (c ∷ cs) = c ∷ update f i cs

pub count_kind : ChangeKind → ExclusionOutcome → ExclusionOutcome
count_kind ChangeKind.resource_added c = record c {
  suppressed_resources = c.suppressed_resources + 1;
}
count_kind ChangeKind.resource_removed c = record c {
  suppressed_resources = c.suppressed_resources + 1;
}
count_kind ChangeKind.parameter_changed c = record c {
  suppressed_parameters = c.suppressed_parameters + 1;
}
count_kind _ c = c

pub count_edge : ExclusionOutcome → ExclusionOutcome
count_edge c = record c { suppressed_edges = c.suppressed_edges + 1 }

-- What a loop keeps, and its counts.
abbrev Kept : Type 0 → Type 0
Kept A = List A × List ExclusionOutcome

abbrev keep_first : {A : Type 0} → A → Kept A → Kept A
keep_first a (kept, counts) = (a ∷ kept, counts)

resource_step :
    RawChange
    → Option ℕ
    → (List ExclusionOutcome → Kept RawChange)
    → List ExclusionOutcome
    → Kept RawChange
resource_step change none rest counts = keep_first change (rest counts)
resource_step change (some i) rest counts = rest (update (count_kind change.kind) i counts)

unfoldable pub resource_loop : RuleMap → List RawChange → List ExclusionOutcome → Kept RawChange
unfolding resource_step update count_kind
resource_loop m [] counts = ([], counts)
resource_loop m (change ∷ changes) counts =
    resource_step change (lookup change.identity m) (resource_loop m changes) counts

-- `ruleIndexForEdgeEndpoint`.
unfoldable pub endpoint_rule : RuleMap → String → ℕ
unfolding to_string
endpoint_rule [] endpoint = 0
endpoint_rule ((identity, i) ∷ m) endpoint =
    if to_string identity == endpoint then i else endpoint_rule m endpoint

-- `edgeSuppressingRuleIndex`: the lower of the candidates.
unfoldable pub suppressing_rule : RuleMap → Edge → Bool → Bool → ℕ
unfolding endpoint_rule
suppressing_rule m edge true true =
    let s = endpoint_rule m edge.source in
    let t = endpoint_rule m edge.target in if leb s t then s else t
suppressing_rule m edge true false = endpoint_rule m edge.source
suppressing_rule m edge false t = endpoint_rule m edge.target

edge_step :
    RuleMap
    → EdgeChange
    → Bool
    → Bool
    → (List ExclusionOutcome → Kept EdgeChange)
    → List ExclusionOutcome
    → Kept EdgeChange
edge_step m change false false rest counts = keep_first change (rest counts)
edge_step m change s t rest counts =
    rest (update count_edge (suppressing_rule m change.edge s t) counts)

unfoldable pub edge_loop : RuleMap → List EdgeChange → List ExclusionOutcome → Kept EdgeChange
unfolding edge_step update count_edge suppressing_rule excluded_strings
edge_loop m [] counts = ([], counts)
edge_loop m (change ∷ changes) counts =
    edge_step m change (contains change.edge.source (excluded_strings m))
      (contains change.edge.target (excluded_strings m)) (edge_loop m changes) counts

unfoldable pub no_counts : ExclusionRule → ExclusionOutcome
no_counts rule = record {
  rule = record { type = rule.type; title = rule.title };
  suppressed_resources = 0;
  suppressed_parameters = 0;
  suppressed_edges = 0;
}

unfoldable pub has_effect : ExclusionOutcome → Bool
has_effect c =
    ltb 0 c.suppressed_resources || ltb 0 c.suppressed_parameters || ltb 0 c.suppressed_edges

pub record Excluded : Type 0 where
  pub resource_changes : List RawChange
  pub edge_changes : List EdgeChange
  pub outcomes : List ExclusionOutcome

run_exclusions :
    Matcher
    → List ExclusionRule
    → List RawChange
    → List EdgeChange
    → List ResourceIdentity
    → Excluded
run_exclusions path_match rules changes edges ids =
    let m = excluded_rules path_match rules ids in
    let (kept, counts) = resource_loop m changes (map no_counts rules) in
    let (kept_edges, final) = edge_loop m edges counts in
    record { resource_changes = kept; edge_changes = kept_edges; outcomes = keep has_effect final }

unfoldable pub apply_exclusions :
    Matcher
    → List ExclusionRule
    → List RawChange
    → List EdgeChange
    → List ResourceIdentity
    → Excluded
unfolding run_exclusions excluded_rules resource_loop edge_loop no_counts has_effect
apply_exclusions path_match [] changes edges ids = record {
  resource_changes = changes;
  edge_changes = edges;
  outcomes = [];
}
apply_exclusions path_match (rule ∷ rules) changes edges ids =
    run_exclusions path_match (rule ∷ rules) changes edges ids
