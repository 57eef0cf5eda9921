-- ===== src/Examples/Estimates.antt =====
-- Estimates of a run on two example targets, with a client that answers three rows.
use piace.Base.{
  ℕ, String, true, false, Option, none, some, List, [], ◌∷◌, ◌≡◌, refl, contains, any, string_eq,
  map,
}
use piace.Base.Order.{str_le}
use piace.Base.Sort.{sort}
use piace.Model.Value.{null}
use piace.Model.Catalog.{identity_eq}
use piace.Model.Change.{ChangeKind, ResourceChange, NodeDiff}
use piace.Config.{Target}
use piace.Impact.Pql.{build_pql}
use piace.Impact.Querier.{Limits, Client, response, estimate, parse_certnames}
use piace.Impact.Querier.Laws.{
  IsReported, has_name, estimate-IsReported, estimate-exact, estimate-identity_lem,
}
use piace.Impact.Querier.Found.{IsSampleOf, found_in, estimate-IsSampleOf}
use piace.Impact.All.{ImpactQuerier, estimate_all}
use piace.Impact.All.Wants.{wants, first_limits}
use piace.Impact.All.Asked.{estimate_all-identities, estimate_all-first}
use piace.Examples.Data.{service, target}

abbrev rows : List (Option String)
rows = some "web2" ∷ some "web1" ∷ some "web2" ∷ []

abbrev client : Client
client = record {
  ask = λ query request timeout. response 200 " [rows]";
  show = λ n. "10s";
  unmarshal = λ body. some rows;
}

abbrev limits : Limits
limits = record { timeout = 10; result_limit = 5 }

abbrev tight : Limits
tight = record { timeout = 10; result_limit = 1 }

shown : (estimate client service limits).0.certnames ≡ "web1" ∷ "web2" ∷ []
unfolding estimate sort str_le parse_certnames
shown = refl

cut : (estimate client service tight).0.truncated ≡ true
unfolding estimate sort str_le parse_certnames
cut = refl

estimate-IsReported_example :
    IsReported (estimate client service limits).0 (estimate client service limits).1
estimate-IsReported_example = estimate-IsReported client service limits

abbrev pql : String
pql = "resources[certname] { type = \"Service\" and title = \"nginx\" }"

pql_of : build_pql service ≡ some pql
unfolding build_pql
pql_of = refl

tight_succeeds : (estimate client service tight).1 ≡ none
unfolding estimate sort str_le parse_certnames
tight_succeeds = refl

estimate-IsSampleOf_example : IsSampleOf 1 (found_in rows) (estimate client service tight).0
estimate-IsSampleOf_example =
    estimate-IsSampleOf client service tight pql " [rows]" 200 rows pql_of refl refl tight_succeeds

no_diagnostic : (estimate client service limits).1 ≡ none
unfolding estimate sort str_le parse_certnames
no_diagnostic = refl

not_cut : (estimate client service limits).0.truncated ≡ false
unfolding estimate sort str_le parse_certnames
not_cut = refl

estimate-exact_example :
    contains "web2" (estimate client service limits).0.certnames ≡ any (has_name "web2") rows
estimate-exact_example =
    estimate-exact client service limits pql " [rows]" "web2" 200 rows pql_of refl refl
      no_diagnostic not_cut

abbrev querier : ImpactQuerier
querier = record {
  estimate = λ i l. estimate client i l;
  estimate-identity = λ i l. estimate-identity_lem client i l;
}

abbrev change : ChangeKind → ResourceChange
change kind = record {
  kind = kind;
  identity = service;
  parameter = "ensure";
  before = null;
  after = null;
  file_content = none;
  fingerprint = "";
}

abbrev enabled_target : String → ℕ → Target
enabled_target certname limit = record (target []) {
  certname = certname;
  impact_estimate = record { enabled = true; timeout = 10; result_limit = limit };
}

abbrev targets : List Target
targets = enabled_target "web1" 5 ∷ enabled_target "web2" 7 ∷ []

abbrev changed_node : String → NodeDiff
changed_node certname = record {
  certname = certname;
  resource_changes = change ChangeKind.parameter_changed ∷ [];
  edge_changes = [];
  exclusions = [];
  has_difference = true;
}

abbrev node_diffs : List NodeDiff
node_diffs = changed_node "web2" ∷ changed_node "web1" ∷ []

estimate_all-identities_example :
    contains service (map (λ e. e.identity) (estimate_all querier targets node_diffs).0)
    ≡ any (wants service node_diffs) targets
estimate_all-identities_example =
    estimate_all-identities querier targets node_diffs service (refl, (refl, tt))

-- The second target wants the estimate too, but comes later.
limits_of_web1 : (first_limits service node_diffs targets).result_limit ≡ 5
limits_of_web1 = refl

estimate_all-first_example :
    (estimate_all querier targets node_diffs).0
    ≡ map
        (λ i. (querier.estimate i (first_limits i node_diffs targets)).0)
        (map (λ e. e.identity) (estimate_all querier targets node_diffs).0)
estimate_all-first_example = estimate_all-first querier targets node_diffs (refl, (refl, tt))
