-- ===== src/Examples/Differ.antt =====
-- The differ on the two example catalogs.
use piace.Base.{
  none, ◌+◌, length, true, false, not, ◌&&◌, ◌||◌, some, List, [], ◌∷◌, ◌≡◌, refl, any, keep,
  contains, All, is_some, if◌then◌else◌,
}
use piace.Model.Value.{null, str, end, field, at, get}
use piace.Model.Value.Equal.{deep_equal, bool_eq, FieldsDistinct}
use piace.Model.Catalog.{
  identity_eq, Edge, edge_eq, FileContentEvidence, FileSideEvidence, FileContentState,
  EvidenceSource,
}
use piace.Model.Change.{ChangeKind, EdgeChange}
use piace.Model.Disclosure.{is_content_bearing}
use piace.Base.Order.{str_le}
use piace.FileContent.Digest.{resolve_side}
use piace.Base.Sort.{sort}
use piace.Diff.Raw.{RawChange}
use piace.Diff.Redact.{marker, redact_pair}
use piace.Diff.Redact.Secrecy.{mask, redact_pair-mask}
use piace.Diff.Exclusion.Counts.{is_resource_kind, total}
use piace.Diff.Exclusion.Accounting.{apply_exclusions-conserves}
use piace.Diff.Edges.{diff_edges}
use piace.Diff.Edges.Laws.{reports, diff_edges-reports}
use piace.Diff.Exclusion.{apply_exclusions}
use piace.Diff.Exclusion.Laws.{
  is_excluded, names_excluded, apply_exclusions-keeps_resources, apply_exclusions-keeps_edges,
}
use piace.Diff.Publish.{publish_parameters, publish_change}
use piace.Diff.Publish.Laws.{HidesSecrets, publish_change-HidesSecrets}
use piace.Diff.Publish.Shown.{
  at-publish_parameters, publish_change-content, is_secret, is_secret_content, masked,
}
use piace.Diff.Resources.{diff_parameters, is_file}
use piace.Diff.Resources.Parameters.{reports_parameter, diff_parameters-reports}
use piace.Diff.Run.{diff, raw_changes}
use piace.Diff.Run.Laws.{all_identities, diff-has_difference, diff-same}
use piace.Examples.Data.{
  secret, resource, live, edge, before_catalog, after_catalog, service, motd, rule, selector,
  target, literal, environment, services, exact, side, raw,
}

same_fidelity : bool_eq exact.before exact.after ≡ true
unfolding bool_eq
same_fidelity = refl

mode_plain : (is_file motd && is_content_bearing "mode") ≡ false
unfolding is_content_bearing
mode_plain = refl

abbrev token_change : RawChange
token_change = raw ChangeKind.parameter_changed service "token" secret (str "plain")

abbrev two_changes : List RawChange
two_changes =
    token_change ∷ raw ChangeKind.parameter_changed motd "mode" (str "0644") (str "0600") ∷ []

abbrev edge_change : ChangeKind → Edge → EdgeChange
edge_change kind e = record { kind = kind; edge = e }

abbrev one_edge : List EdgeChange
one_edge = edge_change ChangeKind.edge_removed (edge "Service[nginx]" "File[/etc/motd]") ∷ []

content_there : is_some (get "content" (field "content" (str "new") end)) ≡ true
unfolding get
content_there = refl

abbrev side_evidence : FileSideEvidence
side_evidence = record { context = live; source = EvidenceSource.inline; verified = true }

abbrev evidence : FileContentEvidence
evidence = record {
  state = FileContentState.changed;
  evidence_source = EvidenceSource.inline;
  algorithm = "sha256";
  before_digest = "01";
  after_digest = "02";
  redacted = false;
  before = some side_evidence;
  after = some side_evidence;
  reference_changed = false;
}

abbrev content_change : RawChange
content_change = record (raw ChangeKind.parameter_changed motd "content" null null) {
  file_content = some evidence;
}

found : (diff environment (target []) before_catalog after_catalog).0.has_difference ≡ true
unfolding diff sort str_le resolve_side
found = refl

redact_pair-mask_example :
    redact_pair secret (str "shown") ≡ redact_pair (mask secret) (mask (str "shown"))
redact_pair-mask_example = redact_pair-mask secret (str "shown")

diff-has_difference_example :
    (diff environment (target (rule ∷ [])) before_catalog after_catalog).0.has_difference ≡ (
      any
        (λ c. not (is_excluded literal (rule ∷ []) c.identity))
        (raw_changes environment (target (rule ∷ [])) before_catalog after_catalog).0
      || any
          (λ c.
            not (
              names_excluded literal
                (rule ∷ [])
                (all_identities environment (target (rule ∷ [])) before_catalog after_catalog)
                c.edge.source)
            && not (
                names_excluded literal
                  (rule ∷ [])
                  (all_identities environment (target (rule ∷ [])) before_catalog after_catalog)
                  c.edge.target))
          (diff_edges before_catalog.edges after_catalog.edges))
diff-has_difference_example =
    diff-has_difference environment (target (rule ∷ [])) before_catalog after_catalog

before_catalog-distinct : All (λ r. FieldsDistinct r.parameters) before_catalog.resources
unfolding FieldsDistinct get
before_catalog-distinct =
    ((refl, tt, (refl, (refl, tt, (refl, tt, tt)), tt)), ((refl, tt, (refl, tt, tt)), tt))

diff-same_example :
    (diff environment (target []) before_catalog before_catalog).0.has_difference ≡ false
diff-same_example = diff-same environment (target []) before_catalog before_catalog-distinct

diff_parameters-reports_example :
    reports_parameter "mode"
      (diff_parameters services exact motd
        (side live (resource motd (field "mode" (str "0644") end) []))
        (side live (resource motd (field "mode" (str "0600") end) []))).0
    ≡ not (
        deep_equal
          (at "mode" (field "mode" (str "0644") end))
          (at "mode" (field "mode" (str "0600") end)))
diff_parameters-reports_example =
    diff_parameters-reports services exact motd
      (side live (resource motd (field "mode" (str "0644") end) []))
      (side live (resource motd (field "mode" (str "0600") end) [])) "mode" same_fidelity mode_plain

apply_exclusions-keeps_resources_example :
    (apply_exclusions literal (rule ∷ []) two_changes [] (service ∷ motd ∷ [])).resource_changes
    ≡ keep (λ c. not (is_excluded literal (rule ∷ []) c.identity)) two_changes
apply_exclusions-keeps_resources_example =
    apply_exclusions-keeps_resources literal (rule ∷ []) two_changes [] (service ∷ motd ∷ [])
      (refl, (refl, tt))

apply_exclusions-keeps_edges_example :
    (apply_exclusions literal (rule ∷ []) [] one_edge (service ∷ motd ∷ [])).edge_changes
    ≡ keep
        (λ c.
          not (names_excluded literal (rule ∷ []) (service ∷ motd ∷ []) c.edge.source)
          && not (names_excluded literal (rule ∷ []) (service ∷ motd ∷ []) c.edge.target))
        one_edge
apply_exclusions-keeps_edges_example =
    apply_exclusions-keeps_edges literal (rule ∷ []) [] one_edge (service ∷ motd ∷ [])

diff_edges-reports_example :
    reports (λ kind. true) (edge "a" "b") (diff_edges (edge "a" "b" ∷ []) (edge "b" "c" ∷ [])) ≡ (
      (true
        && (contains (edge "a" "b") (edge "a" "b" ∷ [])
            && not (contains (edge "a" "b") (edge "b" "c" ∷ []))))
      || (true
          && (contains (edge "a" "b") (edge "b" "c" ∷ [])
              && not (contains (edge "a" "b") (edge "a" "b" ∷ [])))))
diff_edges-reports_example =
    diff_edges-reports (λ kind. true) (edge "a" "b") (edge "a" "b" ∷ []) (edge "b" "c" ∷ [])

publish_change-HidesSecrets_example :
    HidesSecrets token_change.kind (publish_change (selector ∷ []) [] [] token_change).before
    × HidesSecrets token_change.kind (publish_change (selector ∷ []) [] [] token_change).after
publish_change-HidesSecrets_example = publish_change-HidesSecrets (selector ∷ []) [] [] token_change

at-publish_parameters_example :
    at "content" (publish_parameters [] (resource motd (field "content" (str "new") end) [])) ≡ (
      if is_secret [] (resource motd (field "content" (str "new") end) []) "content"
      then marker
      else (redact_pair
          (at "content" (field "content" (str "new") end))
          (at "content" (field "content" (str "new") end))).0)
at-publish_parameters_example =
    at-publish_parameters [] (resource motd (field "content" (str "new") end) []) "content"
      content_there

publish_change-content_example :
    ((publish_change (selector ∷ []) [] [] content_change).before ≡ null)
    × ((publish_change (selector ∷ []) [] [] content_change).after ≡ null)
    × ((publish_change (selector ∷ []) [] [] content_change).file_content
        ≡ some (
            if is_secret_content
              (selector ∷ [])
              none
              none
              content_change.identity.type
              content_change.parameter
            then masked evidence
            else evidence))
publish_change-content_example =
    publish_change-content (selector ∷ []) [] [] content_change evidence refl refl

resource_kinds : All (λ c. is_resource_kind c.kind ≡ true) two_changes
unfolding is_resource_kind
resource_kinds = (refl, (refl, tt))

apply_exclusions-conserves_example :
    length
        (apply_exclusions literal
          (rule ∷ [])
          two_changes
          one_edge
          (service ∷ motd ∷ [])).resource_changes
      + (length
            (apply_exclusions literal
              (rule ∷ [])
              two_changes
              one_edge
              (service ∷ motd ∷ [])).edge_changes
          + total
              (apply_exclusions literal
                (rule ∷ [])
                two_changes
                one_edge
                (service ∷ motd ∷ [])).outcomes)
    ≡ length two_changes + length one_edge
apply_exclusions-conserves_example =
    apply_exclusions-conserves literal (rule ∷ []) two_changes one_edge (service ∷ motd ∷ [])
      resource_kinds
