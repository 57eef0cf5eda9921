-- ===== src/Diff/Run.antt =====
-- internal/diff/diff.go: the three passes of one target, in their order.
pub mod Laws
use piace.Base.{
  ℕ, String, Bool, true, false, ◌||◌, Option, none, some, List, [], ◌∷◌, ◌++◌, map, length, ltb,
}
use piace.Model.Catalog.{NormalizedCatalog, ResourceIdentity}
use piace.Model.Change.{ResourceChange, EdgeChange, ExclusionOutcome, NodeDiff}
use piace.Model.Diagnostic.{Severity, Operation, Diagnostic}
use piace.Config.{Target}
use piace.FileContent.{Retriever, Options}
use piace.Diff.Raw.{RawChange}
use piace.Diff.Edges.{diff_edges}
use piace.Diff.Exclusion.{Matcher, Excluded, apply_exclusions}
use piace.Diff.Fidelity.{Fidelity}
use piace.Diff.Fingerprint.{Digester, Digested, digested, refused, fingerprint_resource_change}
use piace.Diff.Publish.{publish_changes}
use piace.Diff.Resources.{
  Index, Services, Findings, index_resources, union_identities, diff_resources,
}

-- What the differ takes from outside: the matcher of titles, the digest of fingerprints, the hash
-- of inline content, the compiler's file server, and the content options.
pub record Environment : Type 0 where
  pub path_match : Matcher
  pub digest : Digester
  pub hash : String → String
  pub retriever : Option Retriever
  pub options : Options

fingerprint_error : String → String → Diagnostic
fingerprint_error certname message = record {
  severity = Severity.error;
  operation = Operation.normalize;
  certname = certname;
  source = "";
  message = message;
}

stamp : RawChange → Digested → RawChange
stamp c (digested text) = record c { fingerprint = text }
stamp c (refused reason) = c

complaint : String → Digested → List Diagnostic
complaint certname (digested text) = []
complaint certname (refused reason) = fingerprint_error certname reason ∷ []

-- The loop that fingerprints the changes.
unfoldable pub fingerprint_all : Digester → String → List RawChange → Findings
unfolding fingerprint_resource_change stamp complaint fingerprint_error
fingerprint_all digest certname [] = ([], [])
fingerprint_all digest certname (c ∷ cs) =
    let rest = fingerprint_all digest certname cs in
    let d = fingerprint_resource_change digest c in
    (stamp c d ∷ rest.0, complaint certname d ++ rest.1)

unfoldable pub services_of : Environment → Target → Services
services_of env target = record {
  hash = env.hash;
  retriever = env.retriever;
  options = env.options;
  certname = target.certname;
}

unfoldable pub fidelity_of : NormalizedCatalog → NormalizedCatalog → Fidelity
fidelity_of before after = record {
  before = before.stringified_rich;
  after = after.stringified_rich;
}

-- Pass 1 without the edges: the raw changes and their diagnostics.
unfoldable pub raw_changes : Environment → Target → NormalizedCatalog → NormalizedCatalog → Findings
unfolding services_of fidelity_of index_resources diff_resources
raw_changes env target before after =
    diff_resources (services_of env target) (fidelity_of before after) before.content_context
      after.content_context (index_resources before.resources) (index_resources after.resources)

unfoldable pub node_diff : Target → Excluded → Index → Index → NodeDiff
unfolding publish_changes
node_diff target x before after = record {
  certname = target.certname;
  resource_changes = publish_changes target.redact x.resource_changes before after;
  edge_changes = x.edge_changes;
  exclusions = x.outcomes;
  has_difference = ltb 0 (length x.resource_changes) || ltb 0 (length x.edge_changes);
}

-- `Diff`.
unfoldable pub diff :
    Environment → Target → NormalizedCatalog → NormalizedCatalog → NodeDiff × List Diagnostic
unfolding raw_changes fingerprint_all diff_edges apply_exclusions union_identities node_diff
    index_resources
diff env target before after =
    let bi = index_resources before.resources in
    let ai = index_resources after.resources in
    let raw = raw_changes env target before after in
    let stamped = fingerprint_all env.digest target.certname raw.0 in
    let x =
      apply_exclusions env.path_match target.exclude stamped.0 (diff_edges before.edges after.edges)
        (union_identities bi ai) in
    (node_diff target x bi ai, raw.1 ++ stamped.1)
