-- ===== src/Examples/Data.antt =====
-- Test data: two catalogs of one node, a target, and the services of a run.
use piace.Base.{String, Bool, true, false, Option, none, some, List, [], ◌∷◌, ◌==◌, string_eq}
use piace.Exitcode.{other}
use piace.Model.Value.{Value, str, obj, Fields, end, field}
use piace.Model.Catalog.{ResourceIdentity, Resource, Edge, ContentContext, NormalizedCatalog}
use piace.Model.Change.{ChangeKind, NodeDiff}
use piace.Model.Diagnostic.{Severity, Operation, Diagnostic}
use piace.Model.Result.{TargetResult, Result}
use piace.Config.{ExclusionRule, RedactionSelector, Target}
use piace.FileContent.{Side, Options}
use piace.Diff.Exclusion.{Matcher}
use piace.Diff.Raw.{RawChange}
use piace.Diff.Fingerprint.{Digester, digested}
use piace.Diff.Fidelity.{Fidelity}
use piace.Diff.Resources.{Services}
use piace.Diff.Run.{Environment}

abbrev pub secret : Value
secret = obj (field "__ptype" (str "Sensitive") (field "__pvalue" (str "hunter2") end))

abbrev pub named : String → String → ResourceIdentity
named type title = record { type = type; title = title }

abbrev pub resource : ResourceIdentity → Fields → List String → Resource
resource identity parameters sensitive = record {
  identity = identity;
  parameters = parameters;
  sensitive_parameters = sensitive;
  static_content = none;
  captured_content = none;
  recursive_content = false;
}

abbrev pub live : ContentContext
live = record {
  source = "compiler";
  environment = "production";
  historical = false;
  catalog_identity = "c1";
}

abbrev pub historical : ContentContext
historical = record {
  source = "puppetdb";
  environment = "production";
  historical = true;
  catalog_identity = "c0";
}

abbrev pub edge : String → String → Edge
edge source target = record { source = source; target = target }

abbrev pub catalog : List Resource → List Edge → NormalizedCatalog
catalog resources edges = record {
  certname = "web1";
  environment = "production";
  resources = resources;
  edges = edges;
  content_context = live;
  stringified_rich = false;
}

abbrev pub service : ResourceIdentity
service = named "Service" "nginx"

abbrev pub motd : ResourceIdentity
motd = named "File" "/etc/motd"

abbrev pub before_catalog : NormalizedCatalog
before_catalog =
    catalog
      (resource service (field "ensure" (str "running") (field "token" secret end)) []
        ∷ resource motd (field "content" (str "old") (field "mode" (str "0644") end)) []
        ∷ [])
      (edge "Service[nginx]" "File[/etc/motd]" ∷ [])

abbrev pub after_catalog : NormalizedCatalog
after_catalog =
    catalog
      (resource service (field "ensure" (str "stopped") (field "token" secret end)) []
        ∷ resource motd (field "content" (str "new") (field "mode" (str "0644") end)) []
        ∷ [])
      []

abbrev pub rule : ExclusionRule
rule = record { type = "Service"; title = "nginx" }

abbrev pub selector : RedactionSelector
selector = record { type = "File"; parameter = "content" }

abbrev pub target : List ExclusionRule → Target
target rules = record {
  certname = "web1";
  candidate = record {
    environment = "production";
    catalog_api = "v4";
    allow_v3_fallback = false;
    trusted_facts_compiler_lookup = false;
  };
  facts = record { source = "puppetdb"; file = "" };
  baseline = record { source = "puppetdb"; environment = "production"; file = "" };
  exclude = rules;
  redact = selector ∷ [];
  impact_estimate = record { enabled = false; timeout = 0; result_limit = 0 };
  fail_on_diff = true;
}

-- A matcher of titles that knows no wildcards.
abbrev pub literal : Matcher
literal pattern title = some (pattern == title)

abbrev pub options : Options
options = record { suppress_source_content_warnings = false }

abbrev pub fixed_hash : String → String
fixed_hash content = if_old (content == "old")
  where
    if_old : Bool → String
    if_old true = "01"
    if_old false = "02"

abbrev pub fixed_digest : Digester
fixed_digest v = digested "ff"

abbrev pub environment : Environment
environment = record {
  path_match = literal;
  digest = fixed_digest;
  hash = fixed_hash;
  retriever = none;
  options = options;
}

abbrev pub services : Services
services = record { hash = fixed_hash; retriever = none; options = options; certname = "web1" }

abbrev pub exact : Fidelity
exact = record { before = false; after = false }

abbrev pub side : ContentContext → Resource → Side
side context r = record { resource = r; context = context }

abbrev pub raw : ChangeKind → ResourceIdentity → String → Value → Value → RawChange
raw kind identity parameter before after = record {
  kind = kind;
  identity = identity;
  parameter = parameter;
  before = before;
  after = after;
  file_content = none;
  fingerprint = "";
}

abbrev pub diagnostic : Severity → Operation → Diagnostic
diagnostic severity operation = record {
  severity = severity;
  operation = operation;
  certname = "web1";
  source = "";
  message = "message";
}

abbrev pub changed_node : Bool → NodeDiff
changed_node differs = record {
  certname = "web1";
  resource_changes = [];
  edge_changes = [];
  exclusions = [];
  has_difference = differs;
}

abbrev pub target_result : String → Option NodeDiff → List Diagnostic → TargetResult
target_result certname node_diff diagnostics = record {
  certname = certname;
  outcome = other "";
  baseline = none;
  facts = none;
  candidate = none;
  config = none;
  node_diff = node_diff;
  diagnostics = diagnostics;
}

abbrev pub result : List TargetResult → List Diagnostic → Result
result targets diagnostics = record {
  schema_version = 1;
  invocation = record { tool_version = "0"; timestamp_utc = ""; services = none };
  targets = targets;
  aggregate = [];
  impact_estimates = [];
  diagnostics = diagnostics;
  outcome = other "";
  exit_code = 0;
  reasons = [];
}
