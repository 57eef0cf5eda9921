-- ===== src/Impact/Querier.antt =====
-- internal/impact/querier.go: one estimate. The transport client and `json.Unmarshal` are arguments;
-- a certname column that a row leaves out is `none`. The result limit is below the largest Go int.
pub mod Laws
pub mod Found
use Prim.Native.Char.{Char, code}
use Prim.Native.String
use Prim.Native.String.{◌++◌ as ◌<>◌}
use piace.Base.{
  ℕ, zero, suc, ◌+◌, String, Bool, true, false, ◌&&◌, ◌||◌, Option, none, some, List, [], ◌∷◌, ◌==◌,
  string_eq, if◌then◌else◌, ltb, leb, nat_eq, length, contains, is_some,
}
use piace.Base.Text.{opens_array}
use piace.Base.Decimal.{decimal}
use piace.Base.Order.{str_le}
use piace.Base.Sort.{sort}
use piace.Config.{ImpactPolicy}
use piace.Model.Catalog.{ResourceIdentity, to_string}
use piace.Model.Diagnostic.{Diagnostic, Severity, Operation}
use piace.Model.Result.{ImpactEstimate, ImpactStatus, ImpactRequest}
use piace.Impact.Pql.{build_pql, quote_pql_string}

pub record Limits : Type 0 where
  pub timeout : ℕ
  pub result_limit : ℕ

unfoldable pub limits_from : ImpactPolicy → Limits
limits_from cfg = record { timeout = cfg.timeout; result_limit = cfg.result_limit }

abbrev pub query_path : String
query_path = "/pdb/query/v4"

abbrev pub certname_order_by : String
certname_order_by = "[{\"field\":\"certname\",\"order\":\"asc\"}]"

-- What the client answers: no request, a transport error of the kind timeout or of another kind,
-- another error, or a status and a body.
pub data Reply : Type 0 where
  unbuilt timed_out transport_error other_error : String → Reply
  response : ℕ → String → Reply

-- The client at the endpoint, `time.Duration.String` and the decoder of a body.
pub record Client : Type 0 where
  pub ask : (query : String) → ImpactRequest → (timeout : ℕ) → Reply
  pub show : ℕ → String
  pub unmarshal : String → Option (List (Option String))

pub data Parsed : Type 0 where
  malformed : String → Parsed
  parsed : List String → Parsed

-- A row in front of the parsed ones.
unfoldable pub with_name : String → Parsed → Parsed
with_name name (malformed t) = malformed t
with_name name (parsed names) = parsed (name ∷ names)

unfoldable pub no_array_text : String
no_array_text = "impact estimate response was not a JSON array of certname rows"

-- The loop over the rows.
unfoldable pub parse_rows : List String → List (Option String) → Parsed
unfolding with_name
parse_rows seen [] = parsed []
parse_rows seen (none ∷ rows) =
    malformed "impact estimate response contained a row without a certname field"
parse_rows seen (some name ∷ rows) =
    let skipped = parse_rows seen rows in
    let added = with_name name (parse_rows (name ∷ seen) rows) in
    if name == ""
    then malformed "impact estimate response contained a row with an empty certname"
    else if contains name seen
    then skipped
    else added

unfoldable pub rows_or_malformed : Option (List (Option String)) → Parsed
unfolding parse_rows no_array_text
rows_or_malformed none = malformed no_array_text
rows_or_malformed (some rows) = parse_rows [] rows

unfoldable pub parse_certnames : (String → Option (List (Option String))) → String → Parsed
unfolding rows_or_malformed opens_array no_array_text
parse_certnames unmarshal body =
    if opens_array body then rows_or_malformed (unmarshal body) else malformed no_array_text

unfoldable pub estimate_diagnostic : ResourceIdentity → String → Diagnostic
estimate_diagnostic identity reason = record {
  severity = Severity.error;
  operation = Operation.estimate_impact;
  certname = "";
  source = to_string identity;
  message = reason;
}

-- The estimate with a status and a failure reason.
unfoldable pub stamped : ImpactEstimate → ImpactStatus → String → ImpactEstimate
stamped e status reason = record {
  identity = e.identity;
  pql = e.pql;
  request = e.request;
  result_limit = e.result_limit;
  timeout = e.timeout;
  status = status;
  certnames = e.certnames;
  result_count = e.result_count;
  truncated = e.truncated;
  failure_reason = reason;
}

unfoldable pub failed_estimate :
    ImpactEstimate → ResourceIdentity → String → ImpactEstimate × Option Diagnostic
unfolding stamped estimate_diagnostic
failed_estimate e identity reason =
    (stamped e ImpactStatus.failed reason, some (estimate_diagnostic identity reason))

-- `certnames[:limit]`.
unfoldable pub take : ℕ → List String → List String
take n [] = []
take zero (x ∷ xs) = []
take (suc n) (x ∷ xs) = x ∷ take n xs

-- A completed estimate, from the sorted certnames.
unfoldable pub completed_estimate : ImpactEstimate → List String → ImpactEstimate
unfolding take
completed_estimate e names =
    let is_over = ltb e.result_limit (length names) in
    record {
      identity = e.identity;
      pql = e.pql;
      request = e.request;
      result_limit = e.result_limit;
      timeout = e.timeout;
      status = ImpactStatus.completed;
      certnames = if is_over then take e.result_limit names else names;
      result_count = length names;
      truncated = is_over;
      failure_reason = "";
    }

unfoldable pub after_parse : ImpactEstimate → Parsed → ImpactEstimate × Option Diagnostic
unfolding failed_estimate completed_estimate
after_parse e (malformed t) = failed_estimate e e.identity t
after_parse e (parsed names) = (completed_estimate e (sort str_le names), none)

-- What the estimate becomes by the client's answer.
unfoldable pub after_reply :
    (String → Option (List (Option String)))
    → ImpactEstimate
    → Reply
    → ImpactEstimate × Option Diagnostic
unfolding after_parse failed_estimate stamped estimate_diagnostic
after_reply unmarshal e (unbuilt t) =
    failed_estimate e e.identity ("building impact estimate request: " <> t)
after_reply unmarshal e (timed_out t) =
    let reason = "impact estimate query exceeded its " <> (e.timeout <> " deadline") in
    (stamped e ImpactStatus.timeout reason, some (estimate_diagnostic e.identity reason))
after_reply unmarshal e (transport_error t) =
    failed_estimate e e.identity ("impact estimate query failed: " <> t)
after_reply unmarshal e (other_error t) =
    failed_estimate e e.identity ("impact estimate query failed: " <> t)
after_reply unmarshal e (response status body) =
    if ltb status 200 || leb 300 status
    then failed_estimate e e.identity (
        "PuppetDB returned a non-2xx status ("
        <> (decimal status <> ") for the impact estimate query"))
    else after_parse e (parse_certnames unmarshal body)

-- The estimate before any request, with its query text.
unfoldable pub blank_estimate : Client → ResourceIdentity → Limits → String → ImpactEstimate
blank_estimate client identity limits pql = record {
  identity = identity;
  pql = pql;
  request = record {
    path = query_path;
    limit = limits.result_limit + 1;
    order_by = certname_order_by;
  };
  result_limit = limits.result_limit;
  timeout = client.show limits.timeout;
  status = ImpactStatus.pending;
  certnames = [];
  result_count = 0;
  truncated = false;
  failure_reason = "";
}

-- The text of the error of `BuildPQL`, for the first component that has no literal.
unfoldable pub unencodable_text : ResourceIdentity → String
unfolding quote_pql_string
unencodable_text identity =
    "impact: "
    <> ((if is_some (quote_pql_string identity.type) then "resource title" else "resource type")
        <> " contains a control character with no documented PQL string escape")

unfoldable pub estimate_for :
    Client → ResourceIdentity → Limits → Option String → ImpactEstimate × Option Diagnostic
unfolding failed_estimate blank_estimate after_reply unencodable_text
estimate_for client identity limits none =
    failed_estimate (blank_estimate client identity limits "") identity (unencodable_text identity)
estimate_for client identity limits (some pql) =
    let e = blank_estimate client identity limits pql in
    after_reply client.unmarshal e (client.ask pql e.request limits.timeout)

unfoldable pub estimate : Client → ResourceIdentity → Limits → ImpactEstimate × Option Diagnostic
unfolding estimate_for build_pql
estimate client identity limits = estimate_for client identity limits (build_pql identity)
