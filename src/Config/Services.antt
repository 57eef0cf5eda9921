-- ===== src/Config/Services.antt =====
-- internal/config/resolve/services.go with validateHTTPSEndpoint and validateTLSPath of validate.go, and
-- the services file of internal/config/services.go. `url.Parse`, `time.ParseDuration`, the environment
-- and `path/filepath` are arguments; a problem is the case of its message with the arguments.
pub mod Laws
use piace.Base.{
  ℕ, String, Bool, true, false, not, Option, none, some, List, [], ◌∷◌, ◌++◌, ◌==◌, string_eq,
  if◌then◌else◌, ◌&&◌,
}
use piace.Base.Integer.{ℤ, positive}
use piace.Base.Split.{has_code}
use piace.Config.Run.{ServiceSet, is_version_1}

pub record ServiceEndpoint : Type 0 where
  pub endpoint : String
  pub ca_bundle : String
  pub ca_bundle_env : String
  pub client_cert : String
  pub client_cert_env : String
  pub private_key : String
  pub private_key_env : String
  pub timeout : String

pub record ServicesFile : Type 0 where
  pub version : ℤ
  pub compiler : ServiceEndpoint
  pub puppetdb : ServiceEndpoint

-- The parts of a parsed URL that are read.
pub record Url : Type 0 where
  pub has_user : Bool
  pub scheme : String
  pub hostname : String

pub record Endpoint : Type 0 where
  pub url : Option Url
  pub ca_bundle : String
  pub client_cert : String
  pub private_key : String
  pub timeout : ℕ

pub record Services : Type 0 where
  pub compiler : Endpoint
  pub puppetdb : Endpoint

-- `url.Parse`, `os.Getenv`, `filepath.IsAbs`, `filepath.Join` and `time.ParseDuration`.
pub record ServicePlatform : Type 0 where
  pub parse_url : String → Option Url
  pub getenv : String → String
  pub is_abs : String → Bool
  pub join_path : String → String → String
  pub parse_duration : String → Option ℤ

pub data UrlError : Type 0 where
  empty_endpoint invalid_url userinfo unsafe_scheme missing_host : UrlError

pub data TlsError : Type 0 where
  empty_path nul_byte : TlsError

pub data ServiceProblem : Type 0 where
  services_version : ℤ → ServiceProblem
  bad_endpoint : String → UrlError → ServiceProblem
  both_references no_reference : String → String → ServiceProblem
  unset_variable not_absolute : String → String → String → ServiceProblem
  bad_variable : String → String → TlsError → ServiceProblem
  bad_tls_path : String → String → TlsError → ServiceProblem
  invalid_timeout nonpositive_timeout : String → String → ServiceProblem

unfoldable pub checked_url : Option Url → Option UrlError × Option Url
checked_url none = (some invalid_url, none)
checked_url (some u) =
    if u.has_user
    then (some userinfo, none)
    else if not (u.scheme == "https")
    then (some unsafe_scheme, none)
    else if u.hostname == ""
    then (some missing_host, none)
    else (none, some u)

-- `validateHTTPSEndpoint`.
unfoldable pub validate_https_endpoint : ServicePlatform → String → Option UrlError × Option Url
unfolding checked_url
validate_https_endpoint platform raw =
    if raw == "" then (some empty_endpoint, none) else checked_url (platform.parse_url raw)

-- `validateTLSPath`.
unfoldable pub validate_tls_path : String → Option TlsError
unfolding has_code
validate_tls_path value =
    if value == "" then some empty_path else if has_code 0 value then some nul_byte else none

-- A value, and the problems.
unfoldable pub checked_timeout : String → String → Option ℕ → ℕ × List ServiceProblem
checked_timeout section raw none = (0, nonpositive_timeout section raw ∷ [])
checked_timeout section raw (some n) = (n, [])

unfoldable pub parsed_timeout : String → String → Option ℤ → ℕ × List ServiceProblem
unfolding checked_timeout positive
parsed_timeout section raw none = (0, invalid_timeout section raw ∷ [])
parsed_timeout section raw (some d) = checked_timeout section raw (positive d)

unfoldable pub resolve_service_timeout : ServicePlatform → String → String → ℕ × List ServiceProblem
unfolding parsed_timeout
resolve_service_timeout platform section raw =
    if raw == "" then (0, []) else parsed_timeout section raw (platform.parse_duration raw)

unfoldable pub from_variable :
    ServicePlatform
    → String
    → String
    → String
    → String
    → Option TlsError
    → String × List ServiceProblem
from_variable platform section key env value (some e) = ("", bad_variable section key e ∷ [])
from_variable platform section key env value none =
    if not (platform.is_abs value) then ("", not_absolute section key env ∷ []) else (value, [])

unfoldable pub from_path :
    ServicePlatform
    → String
    → String
    → String
    → String
    → Option TlsError
    → String × List ServiceProblem
from_path platform section key path dir (some e) = ("", bad_tls_path section key e ∷ [])
from_path platform section key path dir none =
    (if platform.is_abs path then path else platform.join_path dir path, [])

-- `resolveTLSPath`.
unfoldable pub resolve_tls_path :
    ServicePlatform → String → String → String → String → String → String × List ServiceProblem
unfolding from_variable from_path validate_tls_path
resolve_tls_path platform section key path env dir =
    let value = platform.getenv env in
    if not (path == "") && not (env == "")
    then ("", both_references section key ∷ [])
    else if not (env == "")
    then if value == ""
      then ("", unset_variable section key env ∷ [])
      else from_variable platform section key env value (validate_tls_path value)
    else if not (path == "")
    then from_path platform section key path dir (validate_tls_path path)
    else ("", no_reference section key ∷ [])

unfoldable pub url_problems : String → Option UrlError → List ServiceProblem
url_problems section none = []
url_problems section (some e) = bad_endpoint section e ∷ []

unfoldable pub resolve_endpoint :
    ServicePlatform → String → ServiceEndpoint → String → Endpoint × List ServiceProblem
unfolding validate_https_endpoint url_problems resolve_tls_path resolve_service_timeout
resolve_endpoint platform section ep dir =
    let u = validate_https_endpoint platform ep.endpoint in
    let ca = resolve_tls_path platform section "ca_bundle" ep.ca_bundle ep.ca_bundle_env dir in
    let cert =
      resolve_tls_path platform section "client_cert" ep.client_cert ep.client_cert_env dir in
    let key =
      resolve_tls_path platform section "private_key" ep.private_key ep.private_key_env dir in
    let timeout = resolve_service_timeout platform section ep.timeout in
    (
      record {
        url = u.1;
        ca_bundle = ca.0;
        client_cert = cert.0;
        private_key = key.0;
        timeout = timeout.0;
      },
      url_problems section u.0 ++ (ca.1 ++ (cert.1 ++ (key.1 ++ timeout.1))),
    )

unfoldable pub no_endpoint : Endpoint
no_endpoint = record { url = none; ca_bundle = ""; client_cert = ""; private_key = ""; timeout = 0 }

unfoldable pub needed : Bool → Endpoint × List ServiceProblem → Endpoint × List ServiceProblem
unfolding no_endpoint
needed true found = found
needed false found = (no_endpoint, [])

pub data ResolvedServices : Type 0 where
  refused_services : List ServiceProblem → ResolvedServices
  resolved_services : Services → ResolvedServices

unfoldable pub settled_services : List ServiceProblem → Services → ResolvedServices
settled_services [] s = resolved_services s
settled_services (p ∷ ps) s = refused_services (p ∷ ps)

-- `ResolveServices`.
unfoldable pub resolve_services :
    ServicePlatform → ServicesFile → String → ServiceSet → ResolvedServices
unfolding settled_services needed resolve_endpoint is_version_1
resolve_services platform sf dir need =
    let compiler = needed need.compiler (resolve_endpoint platform "compiler" sf.compiler dir) in
    let puppetdb = needed need.puppetdb (resolve_endpoint platform "puppetdb" sf.puppetdb dir) in
    settled_services
      ((if is_version_1 sf.version then [] else services_version sf.version ∷ [])
        ++ (compiler.1 ++ puppetdb.1))
      (record { compiler = compiler.0; puppetdb = puppetdb.0 })
