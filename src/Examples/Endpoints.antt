-- ===== src/Examples/Endpoints.antt =====
-- Endpoints of an example services file.
use piace.Base.{false, some, [], ◌≡◌, refl, not, ◌==◌, string_eq}
use piace.Base.Integer.{pos}
use piace.Config.Services.{ServiceEndpoint, ServicePlatform, resolve_endpoint}
use piace.Config.Services.Laws.{IsUsable, resolve_endpoint-IsUsable}

abbrev platform : ServicePlatform
platform = record {
  parse_url = λ raw. some (record { has_user = false; scheme = "https"; hostname = "puppet" });
  getenv = λ name. "/run/key.pem";
  is_abs = λ path. not (path == "ca.pem");
  join_path = λ dir path. "/etc/piace/ca.pem";
  parse_duration = λ text. some (pos 10);
}

abbrev endpoint : ServiceEndpoint
endpoint = record {
  endpoint = "https://puppet:8140";
  ca_bundle = "ca.pem";
  ca_bundle_env = "";
  client_cert = "/etc/piace/cert.pem";
  client_cert_env = "";
  private_key = "";
  private_key_env = "PIACE_KEY";
  timeout = "";
}

resolved_ca :
    (resolve_endpoint platform "compiler" endpoint "/etc/piace").0.ca_bundle ≡ "/etc/piace/ca.pem"
unfolding resolve_endpoint
resolved_ca = refl

unproblematic : (resolve_endpoint platform "compiler" endpoint "/etc/piace").1 ≡ []
unfolding resolve_endpoint
unproblematic = refl

resolve_endpoint-IsUsable_example :
    IsUsable platform (resolve_endpoint platform "compiler" endpoint "/etc/piace").0
resolve_endpoint-IsUsable_example =
    resolve_endpoint-IsUsable platform "compiler" endpoint "/etc/piace" (λ p. refl) unproblematic
