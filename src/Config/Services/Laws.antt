-- ===== src/Config/Services/Laws.antt =====
-- The endpoints that internal/config/resolve/services.go gives.
use piace.Base.{
  String, Bool, true, false, not, Option, none, some, List, [], ◌++◌, ◌==◌, string_eq,
  if◌then◌else◌, ◌&&◌, ◌≡◌, refl, arith, inl, inr, Bool-cases,
}
use piace.Config.Resolve.Valid.{append-empty}
use piace.Config.Services.{
  ServiceEndpoint, Url, UrlError, TlsError, Endpoint, ServicePlatform, ServiceProblem, checked_url,
  validate_https_endpoint, validate_tls_path, resolve_service_timeout, from_variable, from_path,
  resolve_tls_path, url_problems, resolve_endpoint,
}

module _ (platform : ServicePlatform) where
  -- A URL that may be contacted: https, with a host and without user information.
  abbrev pub IsSafe : Option Url → Type 0
  IsSafe none = ⊥
  IsSafe (some u) =
      (u.has_user ≡ false) × ((u.scheme == "https") ≡ true) × ((u.hostname == "") ≡ false)

  -- A safe URL, and the three TLS files by absolute paths.
  abbrev pub IsUsable : Endpoint → Type 0
  IsUsable e =
      IsSafe e.url
      × (platform.is_abs e.ca_bundle ≡ true)
      × (platform.is_abs e.client_cert ≡ true)
      × (platform.is_abs e.private_key ≡ true)

  IsAbs : String × List ServiceProblem → Type 0
  IsAbs (path, problems) = problems ≡ [] → platform.is_abs path ≡ true

  if-IsAbs :
      (b : Bool) (x y : String × List ServiceProblem)
      → (b ≡ true → IsAbs x)
      → (b ≡ false → IsAbs y)
      → IsAbs (if b then x else y)
  if-IsAbs true x y h k = h refl
  if-IsAbs false x y h k = k refl

  from_variable-IsAbs :
      (section key env value : String) (o : Option TlsError)
      → IsAbs (from_variable platform section key env value o)
  unfolding from_variable IsAbs
  from_variable-IsAbs section key env value (some e) = λ h. absurd (cc)
  from_variable-IsAbs section key env value none =
      if-IsAbs (not (platform.is_abs value)) _ _ (λ b h. absurd (cc)) (λ b h. ground (arith, b))

  from_path-IsAbs :
      (section key path dir : String) (o : Option TlsError)
      → platform.is_abs (platform.join_path dir path) ≡ true
      → IsAbs (from_path platform section key path dir o)
  unfolding from_path IsAbs
  from_path-IsAbs section key path dir (some e) j h = absurd (cc)
  from_path-IsAbs section key path dir none j h = elim (Bool-cases (platform.is_abs path)) [
    | inl b ↦ rw b b
    | inr b ↦ rw b j
  ]

  resolve_tls_path-IsAbs :
      (section key path env dir : String)
      → ((p : String) → platform.is_abs (platform.join_path dir p) ≡ true)
      → IsAbs (resolve_tls_path platform section key path env dir)
  unfolding resolve_tls_path IsAbs
  resolve_tls_path-IsAbs section key path env dir j =
      let value = platform.getenv env in
      if-IsAbs (not (path == "") && not (env == "")) _ _ (λ b h. absurd (cc))
        (λ b.
          if-IsAbs (not (env == "")) _ _
            (λ c.
              if-IsAbs (value == "") _ _ (λ d h. absurd (cc))
                (λ d. from_variable-IsAbs section key env value (validate_tls_path value)))
            (λ c.
              if-IsAbs (not (path == "")) _ _
                (λ d. from_path-IsAbs section key path dir (validate_tls_path path) (j path))
                (λ d h. absurd (cc))))

  IsSafeAnswer : Option UrlError × Option Url → Type 0
  IsSafeAnswer (e, u) = e ≡ none → IsSafe u

  if-IsSafeAnswer :
      (b : Bool) (x y : Option UrlError × Option Url)
      → (b ≡ true → IsSafeAnswer x)
      → (b ≡ false → IsSafeAnswer y)
      → IsSafeAnswer (if b then x else y)
  if-IsSafeAnswer true x y h k = h refl
  if-IsSafeAnswer false x y h k = k refl

  checked_url-IsSafe : (o : Option Url) → IsSafeAnswer (checked_url o)
  unfolding checked_url IsSafeAnswer
  checked_url-IsSafe none = λ h. absurd (cc)
  checked_url-IsSafe (some u) =
      if-IsSafeAnswer u.has_user _ _ (λ b h. absurd (cc))
        (λ b.
          if-IsSafeAnswer (not (u.scheme == "https")) _ _ (λ c h. absurd (cc))
            (λ c.
              if-IsSafeAnswer (u.hostname == "") _ _ (λ d h. absurd (cc))
                (λ d h. (b, ground (arith, c), d))))

  validate_https_endpoint-IsSafe :
      (raw : String) → IsSafeAnswer (validate_https_endpoint platform raw)
  unfolding validate_https_endpoint IsSafeAnswer
  validate_https_endpoint-IsSafe raw =
      if-IsSafeAnswer (raw == "") _ _ (λ b h. absurd (cc))
        (λ b. checked_url-IsSafe (platform.parse_url raw))

  no_url_problem : (section : String) (o : Option UrlError) → url_problems section o ≡ [] → o ≡ none
  unfolding url_problems
  no_url_problem section none h = refl
  no_url_problem section (some e) h = absurd (cc)

  -- An endpoint without problems is contacted over https only, with TLS files at absolute paths, where
  -- joining the directory of the services file with a path gives an absolute path.
  pub resolve_endpoint-IsUsable :
      (section : String) (ep : ServiceEndpoint) (dir : String)
      → ((p : String) → platform.is_abs (platform.join_path dir p) ≡ true)
      → (resolve_endpoint platform section ep dir).1 ≡ []
      → IsUsable (resolve_endpoint platform section ep dir).0
  unfolding resolve_endpoint IsAbs IsSafeAnswer
  resolve_endpoint-IsUsable section ep dir j h =
      let u = validate_https_endpoint platform ep.endpoint in
      let ca = resolve_tls_path platform section "ca_bundle" ep.ca_bundle ep.ca_bundle_env dir in
      let cert =
        resolve_tls_path platform section "client_cert" ep.client_cert ep.client_cert_env dir in
      let key =
        resolve_tls_path platform section "private_key" ep.private_key ep.private_key_env dir in
      let timeout = resolve_service_timeout platform section ep.timeout in
      let (a, h1) =
        append-empty (url_problems section u.0) (ca.1 ++ (cert.1 ++ (key.1 ++ timeout.1))) h in
      let (b, h2) = append-empty ca.1 (cert.1 ++ (key.1 ++ timeout.1)) h1 in
      let (c, h3) = append-empty cert.1 (key.1 ++ timeout.1) h2 in
      let (d, _) = append-empty key.1 timeout.1 h3 in
      (
        validate_https_endpoint-IsSafe ep.endpoint (no_url_problem section u.0 a),
        resolve_tls_path-IsAbs section "ca_bundle" ep.ca_bundle ep.ca_bundle_env dir j b,
        resolve_tls_path-IsAbs section "client_cert" ep.client_cert ep.client_cert_env dir j c,
        resolve_tls_path-IsAbs section "private_key" ep.private_key ep.private_key_env dir j d,
      )
