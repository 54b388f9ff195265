-- ===== src/Config/Client/Laws.antt =====
-- TLS in `BuildClient`, and the defaults of the endpoint.
-- About pkg/config/docker.go.
use deviced.Base.{
  List, [], ◌∷◌, Option, some, true, false, Bytes, is_empty, ◌≡◌, ◌≢◌, refl, arith, All, ◌⊎◌, inl,
  inr,
}
use deviced.Config.Client.{
  DockerClientConfig, TlsFiles, TlsConfig, ClientError, no_endpoint, LoadedTls, loaded, load_failed,
  new_client, failed, fill_client_defaults, load_tls_config, validate_paths, validate_tls,
  client_with_tls, build_client,
}

-- The path is given, and the file is not known to be missing.
abbrev pub IsPresent : TlsFiles → Bytes → Type 0
IsPresent files path = (is_empty path ≡ false) × (files.not_exist path ≡ false)

validate_paths-IsPresent :
    (files : TlsFiles) (paths : List Bytes)
    → validate_paths files paths ≡ true
    → All (IsPresent files) paths
unfolding validate_paths
validate_paths-IsPresent files [] h = tt
validate_paths-IsPresent files (p ∷ paths) h = ground (arith, validate_paths-IsPresent files paths)

LoadedTls-cases :
    (l : LoadedTls)
    → ((conf : TlsConfig) × (l ≡ loaded conf)) ⊎ ((e : ClientError) × (l ≡ load_failed e))
LoadedTls-cases (loaded conf) = inl (conf, refl)
LoadedTls-cases (load_failed e) = inr (e, refl)

-- A client that is made for an endpoint of a configuration with TLS has the loaded certificates, and
-- the three files were given and present: there is no way back to plain connections.
pub build_client_tls :
    (files : TlsFiles) (c : DockerClientConfig) (endpoint : Bytes) (tls : Option TlsConfig)
    → c.use_tls ≡ true
    → build_client files c ≡ new_client endpoint tls
    → (endpoint ≡ c.endpoint)
      × ((conf : TlsConfig) × (tls ≡ some conf)
          × (load_tls_config files c.tls_config ≡ loaded conf)
          × IsPresent files c.tls_config.ca_pem_path
          × IsPresent files c.tls_config.cert_pem_path
          × IsPresent files c.tls_config.key_pem_path)
unfolding build_client validate_tls client_with_tls
build_client_tls files c endpoint tls on h =
    let valid : validate_tls files c.tls_config ≡ true = ground arith in
    let (ca, (cert, (key, _))) =
      validate_paths-IsPresent files
        (c.tls_config.ca_pem_path ∷ c.tls_config.cert_pem_path ∷ c.tls_config.key_pem_path ∷ [])
        valid in
    elim (LoadedTls-cases (load_tls_config files c.tls_config)) [
      | inl (conf, q) ↦ (ground arith, (conf, ground arith, q, ca, cert, key))
      | inr (e, q) ↦ absurd (ground arith)
    ]

-- With the defaults filled in there is an endpoint or the environment is used: the client is never
-- refused for want of an endpoint. Filling in the defaults again changes nothing.
pub fill_client_defaults_endpoint :
    (files : TlsFiles) (c : DockerClientConfig)
    → (build_client files (fill_client_defaults c) ≢ failed no_endpoint)
      × (fill_client_defaults (fill_client_defaults c) ≡ fill_client_defaults c)
unfolding build_client fill_client_defaults client_with_tls load_tls_config
fill_client_defaults_endpoint files c = (ground arith, ground arith)
