-- ===== src/Config/Client.antt =====
-- pkg/config/docker.go: the client that talks to Docker. The file system and the TLS library are
-- arguments.
pub mod Laws
use deviced.Base.{
  List, [], ◌∷◌, Option, none, some, Bool, true, false, not, ◌&&◌, Bytes, codes, is_empty,
  if◌then◌else◌,
}

pub record DockerClientTlsConfig : Type 0 where
  pub ca_pem_path : Bytes
  pub cert_pem_path : Bytes
  pub key_pem_path : Bytes

pub record DockerClientConfig : Type 0 where
  pub load_from_environment : Bool
  pub use_tls : Bool
  pub tls_config : DockerClientTlsConfig
  pub endpoint : Bytes

-- `not_exist p` is `os.IsNotExist` of the error of `os.Stat(p)`.
pub record TlsFiles : Type 0 where
  pub not_exist : Bytes → Bool
  pub read_file : Bytes → Option Bytes
  pub append_certs : Bytes → Bool
  pub load_key_pair : Bytes → Bytes → Option Bytes

-- `tls.Config`: the certificates of the authority, and the own pair.
pub record TlsConfig : Type 0 where
  pub client_cas : Bytes
  pub certificate : Bytes

pub data ClientError : Type 0 where
  no_endpoint : ClientError
  invalid_tls : ClientError
  unreadable : ClientError
  bad_ca_certs : ClientError
  bad_key_pair : ClientError

pub data LoadedTls : Type 0 where
  loaded : TlsConfig → LoadedTls
  load_failed : ClientError → LoadedTls

-- The client that `BuildClient` makes, or its error. Docker's library may refuse to make either.
pub data BuiltClient : Type 0 where
  env_client : BuiltClient
  new_client : Bytes → Option TlsConfig → BuiltClient
  failed : ClientError → BuiltClient

abbrev pub default_endpoint : Bytes
default_endpoint = codes "unix:///var/run/docker.sock"

unfoldable pub fill_client_defaults : DockerClientConfig → DockerClientConfig
fill_client_defaults c =
    if is_empty c.endpoint && not c.load_from_environment
    then record c { endpoint = default_endpoint }
    else c

module _ (files : TlsFiles) where
  open files use {not_exist, read_file, append_certs, load_key_pair}

  unfoldable pub load_tls_config : DockerClientTlsConfig → LoadedTls
  load_tls_config c = elim (read_file c.ca_pem_path) [
    | none ↦ load_failed unreadable
    | some ca ↦
        if not (append_certs ca)
        then load_failed bad_ca_certs
        else elim (load_key_pair c.cert_pem_path c.key_pem_path) [
          | none ↦ load_failed bad_key_pair
          | some cert ↦ loaded (record { client_cas = ca; certificate = cert })
        ]
  ]

  -- The loop over the paths.
  unfoldable pub validate_paths : List Bytes → Bool
  validate_paths [] = true
  validate_paths (path ∷ paths) =
      let rest = validate_paths paths in
      if is_empty path then false else if not_exist path then false else rest

  unfoldable pub validate_tls : DockerClientTlsConfig → Bool
  validate_tls c = validate_paths (c.ca_pem_path ∷ c.cert_pem_path ∷ c.key_pem_path ∷ [])

  unfoldable pub client_with_tls : DockerClientConfig → LoadedTls → BuiltClient
  client_with_tls c (loaded tls) = new_client c.endpoint (some tls)
  client_with_tls c (load_failed e) = failed e

  unfoldable pub build_client : DockerClientConfig → BuiltClient
  build_client c =
      if c.load_from_environment
      then env_client
      else if is_empty c.endpoint
      then failed no_endpoint
      else if c.use_tls
      then (if not (validate_tls c.tls_config)
          then failed invalid_tls
          else client_with_tls c (load_tls_config c.tls_config))
      else new_client c.endpoint none
