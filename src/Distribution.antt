-- ===== src/Distribution.antt =====
-- pkg/distribution/registry.go: connections to repositories of a registry.

use deviced.Base.{List, none, some, Bool, true, false, not, Bytes, is_empty, if◌then◌else◌}
use deviced.Docker.{AuthConfig}
use deviced.Registry.Certs.{ClientTls}
use deviced.Registry.Service.{ApiEndpoint}
use deviced.Registry.Ping.{
  Header, HttpLibrary, Transport, PingError, pinged, ping_failed, docker_headers, ping_v2_registry,
}

-- The handlers that authorize requests: one with a token that exists, or those that ask for a token of
-- this scope, or send a name and a password.
pub data Authorizer : Type 0 where
  existing_token : Bytes → Authorizer
  token_and_basic : AuthConfig → Bytes → List Bytes → Authorizer

-- A repository: its name and URL, and how its requests are made.
pub record Connection : Type 0 where
  pub name : Bytes
  pub url : Bytes
  pub tls_config : ClientTls
  pub headers : Header
  pub challenges : Bytes
  pub authorizer : Authorizer

pub data ConnectError : Type 0 where
  ping_error : PingError → ConnectError
  bad_name : ConnectError
  no_repository : ConnectError

pub record FallbackError : Type 0 where
  pub err : ConnectError
  pub confirmed_v2 : Bool
  pub transport_ok : Bool

-- Also whether the registry was found to be a v2 one.
pub data ConnectResult : Type 0 where
  connected : Connection → Bool → ConnectResult
  refused : FallbackError → Bool → ConnectResult

unfoldable pub authorizer_of : AuthConfig → Bytes → List Bytes → Authorizer
authorizer_of auth repo_name actions =
    if not (is_empty auth.registry_token)
    then existing_token auth.registry_token
    else token_and_basic auth repo_name actions

-- The type of the error tells whether the registry answered.
unfoldable pub is_transport_ok : PingError → Bool
is_transport_ok PingError.bad_request = false
is_transport_ok PingError.no_answer = false
is_transport_ok PingError.ping_response_error = true

module _ (lib : HttpLibrary) where
  -- What follows the ping.
  unfoldable pub open_repository : Connection → Bool → ConnectResult
  open_repository c found = elim (lib.parse_named c.name) [
    | none ↦ refused (record { err = bad_name; confirmed_v2 = found; transport_ok = true }) found
    | some name ↦
        if lib.new_repository name c.url
        then connected (record c { name = name }) found
        else refused (record { err = no_repository; confirmed_v2 = found; transport_ok = true })
            found
  ]

  -- `NewV2Repository`; both values that it gives to `repoName` are `repoInfo.Name()`.
  unfoldable pub new_v2_repository :
      Transport → Bytes → ApiEndpoint → Header → AuthConfig → List Bytes → ConnectResult
  new_v2_repository transport repo_name endpoint meta_headers auth actions =
      let headers = docker_headers meta_headers in
      elim (ping_v2_registry lib transport headers endpoint) [
        | ping_failed e found ↦
            refused
              (record {
                err = ping_error e;
                confirmed_v2 = found;
                transport_ok = is_transport_ok e;
              })
              found
        | pinged manager found ↦
            open_repository
              (record {
                name = repo_name;
                url = lib.url_string endpoint.url;
                tls_config = endpoint.tls_config;
                headers = headers;
                challenges = manager;
                authorizer = authorizer_of auth repo_name actions;
              })
              found
      ]
