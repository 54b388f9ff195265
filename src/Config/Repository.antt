-- ===== src/Config/Repository.antt =====
-- pkg/config/repository.go: a registry to pull from.
use deviced.Base.{List, [], Bool, not, Bytes, is_empty}
use deviced.Docker.{AuthConfig}

pub record RemoteRepository : Type 0 where
  pub url : Bytes
  pub pull_prefix : Bytes
  pub username : Bytes
  pub password : Bytes
  pub meta_headers : List (Bytes × List Bytes)
  pub insecure : Bool

unfoldable pub requires_auth : RemoteRepository → Bool
requires_auth r = not (is_empty r.username)

unfoldable pub validate_repository : RemoteRepository → Bool
validate_repository r = not (is_empty r.url)

-- The credentials, which name no token.
unfoldable pub auth_of : RemoteRepository → AuthConfig
auth_of r = record {
  username = r.username;
  password = r.password;
  identity_token = [];
  registry_token = [];
}

-- The credentials in JSON and base64, which are the libraries'.
unfoldable pub build_base64_creds :
    (AuthConfig → Bytes) → (Bytes → Bytes) → RemoteRepository → Bytes
build_base64_creds marshal encode r = encode (marshal (auth_of r))
