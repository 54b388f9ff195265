-- ===== src/Registry/Service.antt =====
-- pkg/registry/service.go, service_v1.go and service_v2.go: the endpoints of a host.
use deviced.Base.{
  List, [], ◌∷◌, ◌++◌, Option, none, some, Bool, true, false, not, ◌&&◌, ◌||◌, Bytes, codes, beq,
  has_prefix, contains, if◌then◌else◌,
}
use deviced.Registry.Config.{Net, Url, ServiceConfig, index_name, is_secure_index}
use deviced.Registry.Certs.{ClientTls, CertStore, new_tls_config}

pub data ApiVersion : Type 0 where
  api_version1 : ApiVersion
  api_version2 : ApiVersion

pub record ApiEndpoint : Type 0 where
  pub mirror : Bool
  pub url : Url
  pub version : ApiVersion
  pub official : Bool
  pub trim_hostname : Bool
  pub tls_config : ClientTls

abbrev pub url_at : Bytes → Bytes → Url
url_at scheme host = record {
  scheme = scheme;
  host = host;
  path = [];
  raw_query = [];
  fragment = [];
}

abbrev pub default_v1_host : Bytes
default_v1_host = codes "index.docker.io"

abbrev pub default_v2_host : Bytes
default_v2_host = codes "registry-1.docker.io"

-- An endpoint of a host that is not Docker's.
abbrev pub endpoint_at : Bytes → ApiVersion → Bytes → ClientTls → ApiEndpoint
endpoint_at scheme version hostname tls = record {
  mirror = false;
  url = url_at scheme hostname;
  version = version;
  official = false;
  trim_hostname = true;
  tls_config = tls;
}

abbrev pub official_endpoint : ApiVersion → Bytes → ClientTls → ApiEndpoint
official_endpoint version host tls = record {
  mirror = false;
  url = url_at (codes "https") host;
  version = version;
  official = true;
  trim_hostname = true;
  tls_config = tls;
}

-- The mirror with its scheme.
unfoldable pub mirror_with_scheme : Bytes → Bytes
mirror_with_scheme mirror =
    if not (has_prefix (codes "http://") mirror) && not (has_prefix (codes "https://") mirror)
    then codes "https://" ++ mirror
    else mirror

-- `https`, and `http` behind it if certificates are not verified.
unfoldable pub host_endpoints : ApiVersion → Bytes → ClientTls → List ApiEndpoint
host_endpoints version hostname tls =
    if tls.insecure_skip_verify
    then endpoint_at (codes "https") version hostname tls
      ∷ endpoint_at (codes "http") version hostname tls
      ∷ []
    else endpoint_at (codes "https") version hostname tls ∷ []

-- The loop that leaves out the mirrors.
unfoldable pub drop_mirrors : List ApiEndpoint → List ApiEndpoint
drop_mirrors [] = []
drop_mirrors (e ∷ es) = let rest = drop_mirrors es in if not e.mirror then e ∷ rest else rest

module _ (net : Net) (store : CertStore) (config : ServiceConfig) where
  unfoldable pub tls_config_of : Bytes → Option ClientTls
  tls_config_of hostname = new_tls_config store hostname (is_secure_index net config hostname)

  unfoldable pub mirror_endpoint : Url → Option ApiEndpoint
  mirror_endpoint url = elim (tls_config_of url.host) [
    | none ↦ none
    | some tls ↦ some (record {
      mirror = true;
      url = url;
      version = api_version2;
      official = false;
      trim_hostname = true;
      tls_config = tls;
    })
  ]

  -- The loop over the mirrors, and the registry itself behind them.
  unfoldable pub docker_endpoints : List Bytes → Option (List ApiEndpoint)
  docker_endpoints [] =
      some (official_endpoint api_version2 default_v2_host store.server_default ∷ [])
  docker_endpoints (mirror ∷ mirrors) = elim (net.parse_url (mirror_with_scheme mirror)) [
    | none ↦ none
    | some url ↦ elim (mirror_endpoint url) [
      | none ↦ none
      | some e ↦ elim (docker_endpoints mirrors) [ none ↦ none | some es ↦ some (e ∷ es) ]
    ]
  ]

  unfoldable pub version_endpoints : ApiVersion → Bytes → Option (List ApiEndpoint)
  version_endpoints version hostname = elim (tls_config_of hostname) [
    | none ↦ none
    | some tls ↦ some (host_endpoints version hostname tls)
  ]

  unfoldable pub lookup_v2_endpoints : Bytes → Option (List ApiEndpoint)
  lookup_v2_endpoints hostname =
      if beq hostname index_name || beq hostname default_v1_host
      then docker_endpoints config.mirrors
      else version_endpoints api_version2 hostname

  unfoldable pub lookup_v1_endpoints : Bytes → Option (List ApiEndpoint)
  lookup_v1_endpoints hostname =
      if beq hostname index_name
      then some (official_endpoint api_version1 default_v1_host store.server_default ∷ [])
      else version_endpoints api_version1 hostname

  unfoldable pub lookup_endpoints : Bytes → Option (List ApiEndpoint)
  lookup_endpoints hostname = elim (lookup_v2_endpoints hostname) [
    | none ↦ none
    | some endpoints ↦
        if config.v2_only then some endpoints else elim (lookup_v1_endpoints hostname) [
          | none ↦ none
          | some legacy ↦ some (endpoints ++ legacy)
        ]
  ]

  unfoldable pub lookup_pull_endpoints : Bytes → Option (List ApiEndpoint)
  lookup_pull_endpoints hostname = lookup_endpoints hostname

  unfoldable pub lookup_push_endpoints : Bytes → Option (List ApiEndpoint)
  lookup_push_endpoints hostname = elim (lookup_endpoints hostname) [
    | none ↦ none
    | some all ↦ some (drop_mirrors all)
  ]

-- `strings.SplitN(s, "/", 2)`: what stands before the first slash, and what behind it.
unfoldable pub split_slash : Bytes → Option (Bytes × Bytes)
split_slash [] = none
split_slash (c ∷ s) =
    let rest = split_slash s in
    if beq (c ∷ []) (codes "/")
    then some ([], s)
    else elim rest [ none ↦ none | some (front, back) ↦ some (c ∷ front, back) ]

-- The part before the slash names a host.
unfoldable pub is_host : Bytes → Bool
is_host part =
    contains (codes ".") part || (contains (codes ":") part || beq part (codes "localhost"))

unfoldable pub split_repos_search_term : Bytes → Bytes × Bytes
split_repos_search_term repos_name = elim (split_slash repos_name) [
  | none ↦ (index_name, repos_name)
  | some (front, back) ↦ if is_host front then (front, back) else (index_name, repos_name)
]
