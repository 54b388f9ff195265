-- ===== src/ImageSync/Endpoints.antt =====
-- The endpoints that the image worker tries at an insecure repository.
-- About pkg/imagesync/worker.go.
use deviced.Base.{[], ◌∷◌, none, some, true, false, Bytes, codes, ◌≡◌, ◌≢◌, refl, inl}
use deviced.Config.Repository.{RemoteRepository}
use deviced.Registry.Config.{Net, ServiceOptions, index_name, new_service_config}
use deviced.Registry.Certs.{CertStore}
use deviced.Registry.Service.{
  api_version1, api_version2, endpoint_at, default_v1_host, lookup_pull_endpoints,
}
use deviced.Registry.Insecure.{
  is_secure_index_options, lookup_pull_endpoints-insecure, new_service_config-v2_only,
}
use deviced.ImageSync.Query.{service_config}

-- At the host of a repository that the configuration calls insecure, which is not Docker's and does not
-- read as a subnet, the image worker tries https before http and version 2 before version 1, and none
-- of the four endpoints verifies certificates.
service_config-insecure :
    (net : Net) (store : CertStore) (rege : RemoteRepository) (host : Bytes)
    → rege.insecure ≡ true
    → net.parse_cidr host ≡ none
    → host ≢ index_name
    → host ≢ default_v1_host
    → let tls = record (store.server_default) { insecure_skip_verify = true } in
      lookup_pull_endpoints net store (service_config net rege host) host
      ≡ some (
          endpoint_at (codes "https") api_version2 host tls
          ∷ endpoint_at (codes "http") api_version2 host tls
          ∷ endpoint_at (codes "https") api_version1 host tls
          ∷ endpoint_at (codes "http") api_version1 host tls
          ∷ [])
unfolding service_config
service_config-insecure net store rege host insecure no_cidr not_docker not_index =
    let options : ServiceOptions = record {
      mirrors = [];
      insecure_registries = host ∷ [];
      v2_only = false;
    } in
    rw insecure (
      lookup_pull_endpoints-insecure net store (new_service_config net options) host not_docker
        not_index (is_secure_index_options net host no_cidr options (inl refl) not_docker).0
        (new_service_config-v2_only net options))
