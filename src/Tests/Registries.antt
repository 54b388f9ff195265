-- ===== src/Tests/Registries.antt =====
-- Registries and their endpoints.
use deviced.Base.{List, [], ◌∷◌, some, true, false, Bytes, codes, All, ◌≡◌, refl, arith, inl}
use deviced.Registry.Config.{
  ServiceOptions, ServiceConfig, index_name, new_service_config, is_secure_index,
}
use deviced.Registry.Service.{
  ApiEndpoint, api_version1, api_version2, endpoint_at, lookup_pull_endpoints,
}
use deviced.Registry.Insecure.{is_secure_index_options, lookup_pull_endpoints-insecure}
use deviced.Registry.Plain.{PlainIsInsecure, lookup_pull_endpoints-plain}
use deviced.Tests.Fixtures.{net, certs}

abbrev mirror_host : Bytes
mirror_host = codes "mirror:5000"

abbrev options : ServiceOptions
options = record { mirrors = []; insecure_registries = mirror_host ∷ []; v2_only = false }

abbrev config : ServiceConfig
config = new_service_config net options

abbrev four_endpoints : List ApiEndpoint
four_endpoints =
    endpoint_at (codes "https") api_version2 mirror_host
      (record (certs.server_default) { insecure_skip_verify = true })
    ∷ endpoint_at (codes "http") api_version2 mirror_host
        (record (certs.server_default) { insecure_skip_verify = true })
    ∷ endpoint_at (codes "https") api_version1 mirror_host
        (record (certs.server_default) { insecure_skip_verify = true })
    ∷ endpoint_at (codes "http") api_version1 mirror_host
        (record (certs.server_default) { insecure_skip_verify = true })
    ∷ []

endpoints_found : lookup_pull_endpoints net certs config mirror_host ≡ some four_endpoints
unfolding deviced.Registry.Config.add_public_index deviced.Registry.Config.add_all_insecure
    deviced.Registry.Config.add_insecure
endpoints_found =
    lookup_pull_endpoints-insecure net certs config mirror_host (λ e. ground arith)
      (λ e. ground arith)
      (is_secure_index_options net mirror_host refl options (inl refl) (λ e. ground arith)).0
      (unfold new_service_config in refl)

lookup_pull_endpoints-insecure_example :
    lookup_pull_endpoints net certs config mirror_host ≡ some four_endpoints
unfolding deviced.Registry.Config.add_public_index deviced.Registry.Config.add_all_insecure
    deviced.Registry.Config.add_insecure
lookup_pull_endpoints-insecure_example =
    lookup_pull_endpoints-insecure net certs config mirror_host (λ e. ground arith)
      (λ e. ground arith)
      (is_secure_index_options net mirror_host refl options (inl refl) (λ e. ground arith)).0
      (unfold new_service_config in refl)

lookup_pull_endpoints-plain_example :
    All (PlainIsInsecure net certs config mirror_host) four_endpoints
lookup_pull_endpoints-plain_example =
    lookup_pull_endpoints-plain net certs config mirror_host endpoints_found
