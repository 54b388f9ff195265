-- ===== src/Registry/Insecure.antt =====
-- Registries that the options name as insecure.
-- About pkg/registry.
use deviced.Base.{
  List, [], ◌∷◌, ◌++◌, none, some, true, false, Bytes, codes, beq, beq→eq, eq→beq, Elem,
  Any-append_left, ◌≡◌, ◌≢◌, refl, sym, ◌∙◌, Bool-cases, Option-cases, inl, inr,
}
use deviced.Base.Assoc.{lookup, lookup-insert}
use deviced.Registry.Config.{
  Net, ServiceOptions, ServiceConfig, index_name, localhost_net, insecure_index, add_insecure,
  add_all_insecure, add_public_index, new_service_config, is_secure_index,
}
use deviced.Registry.Certs.{ClientTls, CertStore, new_tls_config}
use deviced.Registry.Service.{
  ApiVersion, api_version1, api_version2, endpoint_at, default_v1_host, host_endpoints,
  tls_config_of, version_endpoints, lookup_v2_endpoints, lookup_v1_endpoints, lookup_endpoints,
  lookup_pull_endpoints,
}

module _ (net : Net) where
  add_all_insecure-v2_only :
      (rs : List Bytes) (config : ServiceConfig)
      → (add_all_insecure net rs config).v2_only ≡ config.v2_only
  unfolding add_all_insecure add_insecure
  add_all_insecure-v2_only [] config = refl
  add_all_insecure-v2_only (r ∷ rs) config =
      add_all_insecure-v2_only rs (add_insecure net r config) ∙ kept
    where
      kept : (add_insecure net r config).v2_only ≡ config.v2_only
      kept = elim (Option-cases (net.parse_cidr r)) [
        | inl e ↦ rw (e, add_insecure)
        | inr (n, e) ↦ rw (e, add_insecure)
      ]

  pub new_service_config-v2_only :
      (options : ServiceOptions) → (new_service_config net options).v2_only ≡ options.v2_only
  unfolding new_service_config add_public_index
  new_service_config-v2_only options =
      add_all_insecure-v2_only (options.insecure_registries ++ (localhost_net ∷ [])) _

module _ (net : Net) (r : Bytes) (no_cidr : net.parse_cidr r ≡ none) where
  -- The configuration has the registry as an insecure index.
  abbrev Listed : ServiceConfig → Type 0
  Listed config = lookup r config.index_configs ≡ some (insecure_index r)

  add_insecure-keeps :
      (s : Bytes) (config : ServiceConfig) → Listed config → Listed (add_insecure net s config)
  unfolding add_insecure
  add_insecure-keeps s config h = elim (Option-cases (net.parse_cidr s)) [
    | inr (n, e) ↦ rw (e, add_insecure) h
    | inl e ↦ elim (Bool-cases (beq s r)) [
      | inl q ↦ rw (e, add_insecure, lookup-insert, q, beq→eq s r q)
      | inr q ↦ rw (e, add_insecure, lookup-insert, q) h
    ]
  ]

  add_insecure-lists : (config : ServiceConfig) → Listed (add_insecure net r config)
  unfolding add_insecure
  add_insecure-lists config = rw (no_cidr, add_insecure, lookup-insert, eq→beq r r refl)

  add_all_insecure-keeps :
      (rs : List Bytes) (config : ServiceConfig)
      → Listed config
      → Listed (add_all_insecure net rs config)
  unfolding add_all_insecure
  add_all_insecure-keeps [] config h = h
  add_all_insecure-keeps (s ∷ rs) config h =
      add_all_insecure-keeps rs (add_insecure net s config) (add_insecure-keeps s config h)

  add_all_insecure-lists :
      (rs : List Bytes) (config : ServiceConfig)
      → Elem r rs
      → Listed (add_all_insecure net rs config)
  unfolding add_all_insecure
  add_all_insecure-lists [] config m = elim m [ ]
  add_all_insecure-lists (s ∷ rs) config (inl e) =
      rw e (add_all_insecure-keeps rs (add_insecure net r config) (add_insecure-lists config))
  add_all_insecure-lists (s ∷ rs) config (inr m) =
      add_all_insecure-lists rs (add_insecure net s config) m

  -- A registry that the options name as insecure, and whose name is no subnet and not Docker's index,
  -- is taken as insecure; Docker's index is taken as secure whatever the options say.
  pub is_secure_index_options :
      (options : ServiceOptions)
      → Elem r options.insecure_registries
      → r ≢ index_name
      → (is_secure_index net (new_service_config net options) r ≡ false)
        × (is_secure_index net (new_service_config net options) index_name ≡ true)
  unfolding is_secure_index new_service_config add_public_index
  is_secure_index_options options m other =
      let start : ServiceConfig = record {
        insecure_registry_cidrs = [];
        index_configs = [];
        mirrors = options.mirrors;
        v2_only = options.v2_only;
      } in
      let config =
        add_all_insecure net (options.insecure_registries ++ (localhost_net ∷ [])) start in
      let listed : Listed config =
        add_all_insecure-lists (options.insecure_registries ++ (localhost_net ∷ [])) start
          (Any-append_left (λ x. x ≡ r) options.insecure_registries (localhost_net ∷ []) m) in
      (
        elim (Bool-cases (beq index_name r)) [
          | inl q ↦ absurd (other (sym (beq→eq index_name r q)))
          | inr q ↦ rw (lookup-insert, q, listed, is_secure_index)
        ],
        rw (lookup-insert, is_secure_index),
      )

module _ (net : Net) (store : CertStore) (config : ServiceConfig) (hostname : Bytes)
    (not_docker : hostname ≢ index_name) (not_index : hostname ≢ default_v1_host) where
  not_beq : (name : Bytes) → hostname ≢ name → beq hostname name ≡ false
  not_beq name ne = elim (Bool-cases (beq hostname name)) [
    | inl e ↦ absurd (ne (beq→eq hostname name e))
    | inr e ↦ e
  ]

  abbrev unverified : ClientTls
  unverified = record (store.server_default) { insecure_skip_verify = true }

  version_endpoints-insecure :
      (version : ApiVersion)
      → is_secure_index net config hostname ≡ false
      → version_endpoints net store config version hostname
        ≡ some (
            endpoint_at (codes "https") version hostname unverified
            ∷ endpoint_at (codes "http") version hostname unverified
            ∷ [])
  unfolding version_endpoints tls_config_of new_tls_config host_endpoints
  version_endpoints-insecure version insecure = rw (insecure, version_endpoints)

  -- A host that is not Docker's and is taken as insecure has four endpoints, in this order: version 2
  -- by https and by http, and version 1 by https and by http; none of them verifies certificates, and
  -- no directory of certificates is read.
  pub lookup_pull_endpoints-insecure :
      is_secure_index net config hostname ≡ false
      → config.v2_only ≡ false
      → lookup_pull_endpoints net store config hostname
        ≡ some (
            endpoint_at (codes "https") api_version2 hostname unverified
            ∷ endpoint_at (codes "http") api_version2 hostname unverified
            ∷ endpoint_at (codes "https") api_version1 hostname unverified
            ∷ endpoint_at (codes "http") api_version1 hostname unverified
            ∷ [])
  unfolding lookup_pull_endpoints lookup_endpoints lookup_v1_endpoints version_endpoints
      tls_config_of new_tls_config is_secure_index
  lookup_pull_endpoints-insecure insecure both =
      let v2 : lookup_v2_endpoints net store config hostname
          ≡ version_endpoints net store config api_version2 hostname =
        unfold lookup_v2_endpoints in
        rw (not_beq index_name not_docker, not_beq default_v1_host not_index) in
      let v1 : lookup_v1_endpoints net store config hostname
          ≡ version_endpoints net store config api_version1 hostname =
        unfold lookup_v1_endpoints in rw (not_beq index_name not_docker) in
      rw (
        v2 ∙ version_endpoints-insecure api_version2 insecure,
        lookup_endpoints,
        both,
        v1 ∙ version_endpoints-insecure api_version1 insecure,
      )
