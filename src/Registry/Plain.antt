-- ===== src/Registry/Plain.antt =====
-- Which endpoints are reached without TLS, and which are pushed to.
-- About pkg/registry.
use deviced.Base.{
  List, [], ◌∷◌, Option, none, some, Bool, true, false, not, ◌||◌, Bytes, codes, beq, All,
  All-append, Elem, ◌≡◌, ◌↔◌, refl, sym, ap, arith, Bool-cases, Option-cases, inl, inr,
}
use deviced.Registry.Config.{Net, ServiceConfig, index_name, is_secure_index}
use deviced.Registry.Certs.{
  ClientTls, CertStore, Listing, missing, unreadable, entries, add_listing, add_cert_files,
  read_certs_directory, new_tls_config, HasPartner, add_cert_files-partner,
}
use deviced.Registry.Service.{
  ApiEndpoint, ApiVersion, api_version1, api_version2, default_v1_host, host_endpoints,
  tls_config_of, mirror_endpoint, docker_endpoints, mirror_with_scheme, version_endpoints,
  lookup_v2_endpoints, lookup_v1_endpoints, lookup_endpoints, lookup_pull_endpoints, drop_mirrors,
  lookup_push_endpoints,
}

-- Reading the directory of certificates leaves alone whether certificates are verified, and fails
-- unless every certificate in it has its key and every key its certificate.
read_certs_directory-partner :
    (store : CertStore) (tls : ClientTls) (directory : Bytes) (files : List Bytes)
    {after : ClientTls}
    → store.read_dir directory ≡ entries files
    → read_certs_directory store tls directory ≡ some after
    → (after.insecure_skip_verify ≡ tls.insecure_skip_verify) × All (HasPartner files) files
unfolding read_certs_directory
read_certs_directory-partner store tls directory files {after} listed e =
    let read : add_cert_files store directory files files tls ≡ some after =
      unfold add_listing in rw listed at e in
    add_cert_files-partner store directory files files tls read

add_listing-flag :
    (store : CertStore) (directory : Bytes) (l : Listing) (tls : ClientTls) {after : ClientTls}
    → add_listing store directory l tls ≡ some after
    → after.insecure_skip_verify ≡ tls.insecure_skip_verify
unfolding add_listing
add_listing-flag store directory missing tls {after} e = ground arith
add_listing-flag store directory unreadable tls {after} e = ground arith
add_listing-flag store directory (entries files) tls {after} e =
    (add_cert_files-partner store directory files files tls e).0

new_tls_config-flag :
    (store : CertStore) (hostname : Bytes) (secure : Bool) {tls : ClientTls}
    → new_tls_config store hostname secure ≡ some tls
    → tls.insecure_skip_verify ≡ not secure
unfolding new_tls_config read_certs_directory
new_tls_config-flag store hostname true e =
    add_listing-flag store (store.join_path _ hostname) _ _ e
new_tls_config-flag store hostname false {tls} e = ground arith

module _ (net : Net) (store : CertStore) (config : ServiceConfig) (hostname : Bytes) where
  -- An endpoint that is no mirror and is reached by `http` belongs to the host, which is insecure, and
  -- its certificates are not verified.
  abbrev pub PlainIsInsecure : ApiEndpoint → Type 0
  PlainIsInsecure e =
      e.mirror ≡ false
      → e.url.scheme ≡ codes "http"
      → (e.url.host ≡ hostname)
        × (e.tls_config.insecure_skip_verify ≡ true)
        × (is_secure_index net config hostname ≡ false)

  abbrev OnSome : Option (List ApiEndpoint) → Type 0
  OnSome none = Unit
  OnSome (some es) = All PlainIsInsecure es

  docker_endpoints-Plain :
      (mirrors : List Bytes) → OnSome (docker_endpoints net store config mirrors)
  unfolding docker_endpoints mirror_endpoint
  docker_endpoints-Plain [] = ((λ m p. absurd (ground arith)), tt)
  docker_endpoints-Plain (m ∷ ms) =
      let rest = docker_endpoints-Plain ms in
      elim (Option-cases (net.parse_url (mirror_with_scheme m))) [
        | inl e ↦ rw (e, docker_endpoints) tt
        | inr (url, e) ↦ elim (Option-cases (tls_config_of net store config url.host)) [
          | inl f ↦ rw (e, docker_endpoints, f, docker_endpoints) tt
          | inr (tls, f) ↦ elim (Option-cases (docker_endpoints net store config ms)) [
            | inl g ↦ rw (e, docker_endpoints, f, docker_endpoints, g, docker_endpoints) tt
            | inr (es, g) ↦
                rw (e, docker_endpoints, f, docker_endpoints, g, docker_endpoints)
                  ((λ n p. absurd (ground arith)), (rw g at rest))
          ]
        ]
      ]

  version_endpoints-Plain :
      (version : ApiVersion) → OnSome (version_endpoints net store config version hostname)
  unfolding version_endpoints host_endpoints tls_config_of
  version_endpoints-Plain version =
      let secure = is_secure_index net config hostname in
      elim (Option-cases (new_tls_config store hostname secure)) [
        | inl e ↦ rw (e, version_endpoints) tt
        | inr (tls, e) ↦ elim (Bool-cases tls.insecure_skip_verify) [
          | inl skip ↦
              let flag = new_tls_config-flag store hostname secure e in
              rw (e, version_endpoints, skip)
                ((λ m p. absurd (ground arith)), ((λ m p. (refl, refl, ground arith)), tt))
          | inr verify ↦ rw (e, version_endpoints, verify) ((λ m p. absurd (ground arith)), tt)
        ]
      ]

  lookup_v2_endpoints-Plain : OnSome (lookup_v2_endpoints net store config hostname)
  unfolding lookup_v2_endpoints
  lookup_v2_endpoints-Plain =
      elim (Bool-cases (beq hostname index_name || beq hostname default_v1_host)) [
        | inl e ↦ rw e (docker_endpoints-Plain config.mirrors)
        | inr e ↦ rw e (version_endpoints-Plain api_version2)
      ]

  lookup_v1_endpoints-Plain : OnSome (lookup_v1_endpoints net store config hostname)
  unfolding lookup_v1_endpoints
  lookup_v1_endpoints-Plain = elim (Bool-cases (beq hostname index_name)) [
    | inl e ↦ rw e ((λ m p. absurd (ground arith)), tt)
    | inr e ↦ rw e (version_endpoints-Plain api_version1)
  ]

  lookup_endpoints-Plain : OnSome (lookup_endpoints net store config hostname)
  unfolding lookup_endpoints is_secure_index lookup_v1_endpoints version_endpoints tls_config_of
  lookup_endpoints-Plain = elim (Option-cases (lookup_v2_endpoints net store config hostname)) [
    | inl e ↦ rw (e, lookup_endpoints) tt
    | inr (es, e) ↦
        let first = (rw e at lookup_v2_endpoints-Plain) in
        elim (Bool-cases config.v2_only) [
          | inl v ↦ rw (e, lookup_endpoints, v) first
          | inr v ↦ elim (Option-cases (lookup_v1_endpoints net store config hostname)) [
            | inl f ↦ rw (e, lookup_endpoints, v, f, lookup_endpoints) tt
            | inr (fs, f) ↦
                rw (e, lookup_endpoints, v, f, lookup_endpoints)
                  (All-append PlainIsInsecure es fs first (rw f at lookup_v1_endpoints-Plain))
          ]
        ]
  ]

  -- Of the endpoints to pull from, those that are no mirrors use plain http only for a host that the
  -- configuration takes as insecure, and then without the verification of certificates.
  pub lookup_pull_endpoints-plain :
      {es : List ApiEndpoint}
      → lookup_pull_endpoints net store config hostname ≡ some es
      → All PlainIsInsecure es
  unfolding lookup_pull_endpoints
  lookup_pull_endpoints-plain e = (rw e at lookup_endpoints-Plain)

drop_mirrors-Elem :
    (e : ApiEndpoint) (es : List ApiEndpoint)
    → Elem e (drop_mirrors es) ↔ (Elem e es × (e.mirror ≡ false))
unfolding drop_mirrors
drop_mirrors-Elem e [] = ((λ m. elim m [ ]), (λ (m, _). elim m [ ]))
drop_mirrors-Elem e (x ∷ es) = elim (Bool-cases x.mirror) [
  | inl y ↦ rw y (
    (λ m. let (i, n) = (drop_mirrors-Elem e es).0 m in (inr i, n)),
    (λ (m, n). elim m [
      | inl q ↦ absurd (ground (arith, ap (λ (a : ApiEndpoint). a.mirror) q))
      | inr i ↦ (drop_mirrors-Elem e es).1 (i, n)
    ]),
  )
  | inr n ↦ rw n (
    (λ m. elim m [
      | inl q ↦ (inl q, ap (λ (a : ApiEndpoint). a.mirror) (sym q))
      | inr i ↦ let (j, z) = (drop_mirrors-Elem e es).0 i in (inr j, z)
    ]),
    (λ (m, z). elim m [ inl q ↦ inl q | inr i ↦ inr ((drop_mirrors-Elem e es).1 (i, z)) ]),
  )
]

-- The endpoints to push to are those to pull from without the mirrors.
pub lookup_push_endpoints-Elem :
    (net : Net) (store : CertStore) (config : ServiceConfig) (hostname : Bytes)
    {pull : List ApiEndpoint}
    → lookup_pull_endpoints net store config hostname ≡ some pull
    → (push : List ApiEndpoint) × (lookup_push_endpoints net store config hostname ≡ some push)
      × ((e : ApiEndpoint) → Elem e push ↔ (Elem e pull × (e.mirror ≡ false)))
unfolding lookup_push_endpoints lookup_pull_endpoints
lookup_push_endpoints-Elem net store config hostname {pull} h =
    (drop_mirrors pull, rw (h, lookup_push_endpoints), λ e. drop_mirrors-Elem e pull)
