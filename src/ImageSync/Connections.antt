-- ===== src/ImageSync/Connections.antt =====
-- Which repositories of a registry the image worker talks to, and how.
-- About pkg/imagesync/worker.go, pkg/distribution/registry.go and pkg/registry/auth.go.
use deviced.Base.{
  List, [], ◌∷◌, ◌++◌, none, some, Bool, Bytes, codes, ◌≡◌, ◌⊎◌, refl, ap, sym, Bool-cases,
  Option-cases, inl, inr, Elem, All-Elem, arith,
}
use deviced.Config.Repository.{RemoteRepository, auth_of}
use deviced.Docker.{Call, History}
use deviced.Registry.Service.{ApiEndpoint, lookup_pull_endpoints}
use deviced.Registry.Plain.{PlainIsInsecure, lookup_pull_endpoints-plain}
use deviced.Registry.Ping.{
  HttpLibrary, Header, Response, PingError, PingResult, pinged, ping_failed, read_response,
  ping_url, ping_v2_registry, docker_headers,
}
use deviced.Distribution.{
  Connection, ConnectResult, connected, refused, FallbackError, token_and_basic, authorizer_of,
  open_repository, new_v2_repository,
}
use deviced.ImageSync.State.{ImageToFetch, Registries}
use deviced.ImageSync.Query.{
  library_image, add_tags, service_config, connect_to, connect, fetch_tags, query_image,
}

read_response-pinged :
    (resp : Response) {manager : Bytes} {found : Bool}
    → read_response resp ≡ pinged manager found
    → resp.challenges ≡ some manager
unfolding read_response
read_response-pinged resp {manager} {found} e = ground arith

PingResult-cases :
    (p : PingResult)
    → ((err : PingError) × (f : Bool) × (p ≡ ping_failed err f))
      ⊎ ((m : Bytes) × (f : Bool) × (p ≡ pinged m f))
PingResult-cases (ping_failed err f) = inl (err, f, refl)
PingResult-cases (pinged m f) = inr (m, f, refl)

connected-inj : {c d : Connection} {f g : Bool} → connected c f ≡ connected d g → c ≡ d
connected-inj e = cc

open_repository-connected :
    (lib : HttpLibrary) (a : Connection) (f : Bool) {c : Connection} {found : Bool}
    → open_repository lib a f ≡ connected c found
    → (name : Bytes) × (lib.parse_named a.name ≡ some name) × (c ≡ record a { name = name })
unfolding open_repository
open_repository-connected lib a f {c} {found} e = elim (Option-cases (lib.parse_named a.name)) [
  | inl n ↦ let x = (rw (n, open_repository) at e) in absurd (cc)
  | inr (name, q) ↦ elim (Bool-cases (lib.new_repository name a.url)) [
    | inl y ↦ (name, q, sym (connected-inj (rw (q, open_repository, y) at e)))
    | inr y ↦ let x = (rw (q, open_repository, y) at e) in absurd (cc)
  ]
]

module _ (r : Registries) (rege : RemoteRepository) where
  -- The connection is to the endpoint, which has answered a ping with challenges that were
  -- understood. Its requests go to the endpoint's URL with the endpoint's TLS settings and the
  -- repository's headers, and are authorized by the repository's name and password, to pull this image.
  pub record IsConnectionTo (name : Bytes) (endp : ApiEndpoint) (h : History) (c : Connection)
      : Type 0 where
    pub repository : r.lib.parse_named name ≡ some c.name
    pub to_url : c.url ≡ r.lib.url_string endp.url
    pub with_tls : c.tls_config ≡ endp.tls_config
    pub with_headers : c.headers ≡ rege.meta_headers
    pub authorized : c.authorizer ≡ token_and_basic (auth_of rege) name (codes "pull" ∷ [])
    pub answered :
        (resp : Response) × (r.transport h endp.tls_config rege.meta_headers (ping_url r.lib endp)
          ≡ some resp)
        × (resp.challenges ≡ some c.challenges)

  ping_answer :
      (endp : ApiEndpoint) (h : History) (headers : Header) {manager : Bytes} {found : Bool}
      → ping_v2_registry r.lib (r.transport h) headers endp ≡ pinged manager found
      → (resp : Response) × (r.transport h endp.tls_config headers (ping_url r.lib endp)
          ≡ some resp)
        × (resp.challenges ≡ some manager)
  unfolding ping_v2_registry
  ping_answer endp h headers {manager} {found} e =
      elim (Bool-cases (r.lib.new_request (ping_url r.lib endp))) [
        | inr n ↦ let x = (rw n at e) in absurd (cc)
        | inl y ↦
            elim (Option-cases (r.transport h endp.tls_config headers (ping_url r.lib endp))) [
              | inl n ↦ let x = (rw (y, n, ping_v2_registry) at e) in absurd (cc)
              | inr (resp, q) ↦
                  (resp, q, read_response-pinged resp (rw (y, q, ping_v2_registry) at e))
            ]
      ]

  connect_to-IsConnectionTo :
      (name : Bytes) (endp : ApiEndpoint) (h : History) {c : Connection} {found : Bool}
      → connect_to r rege name endp h ≡ connected c found
      → IsConnectionTo name endp h c
  unfolding connect_to new_v2_repository docker_headers authorizer_of auth_of
  connect_to-IsConnectionTo name endp h {c} {found} e =
      elim (PingResult-cases (ping_v2_registry r.lib (r.transport h) rege.meta_headers endp)) [
        | inl (err, f, q) ↦ let x = (rw (q, new_v2_repository) at e) in absurd (cc)
        | inr (m, f, q) ↦
            let (parsed, named, same) =
              open_repository-connected r.lib _ f (rw (q, new_v2_repository) at e) in
            rw same (record {
              repository = named;
              to_url = refl;
              with_tls = refl;
              with_headers = refl;
              authorized = refl;
              answered = ping_answer endp h rege.meta_headers q;
            })
      ]

  pub ConnectResult-cases :
      (p : ConnectResult)
      → ((err : FallbackError) × (f : Bool) × (p ≡ refused err f))
        ⊎ ((c : Connection) × (f : Bool) × (p ≡ connected c f))
  ConnectResult-cases (refused err f) = inl (err, f, refl)
  ConnectResult-cases (connected c f) = inr (c, f, refl)

  -- The endpoints were tried in turn, and each refused.
  pub data Tried (name : Bytes) : History → List ApiEndpoint → History → Type 0 where
    none_tried : {h : History} → Tried name h [] h
    tried :
        {es : List ApiEndpoint} {h h' : History} {endp : ApiEndpoint} (err : FallbackError)
        (f : Bool)
        → connect_to r rege name endp h ≡ refused err f
        → Tried name (Call.registry_connect rege.url endp name ∷ h) es h'
        → Tried name h (endp ∷ es) h'

  -- The worker tries the endpoints in turn. Either each refuses, and it has no connection; or it has
  -- one to an endpoint before which each has refused.
  pub connect_first :
      (name : Bytes) (endpoints : List ApiEndpoint) (h : History)
      → ((h' : History) × Tried name h endpoints h'
          × (connect r rege name endpoints h ≡ (none, h')))
        ⊎ ((before : List ApiEndpoint) × (endp : ApiEndpoint) × (after : List ApiEndpoint)
            × (h' : History) × (c : Connection) × (endpoints ≡ before ++ (endp ∷ after))
            × Tried name h before h'
            × IsConnectionTo name endp h' c
            × (connect r rege name endpoints h
                ≡ (some c, Call.registry_connect rege.url endp name ∷ h')))
  unfolding connect
  connect_first name [] h = inl (h, none_tried, refl)
  connect_first name (endp ∷ endpoints) h =
      let h1 = Call.registry_connect rege.url endp name ∷ h in
      elim (ConnectResult-cases (connect_to r rege name endp h)) [
        | inr (c, f, q) ↦ inr (
          [],
          endp,
          endpoints,
          h,
          c,
          refl,
          none_tried,
          connect_to-IsConnectionTo name endp h q,
          rw (q, connect),
        )
        | inl (err, f, q) ↦ elim (connect_first name endpoints h1) [
          | inl (h', t, e) ↦ inl (h', tried err f q t, rw (q, connect) e)
          | inr (before, e1, after, h', c, s, t, i, e) ↦ inr (
            endp ∷ before,
            e1,
            after,
            h',
            c,
            ap (λ es. endp ∷ es) s,
            tried err f q t,
            i,
            rw (q, connect) e,
          )
        ]
      ]

  Elem-middle :
      (before : List ApiEndpoint) (e : ApiEndpoint) (after : List ApiEndpoint)
      → Elem e (before ++ (e ∷ after))
  Elem-middle [] e after = inl refl
  Elem-middle (b ∷ before) e after = inr (Elem-middle before e after)

  -- What the worker learns of an image at a registry: nothing, or the tags that a repository listed
  -- which was reached at one of the host's endpoints.
  abbrev pub Learns : Bytes → ImageToFetch → ImageToFetch × History → Type 0
  Learns host tf after =
      let config = service_config r.net rege host in
      (after.0.available_at ≡ tf.available_at)
      ⊎ ((name : Bytes) × (endp : ApiEndpoint) × (endpoints : List ApiEndpoint) × (h' : History)
          × (c : Connection) × (tags : List Bytes) × (r.lib.parse_named
                (library_image tf.target.image)
              ≡ some name)
          × (lookup_pull_endpoints r.net r.certs config host ≡ some endpoints)
          × Elem endp endpoints
          × PlainIsInsecure r.net r.certs config host endp
          × IsConnectionTo name endp h' c
          × (r.on_tags (Call.registry_connect rege.url endp name ∷ h') c ≡ some tags)
          × (after.0.available_at ≡ add_tags rege tags tf.available_at))

  -- At each registry the worker learns nothing new of an image, or it records the tags that a
  -- repository lists. This is the repository of the image's name, with "library/" in front of a name
  -- without a slash, at an endpoint of the registry's host that answered a ping and was understood; it is
  -- asked with the endpoint's TLS settings and the headers and credentials that the configuration
  -- gives for the registry. Plain http is used only for a host that is taken as insecure, or a mirror.
  pub query_image-Learns :
      (host : Bytes) (tf : ImageToFetch) (h : History)
      → Learns host tf (query_image r rege host tf h)
  unfolding query_image fetch_tags
  query_image-Learns host tf h =
      let image = library_image tf.target.image in
      let config = service_config r.net rege host in
      elim (Option-cases (r.lib.parse_named image)) [
        | inl n ↦ rw (n, query_image) (inl refl)
        | inr (name, p) ↦ elim (Option-cases (lookup_pull_endpoints r.net r.certs config host)) [
          | inl n ↦ rw (p, query_image, n, query_image) (inl refl)
          | inr (endpoints, l) ↦ elim (connect_first name endpoints h) [
            | inl (h', _, e) ↦ rw (p, query_image, l, query_image, e, fetch_tags) (inl refl)
            | inr (before, endp, after, h', c, s, _, i, e) ↦
                elim (Option-cases (r.on_tags (Call.registry_connect rege.url endp name ∷ h') c)) [
                  | inl n ↦
                      rw (p, query_image, l, query_image, e, fetch_tags, n, fetch_tags) (inl refl)
                  | inr (tags, t) ↦
                      let there : Elem endp endpoints = rw s (Elem-middle before endp after) in
                      let plain =
                        All-Elem (PlainIsInsecure r.net r.certs config host) endpoints endp
                          (lookup_pull_endpoints-plain r.net r.certs config host l) there in
                      rw (p, query_image, l, query_image, e, fetch_tags, t, fetch_tags)
                        (inr (
                          name, endp, endpoints, h', c, tags, refl, refl, there, plain, i, t, refl,
                        ))
                ]
          ]
        ]
      ]
