-- ===== src/Tests/Connections.antt =====
-- A registry that answers, and the image of the fixtures there.
use deviced.Base.{[], ◌∷◌, none, some, codes, false, List, ◌++◌, ◌≡◌, ◌⊎◌}
use deviced.Docker.{Call, History}
use deviced.Registry.Service.{ApiEndpoint, api_version2, endpoint_at}
use deviced.Distribution.{Connection}
use deviced.ImageSync.State.{ImageToFetch}
use deviced.ImageSync.Query.{connect, query_image}
use deviced.ImageSync.Connections.{IsConnectionTo, Tried, Learns, connect_first, query_image-Learns}
use deviced.Tests.Fixtures.{app, registry, registries, certs}

abbrev sought : ImageToFetch
sought = record {
  fetch_any = false;
  needed_tags = codes "v3" ∷ [];
  available_at = [];
  target = app;
}

query_image-Learns_example :
    Learns registries registry
      (codes "mirror")
      sought
      (query_image registries registry (codes "mirror") sought [])
query_image-Learns_example = query_image-Learns registries registry (codes "mirror") sought []

abbrev secure : ApiEndpoint
secure = endpoint_at (codes "https") api_version2 (codes "mirror") certs.server_default

connect_first_example :
    ((h' : History) × Tried registries registry (codes "shop/app") [] (secure ∷ []) h'
      × (connect registries registry (codes "shop/app") (secure ∷ []) [] ≡ (none, h')))
    ⊎ ((before : List ApiEndpoint) × (endp : ApiEndpoint) × (after : List ApiEndpoint)
        × (h' : History) × (c : Connection) × (secure ∷ [] ≡ before ++ (endp ∷ after))
        × Tried registries registry (codes "shop/app") [] before h'
        × IsConnectionTo registries registry (codes "shop/app") endp h' c
        × (connect registries registry (codes "shop/app") (secure ∷ []) []
            ≡ (some c, Call.registry_connect registry.url endp (codes "shop/app") ∷ h')))
connect_first_example = connect_first registries registry (codes "shop/app") (secure ∷ []) []
