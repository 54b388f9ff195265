-- ===== src/ImageSync/Query.antt =====
-- pkg/imagesync/worker.go: what one registry has of the images to fetch.
use deviced.Base.{
  List, [], ◌∷◌, ◌++◌, Option, none, some, false, Bytes, codes, split, join, ◌==◌, if◌then◌else◌,
  length,
}
use deviced.Base.Assoc.{lookup_or, insert}
use deviced.Config.Repository.{RemoteRepository, auth_of}
use deviced.Docker.{Call, History}
use deviced.Registry.Config.{Net, ServiceConfig, new_service_config}
use deviced.Registry.Service.{ApiEndpoint, lookup_pull_endpoints}
use deviced.Distribution.{Connection, ConnectResult, connected, refused, new_v2_repository}
use deviced.ImageSync.State.{ImageToFetch, Registries}

-- `len(imagePts) == 1` puts "library/" in front.
unfoldable pub library_image : Bytes → Bytes
library_image image =
    if length (split b'/' image) == 1 then join b'/' (codes "library" ∷ image ∷ []) else image

-- The loop over the tags that the registry lists.
unfoldable pub add_tags :
    RemoteRepository
    → List Bytes
    → List (Bytes × List RemoteRepository)
    → List (Bytes × List RemoteRepository)
add_tags rege [] available = available
add_tags rege (tag ∷ tags) available =
    add_tags rege tags (insert tag (lookup_or tag [] available ++ (rege ∷ [])) available)

-- `registry.NewService` with the host as an insecure registry, if the repository is insecure.
unfoldable pub service_config : Net → RemoteRepository → Bytes → ServiceConfig
service_config net rege host = new_service_config net (record {
  mirrors = [];
  insecure_registries = if rege.insecure then host ∷ [] else [];
  v2_only = false;
})

module _ (r : Registries) (rege : RemoteRepository) where
  open r use {net, certs, lib, transport, on_tags}

  -- `ddistro.NewV2Repository` with the repository's headers and credentials, to pull.
  unfoldable pub connect_to : Bytes → ApiEndpoint → History → ConnectResult
  connect_to name endp h =
      new_v2_repository lib (transport h) name endp rege.meta_headers (auth_of rege)
        (codes "pull" ∷ [])

  -- The loop over the endpoints, up to the first that connects.
  unfoldable pub connect : Bytes → List ApiEndpoint → History → Option Connection × History
  connect name [] h = (none, h)
  connect name (endp ∷ endpoints) h =
      let h' = Call.registry_connect rege.url endp name ∷ h in
      let later = connect name endpoints h' in
      elim (connect_to name endp h) [ connected c _ ↦ (some c, h') | refused _ _ ↦ later ]

  unfoldable pub fetch_tags :
      ImageToFetch → Bytes → Option Connection × History → ImageToFetch × History
  fetch_tags tf image (none, h) = (tf, h)
  fetch_tags tf image (some c, h) =
      let h' = Call.registry_tags rege.url image ∷ h in
      elim (on_tags h c) [
        | none ↦ (tf, h')
        | some tags ↦ (record tf { available_at = add_tags rege tags tf.available_at }, h')
      ]

  -- The body of the loop over the images, at a registry with this host.
  unfoldable pub query_image : Bytes → ImageToFetch → History → ImageToFetch × History
  query_image host tf h =
      let image = library_image tf.target.image in
      let tf' = record tf { target = record (tf.target) { image = image } } in
      elim (lib.parse_named image) [
        | none ↦ (tf', h)
        | some name ↦ elim (lookup_pull_endpoints net certs (service_config net rege host) host) [
          | none ↦ (tf', h)
          | some endpoints ↦ fetch_tags tf' image (connect name endpoints h)
        ]
      ]

  unfoldable pub query_images : Bytes → List ImageToFetch → History → List ImageToFetch × History
  query_images host [] h = ([], h)
  query_images host (tf ∷ tfs) h =
      let (tf', h') = query_image host tf h in
      let (tfs', h'') = query_images host tfs h' in (tf' ∷ tfs', h'')
