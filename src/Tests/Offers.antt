-- ===== src/Tests/Offers.antt =====
-- A device with the versions v1 and v2, and a registry that has v3.
use deviced.Base.{
  suc, List, [], ◌∷◌, some, true, false, Bytes, codes, ◌≡◌, refl, inl, inr, arith, All,
}
use deviced.Base.Assoc.{lookup_or}
use deviced.Images.{build_image_map}
use deviced.Config.Target.{max_uint16}
use deviced.Config.Repository.{RemoteRepository, auth_of}
use deviced.Config.Document.{DevicedConfig}
use deviced.Docker.{Call, Daemon, History}
use deviced.Registry.Certs.{ClientTls}
use deviced.Registry.Service.{
  ApiEndpoint, lookup_pull_endpoints, ApiVersion, api_version2, api_version1,
}
use deviced.Registry.Ping.{Header}
use deviced.Distribution.{Connection, token_and_basic}
use deviced.ImageSync.State.{Registries, ImageToFetch}
use deviced.ImageSync.Needed.{images_to_fetch, best_available, tags_to_fetch, is_satisfied}
use deviced.ImageSync.Query.{library_image, service_config, connect}
use deviced.ImageSync.Pass.{finished, process_repo, process_once}
use deviced.ImageSync.Total.{IsSmall}
use deviced.ImageSync.Accepted.{PulledUpTo}
use deviced.ImageSync.Tracked.{Serves}
use deviced.ImageSync.Rounds.{after_rounds, PulledInRounds}
use deviced.ImageSync.Offered.{before_round, process_once_pulls_offered}
use deviced.Tests.Fixtures.{amd64, app, docker, registry, device, registries}
use deviced.Tests.Calm.{old_images}

abbrev old_docker : Daemon
old_docker = record docker { on_image_list = λ h. some old_images }

-- The repository's URL has this host.
abbrev mirror : Registries
mirror = record registries { url_host = λ url. some (codes "mirror") }

abbrev mirror_tls : ClientTls
mirror_tls = record {
  insecure_skip_verify = false;
  root_cas = [];
  certificates = codes "a.cert" ∷ [];
}

abbrev mirror_endpoint : ApiVersion → ApiEndpoint
mirror_endpoint version = record {
  mirror = false;
  url = record {
    scheme = codes "https";
    host = codes "mirror";
    path = [];
    raw_query = [];
    fragment = [];
  };
  version = version;
  official = false;
  trim_hostname = true;
  tls_config = mirror_tls;
}

abbrev mirror_endpoints : List ApiEndpoint
mirror_endpoints = mirror_endpoint api_version2 ∷ mirror_endpoint api_version1 ∷ []

abbrev mirror_connection : Connection
mirror_connection = record {
  name = codes "shop/app";
  url = codes "mirror";
  tls_config = mirror_tls;
  headers = [];
  challenges = codes "realm";
  authorizer = token_and_basic (auth_of registry) (codes "shop/app") (codes "pull" ∷ []);
}

mirror_connects :
    (h : History)
    → connect mirror registry (codes "shop/app") mirror_endpoints h ≡ (
      some mirror_connection,
      Call.registry_connect registry.url (mirror_endpoint api_version2) (codes "shop/app") ∷ h,
    )
unfolding connect deviced.ImageSync.Query.connect_to deviced.Distribution.new_v2_repository
    deviced.Distribution.open_repository deviced.Distribution.authorizer_of
    deviced.Registry.Ping.docker_headers deviced.Registry.Ping.found_v2
    deviced.Registry.Ping.read_response deviced.Registry.Ping.ping_url
    deviced.Registry.Ping.ping_v2_registry auth_of
mirror_connects h = refl

mirror_looked_up :
    lookup_pull_endpoints mirror.net mirror.certs
      (service_config mirror.net registry (codes "mirror"))
      (codes "mirror")
    ≡ some mirror_endpoints
unfolding lookup_pull_endpoints deviced.Registry.Service.lookup_endpoints
    deviced.Registry.Service.lookup_v2_endpoints deviced.Registry.Service.version_endpoints
    deviced.Registry.Service.tls_config_of deviced.Registry.Certs.new_tls_config
    deviced.Registry.Config.is_secure_index deviced.Base.Assoc.lookup service_config
    deviced.Registry.Config.new_service_config deviced.Registry.Config.add_public_index
    deviced.Base.Assoc.insert deviced.Registry.Config.add_all_insecure
    deviced.Registry.Config.add_insecure deviced.Registry.Config.some_in_net
    deviced.Registry.Config.host_addresses deviced.Registry.Certs.read_certs_directory
    deviced.Registry.Certs.add_cert_file deviced.Registry.Certs.add_cert_files
    deviced.Registry.Certs.add_listing deviced.Registry.Certs.add_pair
    deviced.Registry.Certs.add_root deviced.Registry.Certs.cert_of_key
    deviced.Registry.Certs.check_key deviced.Registry.Certs.has_file
    deviced.Registry.Certs.key_of_cert deviced.Registry.Config.host_of_index
    deviced.Registry.Config.in_some_net deviced.Registry.Service.docker_endpoints
    deviced.Registry.Service.host_endpoints deviced.Registry.Service.lookup_v1_endpoints
    deviced.Registry.Service.mirror_endpoint deviced.Registry.Service.mirror_with_scheme
mirror_looked_up = refl

mirror-Serves : Serves mirror registry (codes "mirror") (library_image app.image) (codes "v3")
unfolding library_image
mirror-Serves = record {
  name = codes "shop/app";
  named = refl;
  endpoints = mirror_endpoints;
  looked_up = mirror_looked_up;
  answers = λ h. (
    mirror_connection,
    Call.registry_connect registry.url (mirror_endpoint api_version2) (codes "shop/app") ∷ h,
    codes "v3" ∷ [],
    mirror_connects h,
    refl,
    inl refl,
  );
}

IsSmall-old : All (IsSmall amd64 (build_image_map old_images)) device.containers
unfolding lookup_or deviced.Base.Assoc.lookup deviced.Images.add_images deviced.Images.add_repo_tags
    deviced.Images.add_repo_tag deviced.Base.Assoc.insert deviced.Images.parse_image_and_tag
    deviced.Images.image_and_tag build_image_map deviced.Arch.append_arch_tag_suffix
    deviced.Arch.get_arch_tag_suffix deviced.Arch.append_suffix
IsSmall-old = ((omega arith, ((λ e. ground arith), ((λ e. ground arith), tt))), tt)

app_needs :
    let best =
      best_available amd64 app
        (lookup_or app.image [] (build_image_map old_images))
        []
        max_uint16 in
    (is_satisfied amd64 app best.1 ≡ false)
    × (tags_to_fetch amd64 app best ≡ some (codes "v3" ∷ []))
unfolding lookup_or deviced.Base.Assoc.lookup deviced.Images.add_images deviced.Images.add_repo_tags
    deviced.Images.add_repo_tag deviced.Base.Assoc.insert deviced.Images.parse_image_and_tag
    deviced.Images.image_and_tag build_image_map deviced.Arch.append_arch_tag_suffix
    deviced.Arch.get_arch_tag_suffix deviced.Arch.append_suffix best_available is_satisfied
    tags_to_fetch deviced.ImageSync.Needed.slice_to deviced.Config.Target.container_version_score
    deviced.Config.Target.version_index
app_needs = (refl, refl)

-- Two repositories at the host: the second round pulls again.
abbrev second : RemoteRepository
second = record registry { pull_prefix = codes "second" }

abbrev two_repos : DevicedConfig
two_repos = record device { repos = registry ∷ second ∷ [] }

process_once_pulls_offered_example :
    (tfs : List ImageToFetch) × (images_to_fetch amd64 (build_image_map old_images) (app ∷ [])
      ≡ some tfs)
    × (let (tfs', p) = before_round old_docker mirror amd64 two_repos [] [] tfs in
        (process_once old_docker mirror amd64 two_repos []
          ≡ finished (after_rounds old_docker mirror (registry ∷ second ∷ []) tfs' p).1)
        × PulledUpTo
            (library_image app.image)
            (codes "v3" ∷ [])
            (codes "v3")
            p.history
            (process_repo old_docker mirror registry tfs' p).1.history
        × PulledInRounds old_docker mirror
            (library_image app.image)
            (codes "v3" ∷ [])
            (codes "v3")
            (second ∷ [])
            (process_repo old_docker mirror registry tfs' p).0
            (process_repo old_docker mirror registry tfs' p).1)
process_once_pulls_offered_example =
    process_once_pulls_offered old_docker mirror amd64 two_repos [] {images = old_images} app
      (codes "v3" ∷ []) (codes "v3") registry (codes "mirror") [] (second ∷ []) (λ h name. refl)
      (λ h source goal. refl) (λ h. refl) refl IsSmall-old (inl refl) app_needs.0 app_needs.1
      (inl refl) refl refl mirror-Serves
