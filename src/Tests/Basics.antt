-- ===== src/Tests/Basics.antt =====
-- Versions, images and the configuration.
use deviced.Base.{[], ◌∷◌, Option, none, some, true, false, Bytes, codes, ◌≡◌, refl, arith}
use deviced.Base.Assoc.{lookup_or}
use deviced.Arch.{append_arch_tag_suffix}
use deviced.Images.{parse_image_and_tag, build_image_map}
use deviced.Images.Laws.{tags_of, all_repo_tags, parse_image_and_tag_port, lookup-build_image_map}
use deviced.Config.Target.{TargetContainer, max_uint16, container_version_score}
use deviced.Config.Client.{
  TlsConfig, LoadedTls, loaded, failed, no_endpoint, new_client, load_tls_config, build_client,
  fill_client_defaults,
}
use deviced.Config.Client.Laws.{IsPresent, build_client_tls}
use deviced.Config.Defaults.{fill_with_defaults}
use deviced.Config.File.{FileSystem, Yaml}
use deviced.Tests.Fixtures.{amd64, app, local_images, client_config, tls_files, device}

arm : append_arch_tag_suffix (codes "arm64") (codes "v1" ∷ []) ≡ codes "v1-arm" ∷ []
unfolding append_arch_tag_suffix
arm = refl

score_of_v2 : container_version_score amd64 app (codes "V2") ≡ 1
unfolding container_version_score append_arch_tag_suffix deviced.Config.Target.version_index
score_of_v2 = refl

parse_image_and_tag_port_example :
    parse_image_and_tag (codes "host:5000/app:v1") ≡ (codes "host", codes "5000/app")
parse_image_and_tag_port_example =
    parse_image_and_tag_port (codes "host") (codes "5000/app") (codes "v1") (omega arith)
      (omega arith)

lookup-build_image_map_example :
    lookup_or (codes "shop/app") [] (build_image_map local_images)
    ≡ tags_of (codes "shop/app") (all_repo_tags local_images)
lookup-build_image_map_example = lookup-build_image_map (codes "shop/app") local_images

build_client_tls_example :
    (codes "tcp://docker" ≡ codes "tcp://docker")
    × ((conf : TlsConfig) × (some (record { client_cas = codes "ca"; certificate = codes "cert" })
          ≡ some conf)
        × (load_tls_config tls_files client_config.tls_config ≡ loaded conf)
        × IsPresent tls_files (codes "ca")
        × IsPresent tls_files (codes "cert")
        × IsPresent tls_files (codes "key"))
build_client_tls_example =
    build_client_tls tls_files client_config (codes "tcp://docker")
      (some (record { client_cas = codes "ca"; certificate = codes "cert" })) refl
      (unfold build_client load_tls_config deviced.Config.Client.validate_tls
          deviced.Config.Client.validate_paths deviced.Config.Client.client_with_tls in
        refl)

-- A disk with one file, and a YAML that knows one document.
abbrev pub one_file : FileSystem (Option Bytes)
one_file = record {
  not_exist = λ path w. elim w [ none ↦ true | some d ↦ false ];
  read_file = λ path w. w;
  write_file = λ path d w. some d;
}

abbrev pub one_document : Yaml
one_document = record {
  marshal = λ c. some (codes "yaml");
  unmarshal = λ d c. (some (fill_with_defaults device), true);
}
