-- ===== src/Tests/Unlisted.antt =====
-- The device of the fixtures, where Docker does not list the containers.
use deviced.Base.{ℕ, [], none, true, false, Bytes, codes, ◌≡◌, refl, inl, Elem}
use deviced.Base.Assoc.{lookup_or, lookup, insert}
use deviced.Images.{
  build_image_map, parse_image_and_tag, image_and_tag, add_images, add_repo_tags, add_repo_tag,
}
use deviced.Arch.{append_arch_tag_suffix, append_suffix, get_arch_tag_suffix}
use deviced.Config.Target.{container_version_score, version_index}
use deviced.Docker.{Call, History}
use deviced.Docker.Made.{IsMadeBetween, AreMadeBetween}
use deviced.ContainerSync.Choose.{is_acceptable, zero_container, candidate, create_config}
use deviced.ContainerSync.Pass.{Env, finished, process_once, sleep_should_quit}
use deviced.ContainerSync.SelfDeletion.{Spares}
use deviced.ContainerSync.Blind.{process_once_blind}
use deviced.Tests.Fixtures.{amd64, app, local_images, docker, env, device}

abbrev blind_env : Env
blind_env = record env { daemon = record docker { on_container_list = λ h. none } }

v2_there : Elem (codes "v2") (lookup_or app.image [] (build_image_map local_images))
unfolding lookup_or lookup build_image_map parse_image_and_tag image_and_tag insert add_images
    add_repo_tags add_repo_tag
v2_there = inl refl

v2_acceptable : is_acceptable amd64 app false zero_container (codes "v2") ≡ true
unfolding is_acceptable container_version_score append_arch_tag_suffix version_index append_suffix
    get_arch_tag_suffix
v2_acceptable = refl

process_once_blind_example :
    (h' : History) × (process_once blind_env device [] ≡ finished h')
    × AreMadeBetween (Spares (codes "c2")) [] h'
    × ((avail : Bytes) × (n : ℕ) × Elem avail
          (lookup_or app.image [] (build_image_map local_images))
        × IsMadeBetween
            (Call.container_create (create_config amd64 (λ n. 7) app (candidate amd64 app avail) n))
            []
            h')
process_once_blind_example =
    process_once_blind blind_env device (tt, tt) refl [] {images = local_images} (codes "c2") app
      (codes "v2") refl refl (unfold sleep_should_quit in refl) refl (inl refl) refl v2_there
      v2_acceptable
