-- ===== src/Tests/Calm.antt =====
-- A device that has what its configuration wants: version v2 runs, and v3 is not there.
use deviced.Base.{List, [], ◌∷◌, some, codes, ◌≡◌, refl, inl, inr}
use deviced.Base.Assoc.{lookup_or, lookup, insert}
use deviced.Images.{
  ImageSummary, build_image_map, parse_image_and_tag, image_and_tag, add_images, add_repo_tags,
  add_repo_tag,
}
use deviced.Arch.{append_arch_tag_suffix, append_suffix, get_arch_tag_suffix}
use deviced.Config.Target.{container_version_score, version_index}
use deviced.ContainerSync.Choose.{is_acceptable}
use deviced.Docker.{ApiContainer, Call, Daemon}
use deviced.Config.Document.{DevicedConfig}
use deviced.ContainerSync.Match.{matching_target, is_dead, build_running_container, score_of}
use deviced.ContainerSync.Networks.{add_networks}
use deviced.ContainerSync.Pass.{Env, finished, process_once}
use deviced.ContainerSync.Placed.{IsPlaced}
use deviced.ContainerSync.Settled.{IsSettled}
use deviced.ContainerSync.Quiet.{process_once_quiet}
use deviced.Tests.Fixtures.{amd64, app, labelled, bridge, docker, env, device}

abbrev second_app : ApiContainer
second_app = labelled (codes "c2") (codes "app") (codes "shop/app:v2")

abbrev pub old_images : List ImageSummary
old_images = record { repo_tags = codes "shop/app:v1" ∷ codes "shop/app:v2" ∷ [] } ∷ []

abbrev calm_docker : Daemon
calm_docker = record docker {
  on_container_list = λ h. some (second_app ∷ []);
  on_image_list = λ h. some old_images;
}

abbrev calm_env : Env
calm_env = record env { daemon = calm_docker }

abbrev pub calm_device : DevicedConfig
calm_device = record device {
  networks = record { name = codes "bridge"; network_create = [] } ∷ [];
}

second_app-IsPlaced : IsPlaced amd64 calm_device.containers (second_app, app)
unfolding matching_target is_dead lookup_or lookup
second_app-IsPlaced = (refl, refl)

app-IsSettled : IsSettled amd64 (build_image_map old_images) ((second_app, app) ∷ []) app
unfolding lookup_or lookup build_image_map is_acceptable build_running_container score_of
    container_version_score append_arch_tag_suffix version_index parse_image_and_tag insert
    add_images add_repo_tags add_repo_tag image_and_tag get_arch_tag_suffix append_suffix
app-IsSettled = inl ((second_app, app), inl refl, refl, inr (refl, (refl, tt)))

pub bridge-listed : lookup (codes "bridge") (add_networks [] (bridge ∷ [])) ≡ some bridge
unfolding add_networks lookup insert
bridge-listed = refl

process_once_quiet_example :
    process_once calm_env calm_device []
    ≡ finished (Call.image_list ∷ Call.container_list ∷ Call.network_list ∷ [])
process_once_quiet_example =
    process_once_quiet calm_env calm_device ((second_app, app) ∷ []) [] refl refl refl refl
      (inr (bridge, bridge-listed), tt) refl refl (refl, tt) (second_app-IsPlaced, tt) (tt, tt)
      (app-IsSettled, tt)
