-- ===== src/Tests/Images.antt =====
-- The image worker on the device of the fixtures.
use deviced.Base.{
  List, [], ◌∷◌, some, true, false, Bytes, codes, take, All, Elem, ◌≡◌, ◌⊎◌, ◌↔◌, refl, arith,
}
use deviced.Base.Assoc.{lookup_or}
use deviced.Arch.{append_arch_tag_suffix}
use deviced.Config.Target.{TargetContainer, max_uint16}
use deviced.Config.Target.Score.{Differs, FirstAt}
use deviced.Images.{build_image_map}
use deviced.ImageSync.State.{ImageToFetch, Progress}
use deviced.ImageSync.Needed.{best_available, tags_to_fetch, image_to_fetch}
use deviced.Config.Repository.{RemoteRepository}
use deviced.ImageSync.Query.{query_image}
use deviced.ImageSync.Pull.{pull_image, pull_tag}
use deviced.ImageSync.Pass.{progress_of, process_once}
use deviced.ImageSync.Better.{tags_to_fetch_better}
use deviced.ImageSync.Pulls.{Extends}
use deviced.ImageSync.Solved.{pull_image_solved}
use deviced.ImageSync.Satisfied.{any_version_never_pulled}
use deviced.ImageSync.RepoPulls.{IsPassPull}
use deviced.ImageSync.PassPulls.{local_images_at, process_once-Extends}
use deviced.Tests.Fixtures.{amd64, app, local_images, docker, registry, device, registries}

abbrev locals : List Bytes
locals = codes "v2" ∷ codes "v1" ∷ []

tags_to_fetch_better_example :
    (tags : List Bytes) × (tags_to_fetch amd64 app (best_available amd64 app locals [] max_uint16)
      ≡ some tags)
    × All (λ t. All (Differs t) tags) locals
    × ((tags ≡ append_arch_tag_suffix amd64 app.versions)
        ⊎ (Elem (best_available amd64 app locals [] max_uint16).0 locals
            × FirstAt
                (best_available amd64 app locals [] max_uint16).0
                (append_arch_tag_suffix amd64 app.versions)
                (best_available amd64 app locals [] max_uint16).1
            × (tags
                ≡ take
                    (best_available amd64 app locals [] max_uint16).1
                    (append_arch_tag_suffix amd64 app.versions))))
tags_to_fetch_better_example =
    tags_to_fetch_better amd64 app locals (unfold append_arch_tag_suffix in omega arith)
      ((λ e. ground arith), ((λ e. ground arith), tt))

abbrev wanted : ImageToFetch
wanted = record {
  fetch_any = false;
  needed_tags = codes "v3" ∷ [];
  available_at = (codes "v3", registry ∷ []) ∷ [];
  target = app;
}

abbrev start : Progress
start = record { unsolved_reqs = false; trigger = false; history = [] }

pull_image_solved_example : ((pull_image docker wanted start).unsolved_reqs ≡ false) ↔ (
    (tag : Bytes) × (rest : List Bytes) × (wanted.needed_tags ≡ tag ∷ rest)
    × ((pull_tag docker (lookup_or tag [] wanted.available_at) wanted.target.image tag start).0
        ≡ true))
pull_image_solved_example = pull_image_solved docker wanted start refl

abbrev any_app : TargetContainer
any_app = record app { versions = []; use_any_version = true }

abbrev offered_v1 : List (Bytes × List RemoteRepository)
offered_v1 = (codes "v1", registry ∷ []) ∷ []

any_version_never_pulled_example :
    (tf : ImageToFetch) × (image_to_fetch amd64 (build_image_map local_images) any_app
      ≡ some (tf ∷ []))
    × (pull_image docker (record tf { available_at = offered_v1 }) start
        ≡ record start { unsolved_reqs = true })
    × (pull_image docker
          (query_image registries registry
            (codes "mirror")
            (record tf { available_at = offered_v1 })
            []).0
          start
        ≡ record start { unsolved_reqs = true })
any_version_never_pulled_example =
    any_version_never_pulled amd64 (build_image_map local_images) any_app docker registries registry
      (codes "mirror") offered_v1 [] start refl refl

process_once-Extends_example :
    Extends
      (IsPassPull docker registries amd64
        (local_images_at docker [])
        device.repos
        device.containers)
      []
      (progress_of (process_once docker registries amd64 device [])).history
process_once-Extends_example = process_once-Extends docker registries amd64 device []
