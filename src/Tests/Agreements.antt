-- ===== src/Tests/Agreements.antt =====
-- Both workers, on the device of the fixtures: v1 runs, and v3 and v2 were fetched.
use deviced.Base.{
  ◌≤◌, ◌<◌, length, List, [], ◌∷◌, some, Bytes, codes, Elem, ◌≡◌, refl, arith, inl, inr,
}
use deviced.Base.Assoc.{lookup, lookup_or, insert}
use deviced.Arch.{append_arch_tag_suffix, get_arch_tag_suffix, append_suffix}
use deviced.Images.{
  build_image_map, add_images, add_repo_tags, add_repo_tag, parse_image_and_tag, image_and_tag,
}
use deviced.Config.Target.{container_version_score, version_index, max_uint16}
use deviced.ImageSync.Needed.{best_available, tags_to_fetch, slice_to}
use deviced.ContainerSync.State.{empty_plan}
use deviced.ContainerSync.Choose.{decide_running}
use deviced.ContainerSync.Selection.{IsUpgrade, replacement}
use deviced.Agreement.{fetched_tag_replaces}
use deviced.Tests.Fixtures.{amd64, app, old_app, running_old, local_images}

abbrev fetched : List Bytes
fetched = codes "v3" ∷ codes "v2" ∷ []

v1_asks :
    tags_to_fetch amd64 app (best_available amd64 app (codes "v1" ∷ []) [] max_uint16)
    ≡ some fetched
unfolding tags_to_fetch best_available slice_to container_version_score append_arch_tag_suffix
    version_index get_arch_tag_suffix append_suffix
v1_asks = refl

v1_score : 2 ≡ container_version_score amd64 app (codes "v1")
unfolding container_version_score append_arch_tag_suffix version_index get_arch_tag_suffix
    append_suffix
v1_score = refl

v3_is_allowed : container_version_score amd64 app (codes "v3") ≤ 1000
unfolding container_version_score append_arch_tag_suffix version_index get_arch_tag_suffix
    append_suffix
v3_is_allowed = omega arith

v3_is_local : Elem (codes "v3") (lookup_or app.image [] (build_image_map local_images))
unfolding lookup_or lookup build_image_map parse_image_and_tag insert add_images add_repo_tags
    add_repo_tag image_and_tag
v3_is_local = inr (inl refl)

few_versions : length (append_arch_tag_suffix amd64 app.versions) ≤ max_uint16
unfolding append_arch_tag_suffix get_arch_tag_suffix append_suffix
few_versions = omega arith

fetched_tag_replaces_example :
    (container_version_score amd64 app (codes "v3") < 2)
    × ((avail : Bytes) × Elem avail (lookup_or app.image [] (build_image_map local_images))
        × IsUpgrade amd64 app running_old avail
        × (decide_running amd64 (λ n. 7) (build_image_map local_images) app running_old empty_plan
            ≡ some (replacement amd64 (λ n. 7) app empty_plan old_app avail)))
fetched_tag_replaces_example =
    fetched_tag_replaces amd64 app few_versions (λ n. 7) (codes "v1" ∷ []) fetched running_old
      old_app (codes "v3") (build_image_map local_images) empty_plan ((λ e. cc), tt) v1_asks
      (inl refl) (inl refl) v1_score refl (inr v3_is_allowed) v3_is_local
