-- ===== src/ImageSync/Satisfied.antt =====
-- Targets for which no registry can help: those that name no version.
-- About pkg/imagesync/worker.go.
use deviced.Base.{List, [], ◌∷◌, some, true, false, Bytes, ◌≡◌, ◌∙◌, refl, arith}
use deviced.Base.Assoc.{lookup_or}
use deviced.Arch.{append_arch_tag_suffix}
use deviced.Arch.Laws.{append_arch_tag_suffix-map}
use deviced.ImageSync.Better.{best_available_same}
use deviced.Config.Repository.{RemoteRepository}
use deviced.Config.Target.{TargetContainer, max_uint16, version_index, container_version_score}
use deviced.Docker.{History, Daemon}
use deviced.ImageSync.State.{ImageToFetch, Registries, Progress}
use deviced.ImageSync.Needed.{best_available, is_satisfied, tags_to_fetch, image_to_fetch}
use deviced.ImageSync.Query.{query_image}
use deviced.ImageSync.Fetches.{query_image-target}
use deviced.ImageSync.Pull.{pull_tags, is_unsolved, pull_image}

module _ (goarch : Bytes) (ctr : TargetContainer) (none_given : ctr.versions ≡ []) where
  no_versions : append_arch_tag_suffix goarch ctr.versions ≡ []
  no_versions = append_arch_tag_suffix-map goarch ctr.versions ∙ rw none_given

  worst_score : (v : Bytes) → container_version_score goarch ctr v ≡ max_uint16
  unfolding container_version_score
  worst_score v = rw no_versions (unfold version_index in refl)

  no_best :
      (locals : List Bytes) → best_available goarch ctr locals [] max_uint16 ≡ ([], max_uint16)
  no_best [] = unfold best_available in refl
  no_best (t ∷ locals) =
      best_available_same goarch ctr t locals [] max_uint16 (rw worst_score) ∙ no_best locals

  no_tags : tags_to_fetch goarch ctr ([], max_uint16) ≡ some []
  unfolding tags_to_fetch
  no_tags = rw no_versions

not_satisfied :
    (goarch : Bytes) (ctr : TargetContainer)
    → ctr.use_any_version ≡ true
    → is_satisfied goarch ctr max_uint16 ≡ false
unfolding is_satisfied
not_satisfied goarch ctr any = ground arith

-- A target that takes any version and names none is asked for without a tag: whatever tags the
-- registries turn out to have for its image, none is pulled, and the worker counts the target as
-- unsolved.
pub any_version_never_pulled :
    (goarch : Bytes) (image_map : List (Bytes × List Bytes)) (ctr : TargetContainer) (d : Daemon)
    (r : Registries) (rege : RemoteRepository) (host : Bytes)
    (available : List (Bytes × List RemoteRepository)) (h : History) (p : Progress)
    → ctr.versions ≡ []
    → ctr.use_any_version ≡ true
    → (tf : ImageToFetch) × (image_to_fetch goarch image_map ctr ≡ some (tf ∷ []))
      × (pull_image d (record tf { available_at = available }) p
          ≡ record p { unsolved_reqs = true })
      × (pull_image d (query_image r rege host (record tf { available_at = available }) h).0 p
          ≡ record p { unsolved_reqs = true })
unfolding image_to_fetch
any_version_never_pulled goarch image_map ctr d r rege host available h p none_given any =
    let tf : ImageToFetch = record {
      fetch_any = ctr.use_any_version;
      needed_tags = [];
      available_at = [];
      target = ctr;
    } in
    let asked = record tf { available_at = available } in
    let (same_tags, _) = query_image-target r [] [] [] [] rege host asked h in
    (
      tf,
      rw (
        no_best goarch ctr none_given (lookup_or ctr.image [] image_map),
        not_satisfied goarch ctr any,
        image_to_fetch,
        no_tags goarch ctr none_given,
      ),
      tagless asked p refl,
      tagless (query_image r rege host asked h).0 p same_tags,
    )
  where
    tagless :
        (some_image : ImageToFetch) (q : Progress)
        → some_image.needed_tags ≡ []
        → pull_image d some_image q ≡ record q { unsolved_reqs = true }
    tagless some_image q e = unfold pull_image pull_tags is_unsolved in rw (e, pull_tags) refl
