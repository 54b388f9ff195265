-- ===== src/ImageSync/Needed.antt =====
-- pkg/imagesync/worker.go, the first loop of `processOnce`: which tags are better than the best
-- local one.
use deviced.Base.{
  ℕ, List, [], ◌∷◌, ◌++◌, Option, none, some, Bool, not, ◌&&◌, ◌||◌, Bytes, is_empty, ltb, ◌==◌,
  if◌then◌else◌, length, take,
}
use deviced.Base.Assoc.{lookup_or}
use deviced.Arch.{append_arch_tag_suffix}
use deviced.Config.Target.{TargetContainer, container_version_score, max_uint16}
use deviced.ImageSync.State.{ImageToFetch}

module _ (goarch : Bytes) where
  -- The loop over the available tags: the best one so far, and its score.
  unfoldable pub best_available : TargetContainer → List Bytes → Bytes → ℕ → Bytes × ℕ
  best_available ctr [] best score = (best, score)
  best_available ctr (avail ∷ tags) best score =
      let s = container_version_score goarch ctr avail in
      best_available ctr tags (if ltb s score then avail else best)
        (if ltb s score then s else score)

  -- `versionList[:n]`; `none` is the panic of a bound past the end.
  unfoldable pub slice_to : ℕ → List Bytes → Option (List Bytes)
  slice_to n versions = if ltb (length versions) n then none else some (take n versions)

  unfoldable pub tags_to_fetch : TargetContainer → Bytes × ℕ → Option (List Bytes)
  unfolding slice_to
  tags_to_fetch ctr (best, score) =
      let versions = append_arch_tag_suffix goarch ctr.versions in
      if is_empty best then some versions else slice_to score versions

  -- `bestAvailableScore == 0 || (len(ctr.Versions) == 0 && !ctr.UseAnyVersion)`
  unfoldable pub is_satisfied : TargetContainer → ℕ → Bool
  is_satisfied ctr score = score == 0 || (length ctr.versions == 0 && not ctr.use_any_version)

  -- The body of the loop over the targets: what it appends, or a panic.
  unfoldable pub image_to_fetch :
      List (Bytes × List Bytes) → TargetContainer → Option (List ImageToFetch)
  image_to_fetch image_map ctr =
      let best = best_available ctr (lookup_or ctr.image [] image_map) [] max_uint16 in
      if is_satisfied ctr best.1 then some [] else elim (tags_to_fetch ctr best) [
        | none ↦ none
        | some tags ↦ some (
            record {
              fetch_any = ctr.use_any_version;
              needed_tags = tags;
              available_at = [];
              target = ctr;
            }
            ∷ [])
      ]

  unfoldable pub images_to_fetch :
      List (Bytes × List Bytes) → List TargetContainer → Option (List ImageToFetch)
  images_to_fetch image_map [] = some []
  images_to_fetch image_map (ctr ∷ ctrs) = elim (image_to_fetch image_map ctr) [
    | none ↦ none
    | some tfs ↦ elim (images_to_fetch image_map ctrs) [
      | none ↦ none
      | some rest ↦ some (tfs ++ rest)
    ]
  ]
