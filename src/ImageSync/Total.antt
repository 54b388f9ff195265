-- ===== src/ImageSync/Total.antt =====
-- When a pass of the image worker slices no list out of its bounds.
-- About pkg/imagesync/worker.go.
use deviced.Base.{
  ◌≤◌, List, [], ◌∷◌, ◌++◌, some, Bytes, length, ◌≡◌, ◌≢◌, refl, inl, inr, All, Bool-cases,
}
use deviced.Base.Assoc.{lookup_or}
use deviced.Arch.{append_arch_tag_suffix}
use deviced.Config.Target.{TargetContainer, max_uint16}
use deviced.ImageSync.State.{ImageToFetch}
use deviced.ImageSync.Needed.{best_available, is_satisfied, image_to_fetch, images_to_fetch}
use deviced.ImageSync.Better.{tags_to_fetch_better}

-- The target has no more versions than there are scores, and its local tags are not empty.
abbrev pub IsSmall : Bytes → List (Bytes × List Bytes) → TargetContainer → Type 0
IsSmall goarch image_map ctr =
    (length (append_arch_tag_suffix goarch ctr.versions) ≤ max_uint16)
    × All (λ t. t ≢ []) (lookup_or ctr.image [] image_map)

module _ (goarch : Bytes) (image_map : List (Bytes × List Bytes)) where
  pub image_to_fetch_total :
      (ctr : TargetContainer)
      → IsSmall goarch image_map ctr
      → (tfs : List ImageToFetch) × (image_to_fetch goarch image_map ctr ≡ some tfs)
  unfolding image_to_fetch
  image_to_fetch_total ctr (few, named) =
      let locals = lookup_or ctr.image [] image_map in
      let best = best_available goarch ctr locals [] max_uint16 in
      elim (Bool-cases (is_satisfied goarch ctr best.1)) [
        | inl y ↦ ([], rw y)
        | inr n ↦
            let (tags, e, _, _) = tags_to_fetch_better goarch ctr locals few named in
            (
              record {
                fetch_any = ctr.use_any_version;
                needed_tags = tags;
                available_at = [];
                target = ctr;
              }
                  ∷ [],
              rw (n, e, image_to_fetch),
            )
      ]

  pub images_to_fetch_total :
      (ctrs : List TargetContainer)
      → All (IsSmall goarch image_map) ctrs
      → (tfs : List ImageToFetch) × (images_to_fetch goarch image_map ctrs ≡ some tfs)
  unfolding images_to_fetch
  images_to_fetch_total [] a = ([], refl)
  images_to_fetch_total (ctr ∷ ctrs) (s, a) =
      let (first, e) = image_to_fetch_total ctr s in
      let (rest, f) = images_to_fetch_total ctrs a in
      (first ++ rest, rw (e, images_to_fetch, f, images_to_fetch))
