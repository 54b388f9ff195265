-- ===== src/Images/Plain.antt =====
-- The images and tags of the map hold no colon.
-- About pkg/utils/images.go.
use deviced.Base.{
  ℕ, ◌≢◌, prepend, split, ◌==◌, List, [], ◌∷◌, Bytes, codes, contains, All, Elem, Lacks, arith, beq,
  beq→eq, inl, inr, Bool-cases,
}
use deviced.Base.Assoc.{lookup_or}
use deviced.Images.{ImageSummary, image_and_tag, parse_image_and_tag, build_image_map}
use deviced.Images.Laws.{tags_of, all_repo_tags, lookup-build_image_map}

prepend-AllLacks :
    (sep c : ℕ) (ps : List Bytes) → c ≢ sep → All (Lacks sep) ps → All (Lacks sep) (prepend c ps)
prepend-AllLacks sep c [] n a = ((n, tt), tt)
prepend-AllLacks sep c (p ∷ ps) n (h, a) = ((n, h), a)

split-AllLacks : (sep : ℕ) (s : Bytes) → All (Lacks sep) (split sep s)
split-AllLacks sep [] = (tt, tt)
split-AllLacks sep (c ∷ s) = elim (Bool-cases (c == sep)) [
  | inl e ↦ rw e (tt, split-AllLacks sep s)
  | inr e ↦ rw e (prepend-AllLacks sep c (split sep s) (ground arith) (split-AllLacks sep s))
]

latest-Lacks : Lacks b':' (codes "latest")
latest-Lacks = grind arith

image_and_tag-Lacks :
    (ps : List Bytes)
    → All (Lacks b':') ps
    → Lacks b':' (image_and_tag ps).0 × Lacks b':' (image_and_tag ps).1
unfolding image_and_tag
image_and_tag-Lacks [] a = (tt, latest-Lacks)
image_and_tag-Lacks (p ∷ []) (h, _) = (h, latest-Lacks)
image_and_tag-Lacks (p ∷ q ∷ ps) (h, (k, _)) = (h, k)

tags_of-Lacks :
    (image tag : Bytes) (ts : List Bytes)
    → Elem tag (tags_of image ts)
    → Lacks b':' image × Lacks b':' tag
unfolding tags_of parse_image_and_tag
tags_of-Lacks image tag [] m = elim m [ ]
tags_of-Lacks image tag (t ∷ ts) m = elim (Bool-cases (contains (codes "<none>") t)) [
  | inl y ↦ tags_of-Lacks image tag ts (rw y at m)
  | inr n ↦ elim (Bool-cases (beq (parse_image_and_tag t).0 image)) [
    | inr k ↦ tags_of-Lacks image tag ts (rw (n, k) at m)
    | inl e ↦
        let (h, k) = image_and_tag-Lacks (split b':' t) (split-AllLacks b':' t) in
        elim (rw (n, e) at m) [
          | inl same ↦ (rw (← beq→eq (parse_image_and_tag t).0 image e) h, rw (← same) k)
          | inr later ↦ tags_of-Lacks image tag ts later
        ]
  ]
]

-- An image that has a tag in the map holds no colon, nor does the tag.
pub build_image_map-Lacks :
    (images : List ImageSummary) (image tag : Bytes)
    → Elem tag (lookup_or image [] (build_image_map images))
    → Lacks b':' image × Lacks b':' tag
build_image_map-Lacks images image tag m =
    tags_of-Lacks image tag (all_repo_tags images) (rw (lookup-build_image_map image images) at m)
