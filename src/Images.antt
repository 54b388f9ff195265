-- ===== src/Images.antt =====
-- pkg/utils/images.go: image names with tags, and the map from an image to its local tags.
pub mod Laws
pub mod Plain
use deviced.Base.{
  List, [], ◌∷◌, ◌++◌, Option, none, some, Bool, true, false, Bytes, codes, contains, split,
  if◌then◌else◌,
}
use deviced.Base.Assoc.{lookup, lookup_or, insert}

-- What the program reads of Docker's `ImageSummary`.
pub record ImageSummary : Type 0 where
  pub repo_tags : List Bytes

-- `imagePts[0]`, and `imagePts[1]` or "latest". `strings.Split` returns one part at least.
unfoldable pub image_and_tag : List Bytes → Bytes × Bytes
image_and_tag [] = ([], codes "latest")
image_and_tag (image ∷ []) = (image, codes "latest")
image_and_tag (image ∷ tag ∷ rest) = (image, tag)

unfoldable pub parse_image_and_tag : Bytes → Bytes × Bytes
unfolding image_and_tag
parse_image_and_tag imagestr = image_and_tag (split b':' imagestr)

-- The body of the inner loop.
unfoldable pub add_repo_tag : List (Bytes × List Bytes) → Bytes → List (Bytes × List Bytes)
add_repo_tag available tagfull =
    let (image, tag) = parse_image_and_tag tagfull in
    if contains (codes "<none>") tagfull
    then available
    else insert image (lookup_or image [] available ++ (tag ∷ [])) available

unfoldable pub add_repo_tags : List (Bytes × List Bytes) → List Bytes → List (Bytes × List Bytes)
add_repo_tags available [] = available
add_repo_tags available (tagfull ∷ tags) = add_repo_tags (add_repo_tag available tagfull) tags

unfoldable pub add_images :
    List (Bytes × List Bytes) → List ImageSummary → List (Bytes × List Bytes)
add_images available [] = available
add_images available (img ∷ images) = add_images (add_repo_tags available img.repo_tags) images

unfoldable pub build_image_map : List ImageSummary → List (Bytes × List Bytes)
build_image_map images = add_images [] images
