-- ===== src/Images/Laws.antt =====
-- Parsing of names with tags, and the image map beside the list of all tags.
-- About pkg/utils/images.go.
use deviced.Base.{
  ℕ, ◌≢◌, prepend, split, ◌==◌, List, [], ◌∷◌, ◌++◌, append_assoc, append-nil, Bytes, codes,
  contains, if◌then◌else◌, ◌≡◌, refl, sym, ap, Lacks, split_of_Lacks, split-append, arith, beq,
  beq→eq, inl, inr, Bool-cases,
}
use deviced.Base.Assoc.{lookup, lookup_or, insert, lookup-insert}
use deviced.Images.{
  ImageSummary, image_and_tag, parse_image_and_tag, add_repo_tag, add_repo_tags, add_images,
  build_image_map,
}

-- The first part of a split text has no separator.
split_first_Lacks : (sep : ℕ) (s : Bytes) → Lacks sep (image_and_tag (split sep s)).0
unfolding image_and_tag
split_first_Lacks sep s = rw (first_image (split sep s)) (first_split s)
  where
    first : List Bytes → Bytes
    first [] = []
    first (p ∷ ps) = p

    first_image : (ps : List Bytes) → (image_and_tag ps).0 ≡ first ps
    first_image [] = refl
    first_image (p ∷ []) = refl
    first_image (p ∷ q ∷ ps) = refl

    first_prepend :
        (c : ℕ) (ps : List Bytes)
        → c ≢ sep
        → Lacks sep (first ps)
        → Lacks sep (first (prepend c ps))
    first_prepend c [] n h = (n, tt)
    first_prepend c (p ∷ ps) n h = (n, h)

    first_split : (t : Bytes) → Lacks sep (first (split sep t))
    first_split [] = tt
    first_split (c ∷ t) = elim (Bool-cases (c == sep)) [
      | inl e ↦ rw e tt
      | inr e ↦ rw e (first_prepend c (split sep t) (ground arith) (first_split t))
    ]

-- The image that is read from a text never holds a colon.
pub parse_image_and_tag-Lacks : (s : Bytes) → Lacks b':' (parse_image_and_tag s).0
unfolding parse_image_and_tag
parse_image_and_tag-Lacks s = split_first_Lacks b':' s

-- A name and a tag without colons, joined by one, are read back.
pub parse_image_and_tag-join :
    (image tag : Bytes)
    → Lacks b':' image
    → Lacks b':' tag
    → parse_image_and_tag (image ++ (b':' ∷ tag)) ≡ (image, tag)
unfolding parse_image_and_tag
parse_image_and_tag-join image tag hi ht =
    rw (split-append b':' image tag hi, split_of_Lacks b':' tag ht)

-- A name without a colon has the tag "latest".
pub parse_image_and_tag_default :
    (image : Bytes) → Lacks b':' image → parse_image_and_tag image ≡ (image, codes "latest")
unfolding parse_image_and_tag
parse_image_and_tag_default image h = rw (split_of_Lacks b':' image h)

-- A registry with a port in front of the image: the host is taken for the image, and the port with
-- the path for the tag, whatever the real tag is.
pub parse_image_and_tag_port :
    (host path tag : Bytes)
    → Lacks b':' host
    → Lacks b':' path
    → parse_image_and_tag (host ++ (b':' ∷ (path ++ (b':' ∷ tag)))) ≡ (host, path)
unfolding parse_image_and_tag
parse_image_and_tag_port host path tag hh hp =
    rw (split-append b':' host _ hh, split-append b':' path tag hp)

-- The tags that a list of `image:tag` texts has for one image, in their order.
unfoldable pub tags_of : Bytes → List Bytes → List Bytes
tags_of image [] = []
tags_of image (t ∷ ts) =
    let rest = tags_of image ts in
    if contains (codes "<none>") t
    then rest
    else if beq (parse_image_and_tag t).0 image
    then (parse_image_and_tag t).1 ∷ rest
    else rest

-- All texts that Docker lists.
unfoldable pub all_repo_tags : List ImageSummary → List Bytes
all_repo_tags [] = []
all_repo_tags (img ∷ images) = img.repo_tags ++ all_repo_tags images

lookup_or-insert :
    (k j : Bytes) (v d : List Bytes) (m : List (Bytes × List Bytes))
    → lookup_or j d (insert k v m) ≡ (if beq k j then v else lookup_or j d m)
unfolding lookup_or
lookup_or-insert k j v d m = elim (Bool-cases (beq k j)) [
  | inl e ↦ rw (lookup-insert, e)
  | inr e ↦ rw (lookup-insert, e)
]

tags_of-append :
    (image : Bytes) (ts us : List Bytes)
    → tags_of image (ts ++ us) ≡ tags_of image ts ++ tags_of image us
unfolding tags_of
tags_of-append image [] us = refl
tags_of-append image (t ∷ ts) us = ground (arith, tags_of-append image ts us)

lookup_or-add_repo_tag :
    (image t : Bytes) (m : List (Bytes × List Bytes))
    → lookup_or image [] (add_repo_tag m t) ≡ lookup_or image [] m ++ tags_of image (t ∷ [])
unfolding add_repo_tag tags_of
lookup_or-add_repo_tag image t m =
    let (i, v) = parse_image_and_tag t in
    ground (
      arith,
      append-nil (lookup_or image [] m),
      beq→eq i image,
      lookup_or-insert i image (lookup_or i [] m ++ (v ∷ [])) [] m,
    )

lookup_or-add_repo_tags :
    (image : Bytes) (m : List (Bytes × List Bytes)) (ts : List Bytes)
    → lookup_or image [] (add_repo_tags m ts) ≡ lookup_or image [] m ++ tags_of image ts
unfolding add_repo_tags
lookup_or-add_repo_tags image m [] = unfold tags_of in sym (append-nil _)
lookup_or-add_repo_tags image m (t ∷ ts) =
    rw
      (
        lookup_or-add_repo_tags image (add_repo_tag m t) ts,
        lookup_or-add_repo_tag image t m,
        append_assoc,
      )
      (ap (λ r. lookup_or image [] m ++ r) (sym (tags_of-append image (t ∷ []) ts)))

lookup_or-add_images :
    (image : Bytes) (m : List (Bytes × List Bytes)) (images : List ImageSummary)
    → lookup_or image [] (add_images m images)
      ≡ lookup_or image [] m ++ tags_of image (all_repo_tags images)
unfolding add_images all_repo_tags
lookup_or-add_images image m [] = unfold tags_of in sym (append-nil _)
lookup_or-add_images image m (img ∷ images) =
    rw
      (
        lookup_or-add_images image (add_repo_tags m img.repo_tags) images,
        lookup_or-add_repo_tags image m,
        append_assoc,
      )
      (ap (λ r. lookup_or image [] m ++ r) (sym (tags_of-append image img.repo_tags _)))

-- The map gives for every image the tags that Docker lists for it, in Docker's order and with
-- repetitions, leaves out what holds "<none>", and is empty for every other image.
pub lookup-build_image_map :
    (image : Bytes) (images : List ImageSummary)
    → lookup_or image [] (build_image_map images) ≡ tags_of image (all_repo_tags images)
unfolding build_image_map
lookup-build_image_map image images =
    unfold lookup_or lookup in lookup_or-add_images image [] images
