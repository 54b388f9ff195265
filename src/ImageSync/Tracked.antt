-- ===== src/ImageSync/Tracked.antt =====
-- An image to fetch over the rounds of a pass, and what a registry adds to it.
-- About pkg/imagesync/worker.go.
use deviced.Base.{
  List, [], ◌∷◌, ◌++◌, Option, Option-cases, some, none, Bytes, beq, ◌≡◌, refl, ◌∙◌, ap, Elem,
  Bool-cases, inl, inr, ◌⊎◌,
}
use deviced.Base.Assoc.{lookup_or, insert, lookup-insert, lookup-insert_self}
use deviced.Config.Repository.{RemoteRepository}
use deviced.Docker.{History}
use deviced.Registry.Service.{ApiEndpoint, lookup_pull_endpoints}
use deviced.Distribution.{Connection}
use deviced.ImageSync.State.{ImageToFetch, Registries}
use deviced.ImageSync.Query.{
  library_image, add_tags, service_config, connect, fetch_tags, query_image, query_images,
}
use deviced.ImageSync.Fetches.{library_image_twice, query_image-target}
use deviced.ImageSync.Accepted.{IsOffered}

-- The repository, at its host, has a connection for the image whenever it is asked, and then lists the tag.
pub record Serves (r : Registries) (rege : RemoteRepository) (host image tag : Bytes) : Type 0 where
  pub name : Bytes
  pub named : r.lib.parse_named image ≡ some name
  pub endpoints : List ApiEndpoint
  pub looked_up :
      lookup_pull_endpoints r.net r.certs (service_config r.net rege host) host ≡ some endpoints
  pub answers :
      (h : History)
      → (c : Connection) × (h' : History) × (tags : List Bytes) × (connect r rege name endpoints h
          ≡ (some c, h'))
        × (r.on_tags h' c ≡ some tags)
        × Elem tag tags

-- The image to fetch is that of the image, with these needed tags.
abbrev pub IsFor : Bytes → List Bytes → ImageToFetch → Type 0
IsFor image tags tf = (tf.needed_tags ≡ tags) × (library_image tf.target.image ≡ image)

abbrev IsSome : Bytes → List (Bytes × List RemoteRepository) → Type 0
IsSome tag m =
    (reg : RemoteRepository) × (rest : List RemoteRepository) × (lookup_or tag [] m ≡ reg ∷ rest)

append_some :
    (xs : List RemoteRepository) (x : RemoteRepository)
    → (reg : RemoteRepository) × (rest : List RemoteRepository) × (xs ++ (x ∷ []) ≡ reg ∷ rest)
append_some [] x = (x, [], refl)
append_some (y ∷ ys) x = (y, ys ++ (x ∷ []), refl)

insert-IsSome :
    (rege : RemoteRepository) (k tag : Bytes) (m : List (Bytes × List RemoteRepository))
    → IsSome tag m
    → IsSome tag (insert k (lookup_or k [] m ++ (rege ∷ [])) m)
unfolding lookup_or
insert-IsSome rege k tag m (reg, rest, e) = elim (Bool-cases (beq k tag)) [
  | inl y ↦ rw (lookup-insert, y) (append_some (lookup_or k [] m) rege)
  | inr n ↦ rw (lookup-insert, n) (reg, rest, e)
]

add_tags_keeps :
    (rege : RemoteRepository) (tags : List Bytes) (tag : Bytes)
    (m : List (Bytes × List RemoteRepository))
    → IsSome tag m
    → IsSome tag (add_tags rege tags m)
unfolding add_tags
add_tags_keeps rege [] tag m s = s
add_tags_keeps rege (t ∷ ts) tag m s = add_tags_keeps rege ts tag _ (insert-IsSome rege t tag m s)

add_tags-IsSome :
    (rege : RemoteRepository) (tags : List Bytes) (tag : Bytes)
    (m : List (Bytes × List RemoteRepository))
    → Elem tag tags
    → IsSome tag (add_tags rege tags m)
unfolding add_tags lookup_or
add_tags-IsSome rege [] tag m there = elim there [ ]
add_tags-IsSome rege (t ∷ ts) tag m (inl e) =
    add_tags_keeps rege ts tag _
      (rw (← e, lookup-insert_self) (append_some (lookup_or t [] m) rege))
add_tags-IsSome rege (t ∷ ts) tag m (inr there) = add_tags-IsSome rege ts tag _ there

module _ (r : Registries) (rege : RemoteRepository) (host : Bytes) where
  query_image-IsFor :
      (image : Bytes) (tags : List Bytes) (tf : ImageToFetch) (h : History)
      → IsFor image tags tf
      → IsFor image tags (query_image r rege host tf h).0
        × ((query_image r rege host tf h).0.target.image ≡ image)
  query_image-IsFor image tags tf h (needs, named) =
      let (same, renamed) = query_image-target r [] [] [] [] rege host tf h in
      (
        (same ∙ needs, ap library_image renamed ∙ library_image_twice tf.target.image ∙ named),
        renamed ∙ named,
      )

  -- A repository that serves the tag is entered for it.
  query_image-IsOffered :
      (image tag : Bytes) (tf : ImageToFetch) (h : History)
      → library_image tf.target.image ≡ image
      → Serves r rege host image tag
      → IsOffered (query_image r rege host tf h).0 tag
  unfolding query_image fetch_tags
  query_image-IsOffered image tag tf h named s =
      let (c, h', tags, reached, listed, there) = s.answers h in
      let parsed : r.lib.parse_named (library_image tf.target.image) ≡ some s.name =
        ap r.lib.parse_named named ∙ s.named in
      rw (parsed, query_image, s.looked_up, query_image, reached, fetch_tags, listed, fetch_tags)
        (add_tags-IsSome rege tags tag tf.available_at there)

  -- Tags with a repository keep one.
  query_image_keeps :
      (tag : Bytes) (tf : ImageToFetch) (h : History)
      → IsOffered tf tag
      → IsOffered (query_image r rege host tf h).0 tag
  unfolding query_image fetch_tags
  query_image_keeps tag tf h o =
      elim (Option-cases (r.lib.parse_named (library_image tf.target.image))) [
        | inl n ↦ rw (n, query_image) o
        | inr (name, e) ↦
            elim (Option-cases
              (lookup_pull_endpoints r.net r.certs (service_config r.net rege host) host)) [
                | inl n ↦ rw (e, query_image, n, query_image) o
                | inr (endpoints, l) ↦
                    rw (e, query_image, l, query_image) (found (connect r rege name endpoints h))
              ]
      ]
    where
      found :
          (c : Option Connection × History)
          → IsOffered
              (fetch_tags r rege
                (record tf {
                  target = record (tf.target) { image = library_image tf.target.image };
                })
                (library_image tf.target.image)
                c).0
              tag
      found (none, h') = unfold fetch_tags in o
      found (some c, h') = elim (Option-cases (r.on_tags h' c)) [
        | inl n ↦ unfold fetch_tags in rw (n, fetch_tags) o
        | inr (tags, n) ↦
            unfold fetch_tags in rw (n, fetch_tags) (add_tags_keeps rege tags tag tf.available_at o)
      ]

  -- Asking a registry for all images keeps track of each.
  pub query_images-IsFor :
      (image : Bytes) (tags : List Bytes) (tfs : List ImageToFetch) (tf : ImageToFetch)
      (h : History)
      → Elem tf tfs
      → IsFor image tags tf
      → (tf' : ImageToFetch) × Elem tf' (query_images r rege host tfs h).0
        × IsFor image tags tf'
        × (tf'.target.image ≡ image)
        × ((tag : Bytes) → Serves r rege host image tag ⊎ IsOffered tf tag → IsOffered tf' tag)
  unfolding query_images
  query_images-IsFor image tags [] tf h m f = elim m [ ]
  query_images-IsFor image tags (x ∷ tfs) tf h (inl e) f =
      let tracked : IsFor image tags x = rw e f in
      let (after, named) = query_image-IsFor image tags x h tracked in
      (
        (query_image r rege host x h).0,
        inl refl,
        after,
        named,
        λ tag s. elim s [
          | inl serves ↦ query_image-IsOffered image tag x h tracked.1 serves
          | inr o ↦ query_image_keeps tag x h (rw e o)
        ],
      )
  query_images-IsFor image tags (x ∷ tfs) tf h (inr m) f =
      let (tf', there, after, named, offered) =
        query_images-IsFor image tags tfs tf (query_image r rege host x h).1 m f in
      (tf', inr there, after, named, offered)
