-- ===== src/ImageSync/Fetches.antt =====
-- The images to fetch, before and after a registry has been asked.
-- About pkg/imagesync/worker.go.
use deviced.Base.{
  ℕ, suc, ◌≤◌, List, [], ◌∷◌, Option, none, some, false, Bytes, split, prepend, length, beq, beq→eq,
  ◌==◌, ◌≡◌, ◌⊎◌, refl, ◌∙◌, ap, arith, inl, inr, subst, All, All-append, Elem, Bool-cases,
  Option-cases,
}
use deviced.Base.Assoc.{lookup, lookup_or}
use deviced.Config.Target.{TargetContainer, max_uint16}
use deviced.Config.Repository.{RemoteRepository}
use deviced.Docker.{Call, History}
use deviced.Registry.Service.{ApiEndpoint, lookup_pull_endpoints}
use deviced.Distribution.{Connection}
use deviced.Base.Assoc.{All-insert}
use deviced.ContainerSync.Warrants.{some-inj}
use deviced.ImageSync.State.{ImageToFetch, Registries}
use deviced.ImageSync.Needed.{
  best_available, is_satisfied, tags_to_fetch, image_to_fetch, images_to_fetch,
}
use deviced.ImageSync.Query.{
  library_image, add_tags, service_config, connect, fetch_tags, query_image,
}
use deviced.ImageSync.Connections.{IsConnectionTo, query_image-Learns}

prepend_nonempty : (c : ℕ) (ps : List Bytes) → 1 ≤ length (prepend c ps)
prepend_nonempty c [] = omega arith
prepend_nonempty c (p ∷ ps) = omega arith

split_nonempty : (s : Bytes) → 1 ≤ length (split b'/' s)
split_nonempty [] = omega arith
split_nonempty (c ∷ s) = elim (Bool-cases (c == b'/')) [
  | inl e ↦ rw e (omega arith)
  | inr e ↦ rw e (prepend_nonempty c (split b'/' s))
]

not_one : (n : ℕ) → 1 ≤ n → (suc n == 1) ≡ false
not_one n h = ground arith

-- A name with "library/" in front has a slash, and gets no second one.
pub library_image_twice :
    (image : Bytes) → library_image (library_image image) ≡ library_image image
unfolding library_image
library_image_twice image = elim (Bool-cases (length (split b'/' image) == 1)) [
  | inl e ↦ rw (e, not_one (length (split b'/' image)) (split_nonempty image)) refl
  | inr e ↦ rw (e, e) refl
]

-- The image is the target's, as the configuration names it or with "library/" in front.
abbrev pub IsNamed : TargetContainer → Bytes → Type 0
IsNamed t image = (image ≡ t.image) ⊎ (image ≡ library_image t.image)

IsNamed-library_image :
    (t : TargetContainer) (image : Bytes)
    → IsNamed t image
    → library_image image ≡ library_image t.image
IsNamed-library_image t image (inl e) = ap library_image e
IsNamed-library_image t image (inr e) = ap library_image e ∙ library_image_twice t.image

module _ (r : Registries) (goarch : Bytes) (image_map : List (Bytes × List Bytes)) where
  -- The registry has listed the tag for the target's image, over a connection of its own.
  abbrev pub Offers : RemoteRepository → TargetContainer → Bytes → Type 0
  Offers reg t tag =
      (name : Bytes) × (endp : ApiEndpoint) × (h : History) × (c : Connection) × (tags : List Bytes)
      × (r.lib.parse_named (library_image t.image) ≡ some name)
      × IsConnectionTo r reg name endp h c
      × (r.on_tags (Call.registry_connect reg.url endp name ∷ h) c ≡ some tags)
      × Elem tag tags

  -- The tag is better than the local ones of the target's image.
  abbrev pub IsNeeded : TargetContainer → List Bytes → Type 0
  IsNeeded t tags =
      tags_to_fetch goarch t
        (best_available goarch t (lookup_or t.image [] image_map) [] max_uint16)
      ≡ some tags

  module _ (repos : List RemoteRepository) (targets : List TargetContainer) where
    -- The repositories of the entry have listed its tag.
    abbrev pub IsOffer : TargetContainer → Bytes × List RemoteRepository → Type 0
    IsOffer t (tag, regs) = All (λ reg. Elem reg repos × Offers reg t tag) regs

    -- The image is that of a target, its needed tags are the better ones, and its repositories have
    -- listed their tags.
    pub record IsFetch (tf : ImageToFetch) : Type 0 where
      pub of_target : TargetContainer
      pub among : Elem of_target targets
      pub named : IsNamed of_target tf.target.image
      pub needed : IsNeeded of_target tf.needed_tags
      pub offered : All (IsOffer of_target) tf.available_at

    pub lookup_or-IsOffer :
        (t : TargetContainer) (tag : Bytes) (m : List (Bytes × List RemoteRepository))
        → All (IsOffer t) m
        → IsOffer t (tag, lookup_or tag [] m)
    unfolding lookup_or lookup
    lookup_or-IsOffer t tag [] a = tt
    lookup_or-IsOffer t tag ((j, regs) ∷ m) (o, a) = elim (Bool-cases (beq j tag)) [
      | inl e ↦ rw e (subst (λ k. IsOffer t (k, regs)) (beq→eq j tag e) o)
      | inr e ↦ rw e (lookup_or-IsOffer t tag m a)
    ]

    add_tags-IsOffer :
        (t : TargetContainer) (reg : RemoteRepository) (tags : List Bytes)
        (m : List (Bytes × List RemoteRepository))
        → Elem reg repos
        → ((tag : Bytes) → Elem tag tags → Offers reg t tag)
        → All (IsOffer t) m
        → All (IsOffer t) (add_tags reg tags m)
    unfolding add_tags
    add_tags-IsOffer t reg [] m i o a = a
    add_tags-IsOffer t reg (tag ∷ tags) m i o a =
        add_tags-IsOffer t reg tags _ i (λ u l. o u (inr l))
          (All-insert (IsOffer t) tag _ m
            (All-append (λ g. Elem g repos × Offers g t tag) (lookup_or tag [] m) (reg ∷ [])
              (lookup_or-IsOffer t tag m a) ((i, o tag (inl refl)), tt))
            a)

    image_to_fetch-IsFetch :
        (ctr : TargetContainer) {tfs : List ImageToFetch}
        → Elem ctr targets
        → image_to_fetch goarch image_map ctr ≡ some tfs
        → All IsFetch tfs
    unfolding image_to_fetch
    image_to_fetch-IsFetch ctr {tfs} m e =
        let locals = lookup_or ctr.image [] image_map in
        let best = best_available goarch ctr locals [] max_uint16 in
        elim (Bool-cases (is_satisfied goarch ctr best.1)) [
          | inl y ↦ subst (All IsFetch) (some-inj (rw y at e)) tt
          | inr n ↦ elim (Option-cases (tags_to_fetch goarch ctr best)) [
            | inl f ↦ let x = (rw (n, f, image_to_fetch) at e) in absurd (cc)
            | inr (tags, f) ↦ subst (All IsFetch) (some-inj (rw (n, f, image_to_fetch) at e)) (
              record { of_target = ctr; among = m; named = inl refl; needed = f; offered = tt },
              tt,
            )
          ]
        ]

    pub images_to_fetch-IsFetch :
        (ctrs : List TargetContainer) {tfs : List ImageToFetch}
        → ((t : TargetContainer) → Elem t ctrs → Elem t targets)
        → images_to_fetch goarch image_map ctrs ≡ some tfs
        → All IsFetch tfs
    unfolding images_to_fetch
    images_to_fetch-IsFetch [] sub e = subst (All IsFetch) (some-inj e) tt
    images_to_fetch-IsFetch (ctr ∷ ctrs) sub e =
        elim (Option-cases (image_to_fetch goarch image_map ctr)) [
          | inl n ↦ let x = (rw (n, images_to_fetch) at e) in absurd (cc)
          | inr (first, f) ↦ elim (Option-cases (images_to_fetch goarch image_map ctrs)) [
            | inl n ↦ let x = (rw (f, images_to_fetch, n, images_to_fetch) at e) in absurd (cc)
            | inr (rest, g) ↦
                subst (All IsFetch) (some-inj (rw (f, images_to_fetch, g, images_to_fetch) at e)) (
                  All-append IsFetch first rest (image_to_fetch-IsFetch ctr (sub ctr (inl refl)) f)
                    (images_to_fetch-IsFetch ctrs (λ t i. sub t (inr i)) g))
          ]
        ]

    fetch_tags-target :
        (rege : RemoteRepository) (tf : ImageToFetch) (image : Bytes)
        (found : Option Connection × History)
        → let after = (fetch_tags r rege tf image found).0 in
          (after.needed_tags ≡ tf.needed_tags) × (after.target ≡ tf.target)
    unfolding fetch_tags
    fetch_tags-target rege tf image (none, h) = (refl, refl)
    fetch_tags-target rege tf image (some c, h) = elim (Option-cases (r.on_tags h c)) [
      | inl e ↦ rw (e, fetch_tags) (refl, refl)
      | inr (tags, e) ↦ rw (e, fetch_tags) (refl, refl)
    ]

    -- Asking a registry changes no more of a fetch than its image's name and its repositories.
    pub query_image-target :
        (rege : RemoteRepository) (host : Bytes) (tf : ImageToFetch) (h : History)
        → let after = (query_image r rege host tf h).0 in
          (after.needed_tags ≡ tf.needed_tags)
          × (after.target.image ≡ library_image tf.target.image)
    unfolding query_image
    query_image-target rege host tf h =
        let image = library_image tf.target.image in
        let config = service_config r.net rege host in
        elim (Option-cases (r.lib.parse_named image)) [
          | inl n ↦ rw (n, query_image) (refl, refl)
          | inr (name, p) ↦ elim (Option-cases (lookup_pull_endpoints r.net r.certs config host)) [
            | inl n ↦ rw (p, query_image, n, query_image) (refl, refl)
            | inr (endpoints, l) ↦
                let tf' = record tf { target = record (tf.target) { image = image } } in
                let (needs, target) =
                  fetch_tags-target rege tf' image (connect r rege name endpoints h) in
                rw (p, query_image, l, query_image)
                  (needs, ap (λ (t : TargetContainer). t.image) target)
          ]
        ]

    pub query_image-IsFetch :
        (rege : RemoteRepository) (host : Bytes) (tf : ImageToFetch) (h : History)
        → Elem rege repos
        → IsFetch tf
        → IsFetch (query_image r rege host tf h).0
    query_image-IsFetch rege host tf h i f =
        let (needs, image) = query_image-target rege host tf h in
        let same = IsNamed-library_image f.of_target tf.target.image f.named in
        record {
          of_target = f.of_target;
          among = f.among;
          named = inr (image ∙ same);
          needed = rw needs f.needed;
          offered = elim (query_image-Learns r rege host tf h) [
            | inl e ↦ rw e f.offered
            | inr (name, endp, endpoints, h', c, tags, p, _, _, _, k, t, e) ↦ rw e (
                add_tags-IsOffer f.of_target rege tags tf.available_at i
                  (λ tag m. (name, endp, h', c, tags, rw (← same) p, k, t, m)) f.offered)
          ];
        }
