-- ===== src/ImageSync/Offered.antt =====
-- A version that a repository offers is pulled, or a better one.
-- About pkg/imagesync/worker.go.
use deviced.Base.{
  ◌∙◌, List, [], ◌∷◌, ◌++◌, some, true, false, Bytes, ◌≡◌, refl, Elem, All, Any-append_right, inl,
  inr,
}
use deviced.Base.Assoc.{lookup_or}
use deviced.Images.{ImageSummary, build_image_map}
use deviced.Config.Repository.{RemoteRepository}
use deviced.Config.Target.{TargetContainer, max_uint16}
use deviced.Config.Document.{DevicedConfig}
use deviced.Docker.{Call, History, Daemon}
use deviced.ImageSync.State.{ImageToFetch, Registries, Progress, received}
use deviced.ImageSync.Needed.{
  best_available, is_satisfied, tags_to_fetch, image_to_fetch, images_to_fetch,
}
use deviced.ImageSync.Query.{library_image}
use deviced.ImageSync.Pass.{
  finished, process_repo, process_repos, fetch_images, list_and_fetch, process_once_with,
  process_once,
}
use deviced.ImageSync.Fetches.{IsNeeded, images_to_fetch-IsFetch}
use deviced.ImageSync.Total.{IsSmall, image_to_fetch_total, images_to_fetch_total}
use deviced.ImageSync.Rounds.{
  after_rounds, process_repos-append, process_repos-finished, PulledInRounds, process_repos-offered,
}
use deviced.ImageSync.Accepted.{PulledUpTo}
use deviced.ImageSync.Tracked.{Serves, IsFor}

module _ (goarch : Bytes) (image_map : List (Bytes × List Bytes)) where
  -- A target that is not satisfied is among the images to fetch.
  image_to_fetch-Elem :
      (t : TargetContainer) (tags : List Bytes)
      → is_satisfied goarch t
          (best_available goarch t (lookup_or t.image [] image_map) [] max_uint16).1
        ≡ false
      → tags_to_fetch goarch t
          (best_available goarch t (lookup_or t.image [] image_map) [] max_uint16)
        ≡ some tags
      → (tf : ImageToFetch) × (image_to_fetch goarch image_map t ≡ some (tf ∷ []))
        × IsFor (library_image t.image) tags tf
  unfolding image_to_fetch
  image_to_fetch-Elem t tags unmet needed = (
    record { fetch_any = t.use_any_version; needed_tags = tags; available_at = []; target = t },
    rw (unmet, needed, image_to_fetch),
    (refl, refl),
  )

  images_to_fetch-Elem :
      (ctrs : List TargetContainer) (t : TargetContainer) (tags : List Bytes)
      → All (IsSmall goarch image_map) ctrs
      → Elem t ctrs
      → is_satisfied goarch t
          (best_available goarch t (lookup_or t.image [] image_map) [] max_uint16).1
        ≡ false
      → tags_to_fetch goarch t
          (best_available goarch t (lookup_or t.image [] image_map) [] max_uint16)
        ≡ some tags
      → (tfs : List ImageToFetch) × (images_to_fetch goarch image_map ctrs ≡ some tfs)
        × ((tf : ImageToFetch) × Elem tf tfs × IsFor (library_image t.image) tags tf)
  unfolding images_to_fetch
  images_to_fetch-Elem [] t tags small m unmet needed = elim m [ ]
  images_to_fetch-Elem (x ∷ ctrs) t tags (s, small) (inl e) unmet needed =
      let (tf, first, f) = image_to_fetch-Elem t tags unmet needed in
      let (rest, later) = images_to_fetch_total goarch image_map ctrs small in
      (tf ∷ rest, rw (e, first, images_to_fetch, later, images_to_fetch), (tf, inl refl, f))
  images_to_fetch-Elem (x ∷ ctrs) t tags (s, small) (inr m) unmet needed =
      let (first, e) = image_to_fetch_total goarch image_map x s in
      let (rest, later, (tf, there, f)) = images_to_fetch-Elem ctrs t tags small m unmet needed in
      (
        first ++ rest,
        rw (e, images_to_fetch, later, images_to_fetch),
        (tf, Any-append_right (λ y. y ≡ tf) first rest there, f),
      )

fetch_images_some :
    (d : Daemon) (r : Registries) (repos : List RemoteRepository) (tfs : List ImageToFetch)
    (tf : ImageToFetch) (p : Progress)
    → Elem tf tfs
    → fetch_images d r repos tfs p ≡ process_repos d r repos tfs p
unfolding fetch_images
fetch_images_some d r repos [] tf p m = elim m [ ]
fetch_images_some d r repos (x ∷ tfs) tf p m = refl

module _ (d : Daemon) (r : Registries) (goarch : Bytes) (cfg : DevicedConfig) where
  process_once_with_some :
      (repos : List RemoteRepository) (rege : RemoteRepository) (h : History)
      → Elem rege repos
      → process_once_with d r goarch cfg repos h
        ≡ list_and_fetch d r goarch cfg
            (record { unsolved_reqs = false; trigger = false; history = h })
  unfolding process_once_with
  process_once_with_some [] rege h k = elim k [ ]
  process_once_with_some (x ∷ repos) rege h k = refl

  -- The images to fetch and the progress of a pass after the rounds of the repositories `before`.
  abbrev pub before_round :
      History → List RemoteRepository → List ImageToFetch → List ImageToFetch × Progress
  before_round h before tfs =
      after_rounds d r before tfs
        (record { unsolved_reqs = false; trigger = false; history = Call.image_list ∷ h })

  -- If a repository serves a version of a target that is better than the local ones, the pass goes
  -- through all the repositories to its end, and the round of this repository pulls this version, or
  -- one that stands before it in the target's list, from some repository; and so does again the round
  -- of every later repository whose URL has a host. The conditions are these. Docker lists the images
  -- and accepts every pull and every tag; no target has more than 65535 versions, and no local tag is
  -- empty; the repository is configured, its URL has a host, and whenever it is asked for the image at
  -- this host it has a connection and lists the version; no entry of the configuration is null; and
  -- the container worker receives whatever the pass sends it, so that a send neither waits for good
  -- nor finds the channel closed.
  pub process_once_pulls_offered :
      (h : History) {images : List ImageSummary} (t : TargetContainer) (tags : List Bytes)
      (tag : Bytes) (rege : RemoteRepository) (host : Bytes) (before after : List RemoteRepository)
      → ((h : History) (name : Bytes) → d.on_image_pull h name ≡ true)
      → ((h : History) (source goal : Bytes) → d.on_image_tag h source goal ≡ true)
      → ((h : History) → r.on_wake h ≡ received)
      → d.on_image_list h ≡ some images
      → All (IsSmall goarch (build_image_map images)) cfg.containers
      → Elem t cfg.containers
      → is_satisfied goarch t
          (best_available goarch t (lookup_or t.image [] (build_image_map images)) [] max_uint16).1
        ≡ false
      → IsNeeded r goarch (build_image_map images) t tags
      → Elem tag tags
      → cfg.repos ≡ before ++ (rege ∷ after)
      → r.url_host rege.url ≡ some host
      → Serves r rege host (library_image t.image) tag
      → (tfs : List ImageToFetch) × (images_to_fetch goarch (build_image_map images) cfg.containers
          ≡ some tfs)
        × (let (tfs', p) = before_round h before tfs in
            (process_once d r goarch cfg h ≡ finished (after_rounds d r (rege ∷ after) tfs' p).1)
            × PulledUpTo
                (library_image t.image)
                tags
                tag
                p.history
                (process_repo d r rege tfs' p).1.history
            × PulledInRounds d r
                (library_image t.image)
                tags
                tag
                after
                (process_repo d r rege tfs' p).0
                (process_repo d r rege tfs' p).1)
  unfolding process_once
  process_once_pulls_offered h {images} t tags tag rege host before after pulls retags takes listed
        small m unmet needed among split url serves =
      let (tfs, e, (tf, there, f)) =
        images_to_fetch-Elem goarch (build_image_map images) cfg.containers t tags small m unmet
          needed in
      let fetches =
        images_to_fetch-IsFetch r goarch (build_image_map images) cfg.repos cfg.containers
          cfg.containers (λ u n. n) e in
      let asked : Progress = record {
        unsolved_reqs = false;
        trigger = false;
        history = Call.image_list ∷ h;
      } in
      let rounds =
        process_repos-offered d r pulls retags (library_image t.image) tags tag goarch
          (build_image_map images) cfg.repos cfg.containers rege host before after tfs tf asked
          (λ reg n. rw split n) fetches there f among url serves in
      let started =
        process_once_with_some cfg.repos rege h
          (rw split (Any-append_right (λ x. x ≡ rege) before (rege ∷ after) (inl refl))) in
      let fetched : list_and_fetch d r goarch cfg
            (record { unsolved_reqs = false; trigger = false; history = h })
          ≡ process_repos d r cfg.repos tfs asked =
        unfold list_and_fetch in
        rw (listed, list_and_fetch, e, list_and_fetch)
          (fetch_images_some d r cfg.repos tfs tf asked there) in
      let split_up : process_repos d r cfg.repos tfs asked
          ≡ process_repos d r (rege ∷ after) (before_round h before tfs).0
              (before_round h before tfs).1 =
        rw split (process_repos-append d r takes before (rege ∷ after) tfs asked) in
      let (tfs', p) = before_round h before tfs in
      let ended = process_repos-finished d r takes (rege ∷ after) tfs' p in
      (tfs, e, (started ∙ fetched ∙ split_up ∙ ended, rounds.0, rounds.1))
