-- ===== src/ImageSync/PassPulls.antt =====
-- What a whole pass of the image worker pulls.
-- About pkg/imagesync/worker.go.
use deviced.Base.{
  List, [], ◌∷◌, Bytes, ◌≡◌, ◌⊎◌, refl, inl, inr, All, Elem, Bool-cases, Option-cases,
}
use deviced.Base.Assoc.{get_or}
use deviced.Images.{build_image_map}
use deviced.Config.Target.{TargetContainer}
use deviced.Config.Repository.{RemoteRepository}
use deviced.Config.Document.{DevicedConfig}
use deviced.Docker.{History, Daemon}
use deviced.ImageSync.State.{ImageToFetch, Registries, Progress, Sent, received, stuck, closed}
use deviced.ImageSync.Needed.{images_to_fetch}
use deviced.ImageSync.Query.{query_images}
use deviced.ImageSync.Pulls.{Extends, same, other, Extends-trans}
use deviced.ImageSync.Pass.{
  progress_of, wake_if_triggered, process_repo, wake_sent, process_repos, fetch_images,
  list_and_fetch, process_once_with, process_once,
}
use deviced.ImageSync.Fetches.{images_to_fetch-IsFetch}
use deviced.ImageSync.RepoPulls.{IsPassPull, Fetch, pull_images-Extends, query_images-Extends}

Sent-cases : (s : Sent) → (s ≡ received) ⊎ ((s ≡ stuck) ⊎ (s ≡ closed))
Sent-cases received = inl refl
Sent-cases stuck = inr (inl refl)
Sent-cases closed = inr (inr refl)

module _ (d : Daemon) (r : Registries) (goarch : Bytes) (image_map : List (Bytes × List Bytes))
    (repos : List RemoteRepository) (targets : List TargetContainer) where
  wake-Extends :
      (h : History) (p : Progress)
      → Extends (IsPassPull d r goarch image_map repos targets) h p.history
      → Extends (IsPassPull d r goarch image_map repos targets) h (wake_if_triggered p).history
  unfolding wake_if_triggered
  wake-Extends h p e = elim (Bool-cases p.trigger) [
    | inl y ↦ rw y (other _ (λ b. b) e)
    | inr n ↦ rw n e
  ]

  pub process_repo-Extends :
      (rege : RemoteRepository) (tfs : List ImageToFetch) (p : Progress)
      → Elem rege repos
      → All (Fetch d r goarch image_map repos targets) tfs
      → let after = process_repo d r rege tfs p in
        All (Fetch d r goarch image_map repos targets) after.0
        × Extends (IsPassPull d r goarch image_map repos targets) p.history after.1.history
  unfolding process_repo
  process_repo-Extends rege tfs p i a = elim (Option-cases (r.url_host rege.url)) [
    | inl n ↦ rw (n, process_repo) (a, same)
    | inr (host, u) ↦
        let (asked, first) =
          query_images-Extends d r goarch image_map repos targets rege host tfs p.history i a in
        let (tfs', h) = query_images r rege host tfs p.history in
        rw (u, process_repo)
          (
            asked,
            wake-Extends p.history _ (
                Extends-trans first (
                  pull_images-Extends d r goarch image_map repos targets tfs'
                    (record p { history = h }) asked)),
          )
  ]

  pub process_repos-Extends :
      (rest : List RemoteRepository) (tfs : List ImageToFetch) (p : Progress)
      → ((reg : RemoteRepository) → Elem reg rest → Elem reg repos)
      → All (Fetch d r goarch image_map repos targets) tfs
      → Extends
          (IsPassPull d r goarch image_map repos targets)
          p.history
          (progress_of (process_repos d r rest tfs p)).history
  unfolding process_repos
  process_repos-Extends [] tfs p sub a = same
  process_repos-Extends (rege ∷ rest) tfs p sub a =
      let (asked, first) = process_repo-Extends rege tfs p (sub rege (inl refl)) a in
      let (tfs', p') = process_repo d r rege tfs p in
      elim (Sent-cases (wake_sent d r rege p')) [
        | inl e ↦
            rw (e, process_repos)
              (Extends-trans first
                (process_repos-Extends rest tfs' p' (λ reg m. sub reg (inr m)) asked))
        | inr (inl e) ↦ rw (e, process_repos) first
        | inr (inr e) ↦ rw (e, process_repos) first
      ]

  fetch_images-Extends :
      (tfs : List ImageToFetch) (p : Progress)
      → All (Fetch d r goarch image_map repos targets) tfs
      → Extends
          (IsPassPull d r goarch image_map repos targets)
          p.history
          (progress_of (fetch_images d r repos tfs p)).history
  unfolding fetch_images
  fetch_images-Extends [] p a = same
  fetch_images-Extends (tf ∷ tfs) p a = process_repos-Extends repos (tf ∷ tfs) p (λ reg m. m) a

-- The map of the local images in a pass that starts after `h`; it is empty in case of an error.
abbrev pub local_images_at : Daemon → History → List (Bytes × List Bytes)
local_images_at d h = build_image_map (get_or (d.on_image_list h) [])

module _ (d : Daemon) (r : Registries) (goarch : Bytes) (cfg : DevicedConfig) where
  list_and_fetch-Extends :
      (p : Progress)
      → Extends
          (IsPassPull d r goarch (local_images_at d p.history) cfg.repos cfg.containers)
          p.history
          (progress_of (list_and_fetch d r goarch cfg p)).history
  unfolding list_and_fetch
  list_and_fetch-Extends p = elim (Option-cases (d.on_image_list p.history)) [
    | inl e ↦ rw (e, list_and_fetch) (other _ (λ b. b) same)
    | inr (images, e) ↦
        elim (Option-cases (images_to_fetch goarch (build_image_map images) cfg.containers)) [
          | inl n ↦ rw (e, list_and_fetch, n, list_and_fetch) (other _ (λ b. b) same)
          | inr (tfs, f) ↦
              let fetches =
                images_to_fetch-IsFetch r goarch (build_image_map images) cfg.repos cfg.containers
                  cfg.containers (λ t m. m) f in
              rw (e, list_and_fetch, f, list_and_fetch)
                (Extends-trans (other _ (λ b. b) same) (
                  fetch_images-Extends d r goarch (build_image_map images) cfg.repos cfg.containers
                    tfs _ fetches))
        ]
  ]

  -- A whole pass of the image worker only adds requests, and each pull among them is of the image of a
  -- configured target, at a tag that is better than the target's local tags, from a configured
  -- repository that has listed the tag over a connection of its own, and with this repository's prefix
  -- and credentials; whatever Docker and the registries answer, and also where the pass gives up, panics
  -- or waits for good to wake the container worker.
  pub process_once-Extends :
      (h : History)
      → Extends
          (IsPassPull d r goarch (local_images_at d h) cfg.repos cfg.containers)
          h
          (progress_of (process_once d r goarch cfg h)).history
  unfolding process_once
  process_once-Extends h = started cfg.repos
    where
      started :
          (repos : List RemoteRepository)
          → Extends
              (IsPassPull d r goarch (local_images_at d h) cfg.repos cfg.containers)
              h
              (progress_of (process_once_with d r goarch cfg repos h)).history
      started [] = unfold process_once_with in same
      started (reg ∷ repos) = unfold process_once_with in list_and_fetch-Extends _
