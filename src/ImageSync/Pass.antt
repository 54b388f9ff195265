-- ===== src/ImageSync/Pass.antt =====
-- pkg/imagesync/worker.go: `processOnce` as a whole. The locks are in Workers.antt, as is when the
-- container worker receives what is sent to it.
use deviced.Base.{List, [], ◌∷◌, none, some, false, Bytes, if◌then◌else◌}
use deviced.Images.{build_image_map}
use deviced.Config.Repository.{RemoteRepository}
use deviced.Config.Document.{DevicedConfig}
use deviced.Docker.{Call, History, Daemon}
use deviced.ImageSync.State.{ImageToFetch, Registries, Progress, Sent, received, stuck, closed}
use deviced.ImageSync.Needed.{images_to_fetch}
use deviced.ImageSync.Query.{query_images}
use deviced.ImageSync.Pull.{pull_images}

pub data Outcome : Type 0 where
  finished : Progress → Outcome
  gave_up : Progress → Outcome
  waits : Progress → Outcome
  panicked : Progress → Outcome

abbrev pub progress_of : Outcome → Progress
progress_of (finished p) = p
progress_of (gave_up p) = p
progress_of (waits p) = p
progress_of (panicked p) = p

-- The send is entered into the history when it is begun.
unfoldable pub wake_if_triggered : Progress → Progress
wake_if_triggered p =
    if p.trigger then record p { history = Call.wake_containers ∷ p.history } else p

module _ (d : Daemon) (r : Registries) where
  -- The body of the loop over the registries.
  unfoldable pub process_repo :
      RemoteRepository → List ImageToFetch → Progress → List ImageToFetch × Progress
  process_repo rege tfs p = elim (r.url_host rege.url) [
    | none ↦ (tfs, p)
    | some host ↦
        let (tfs', h) = query_images r rege host tfs p.history in
        (tfs', wake_if_triggered (pull_images d tfs' (record p { history = h })))
  ]

  -- What the send at the end of a round comes to. A round without a host ends before it.
  unfoldable pub wake_sent : RemoteRepository → Progress → Sent
  wake_sent rege p = elim (r.url_host rege.url) [
    | none ↦ received
    | some host ↦ if p.trigger then r.on_wake p.history else received
  ]

  unfoldable pub process_repos : List RemoteRepository → List ImageToFetch → Progress → Outcome
  process_repos [] tfs p = finished p
  process_repos (rege ∷ repos) tfs p =
      let (tfs', p') = process_repo rege tfs p in
      elim (wake_sent rege p') [
        | received ↦ process_repos repos tfs' p'
        | stuck ↦ waits p'
        | closed ↦ panicked p'
      ]

  -- What follows the first loop.
  unfoldable pub fetch_images : List RemoteRepository → List ImageToFetch → Progress → Outcome
  fetch_images repos [] p = gave_up p
  fetch_images repos (tf ∷ tfs) p = process_repos repos (tf ∷ tfs) p

  module _ (goarch : Bytes) (cfg : DevicedConfig) where
    -- From the request for the images on.
    unfoldable pub list_and_fetch : Progress → Outcome
    list_and_fetch p =
        let p' = record p { history = Call.image_list ∷ p.history } in
        elim (d.on_image_list p.history) [
          | none ↦ gave_up p'
          | some images ↦ elim (images_to_fetch goarch (build_image_map images) cfg.containers) [
            | none ↦ panicked p'
            | some tfs ↦ fetch_images cfg.repos tfs p'
          ]
        ]

    unfoldable pub process_once_with : List RemoteRepository → History → Outcome
    process_once_with [] h =
        gave_up (record { unsolved_reqs = false; trigger = false; history = h })
    process_once_with (rege ∷ repos) h =
        list_and_fetch (record { unsolved_reqs = false; trigger = false; history = h })

    unfoldable pub process_once : History → Outcome
    unfolding process_once_with
    process_once h = process_once_with cfg.repos h
