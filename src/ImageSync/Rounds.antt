-- ===== src/ImageSync/Rounds.antt =====
-- What the rounds of a pass over the registries pull of one image.
-- About pkg/imagesync/worker.go.
use deviced.Base.{
  none, List, [], ◌∷◌, ◌++◌, some, true, Bytes, ◌≡◌, refl, Elem, All, Bool-cases, Option-cases, inl,
  inr, ◌⊎◌,
}
use deviced.Config.Repository.{RemoteRepository}
use deviced.Config.Target.{TargetContainer}
use deviced.Docker.{Call, History, Daemon}
use deviced.ImageSync.State.{ImageToFetch, Registries, Progress, received}
use deviced.ImageSync.Query.{query_images}
use deviced.ImageSync.Pulls.{same, other}
use deviced.ImageSync.Pass.{finished, wake_if_triggered, wake_sent, process_repo, process_repos}
use deviced.ImageSync.RepoPulls.{Fetch, query_images-Extends}
use deviced.ImageSync.PassPulls.{process_repo-Extends}
use deviced.ImageSync.Accepted.{
  IsOffered, PulledUpTo, PulledUpTo-later, PulledUpTo-earlier, pull_images_accepted,
}
use deviced.ImageSync.Tracked.{Serves, IsFor, query_images-IsFor}

module _ (d : Daemon) (r : Registries) where
  -- The images to fetch and the progress after the rounds of these repositories.
  unfoldable pub after_rounds :
      List RemoteRepository → List ImageToFetch → Progress → List ImageToFetch × Progress
  after_rounds [] tfs p = (tfs, p)
  after_rounds (rege ∷ repos) tfs p =
      let (tfs', p') = process_repo d r rege tfs p in after_rounds repos tfs' p'

  wake_sent-received :
      ((h : History) → r.on_wake h ≡ received)
      → (rege : RemoteRepository) (p : Progress) → wake_sent d r rege p ≡ received
  unfolding wake_sent
  wake_sent-received takes rege p = elim (Option-cases (r.url_host rege.url)) [
    | inl n ↦ rw (n, wake_sent) refl
    | inr (host, u) ↦ elim (Bool-cases p.trigger) [
      | inl y ↦ rw (u, wake_sent, y) (takes p.history)
      | inr n ↦ rw (u, wake_sent, n) refl
    ]
  ]

  pub process_repos-append :
      ((h : History) → r.on_wake h ≡ received)
      → (before rest : List RemoteRepository) (tfs : List ImageToFetch) (p : Progress)
      → process_repos d r (before ++ rest) tfs p
        ≡ process_repos d r rest (after_rounds before tfs p).0 (after_rounds before tfs p).1
  unfolding process_repos after_rounds
  process_repos-append takes [] rest tfs p = refl
  process_repos-append takes (x ∷ before) rest tfs p =
      let (tfs', p') = process_repo d r x tfs p in
      rw (wake_sent-received takes x p', process_repos)
        (process_repos-append takes before rest tfs' p')

  -- Where each send is received, the loop over the registries comes to its end.
  pub process_repos-finished :
      ((h : History) → r.on_wake h ≡ received)
      → (repos : List RemoteRepository) (tfs : List ImageToFetch) (p : Progress)
      → process_repos d r repos tfs p ≡ finished (after_rounds repos tfs p).1
  unfolding process_repos after_rounds
  process_repos-finished takes [] tfs p = refl
  process_repos-finished takes (x ∷ repos) tfs p =
      let (tfs', p') = process_repo d r x tfs p in
      rw (wake_sent-received takes x p', process_repos) (process_repos-finished takes repos tfs' p')

  -- The round of every repository whose URL has a host pulls the tag, or one before it in the list.
  pub data PulledInRounds (image : Bytes) (tags : List Bytes) (tag : Bytes)
      : List RemoteRepository → List ImageToFetch → Progress → Type 0 where
    no_more : {tfs : List ImageToFetch} {p : Progress} → PulledInRounds image tags tag [] tfs p
    hostless :
        {rege : RemoteRepository} {repos : List RemoteRepository} {tfs : List ImageToFetch}
        {p : Progress}
        → r.url_host rege.url ≡ none
        → PulledInRounds image tags tag repos tfs p
        → PulledInRounds image tags tag (rege ∷ repos) tfs p
    in_round :
        {rege : RemoteRepository} {repos : List RemoteRepository} {tfs : List ImageToFetch}
        {p : Progress}
        → PulledUpTo image tags tag p.history (process_repo d r rege tfs p).1.history
        → PulledInRounds image tags tag repos
            (process_repo d r rege tfs p).0
            (process_repo d r rege tfs p).1
        → PulledInRounds image tags tag (rege ∷ repos) tfs p

module _ (d : Daemon) (r : Registries)
    (pulls : (h : History) (name : Bytes) → d.on_image_pull h name ≡ true)
    (retags : (h : History) (source goal : Bytes) → d.on_image_tag h source goal ≡ true)
    (image : Bytes) (tags : List Bytes) (tag : Bytes) where
  wake_later :
      (h0 : History) (p : Progress)
      → PulledUpTo image tags tag h0 p.history
      → PulledUpTo image tags tag h0 (wake_if_triggered p).history
  unfolding wake_if_triggered
  wake_later h0 p pulled = elim (Bool-cases p.trigger) [
    | inl y ↦ rw y (
        PulledUpTo-later {W = λ c. Unit} image tags tag (other Call.wake_containers (λ b. b) same)
          pulled)
    | inr n ↦ rw n pulled
  ]

  process_repo-IsFor :
      (rege : RemoteRepository) (tfs : List ImageToFetch) (tf : ImageToFetch) (p : Progress)
      → Elem tf tfs
      → IsFor image tags tf
      → (tf' : ImageToFetch) × Elem tf' (process_repo d r rege tfs p).0 × IsFor image tags tf'
  unfolding process_repo
  process_repo-IsFor rege tfs tf p m f = elim (Option-cases (r.url_host rege.url)) [
    | inl n ↦ rw (n, process_repo) (tf, m, f)
    | inr (host, u) ↦
        let (tf', there, tracked, _, _) =
          query_images-IsFor r rege host image tags tfs tf p.history m f in
        rw (u, process_repo) (tf', there, tracked)
  ]

  module _ (goarch : Bytes) (image_map : List (Bytes × List Bytes)) (repos : List RemoteRepository)
      (targets : List TargetContainer) where
    -- A round pulls the tag or a better one if the repository serves it, or an earlier one had it.
    pub process_repo_round :
        (rege : RemoteRepository) (host : Bytes) (tfs : List ImageToFetch) (tf : ImageToFetch)
        (p : Progress)
        → All (Fetch d r goarch image_map repos targets) tfs
        → Elem rege repos
        → Elem tf tfs
        → IsFor image tags tf
        → Elem tag tags
        → r.url_host rege.url ≡ some host
        → Serves r rege host image tag ⊎ IsOffered tf tag
        → let after = process_repo d r rege tfs p in
          ((tf' : ImageToFetch) × Elem tf' after.0 × IsFor image tags tf' × IsOffered tf' tag)
          × PulledUpTo image tags tag p.history after.1.history
    unfolding process_repo
    process_repo_round rege host tfs tf p a i m f needed url serves =
        let (tf', there, (needs, tracked), named, offered) =
          query_images-IsFor r rege host image tags tfs tf p.history m f in
        let (_, asked) =
          query_images-Extends d r goarch image_map repos targets rege host tfs p.history i a in
        let (tfs', h) = query_images r rege host tfs p.history in
        let pulled =
          pull_images_accepted d pulls retags tf' tag tfs' (record p { history = h })
            (offered tag serves) (rw needs needed) there in
        rw (url, process_repo)
          (
            (tf', there, (needs, tracked), offered tag serves),
            wake_later p.history _
                (PulledUpTo-earlier image tags tag asked (rw (named, needs) at pulled)),
          )

    -- Where a repository has the tag, each round pulls it or a better one.
    process_repos-rounds :
        (rest : List RemoteRepository) (tfs : List ImageToFetch) (tf : ImageToFetch) (p : Progress)
        → ((reg : RemoteRepository) → Elem reg rest → Elem reg repos)
        → All (Fetch d r goarch image_map repos targets) tfs
        → Elem tf tfs
        → IsFor image tags tf
        → Elem tag tags
        → IsOffered tf tag
        → PulledInRounds d r image tags tag rest tfs p
    process_repos-rounds [] tfs tf p sub a m f needed o = no_more
    process_repos-rounds (x ∷ rest) tfs tf p sub a m f needed o =
        elim (Option-cases (r.url_host x.url)) [
          | inl n ↦
              hostless n
                (process_repos-rounds rest tfs tf p (λ reg k. sub reg (inr k)) a m f needed o)
          | inr (host, u) ↦
              let (asked, _) =
                process_repo-Extends d r goarch image_map repos targets x tfs p (sub x (inl refl))
                  a in
              let ((tf', there, tracked, offered), now) =
                process_repo_round x host tfs tf p a (sub x (inl refl)) m f needed u (inr o) in
              let (tfs', p') = process_repo d r x tfs p in
              in_round now (
                process_repos-rounds rest tfs' tf' p' (λ reg k. sub reg (inr k)) asked there tracked
                  needed offered)
        ]

    -- From the round of a repository that serves the tag on.
    pub process_repos-offered :
        (rege : RemoteRepository) (host : Bytes) (before after : List RemoteRepository)
        (tfs : List ImageToFetch) (tf : ImageToFetch) (p : Progress)
        → ((reg : RemoteRepository) → Elem reg (before ++ (rege ∷ after)) → Elem reg repos)
        → All (Fetch d r goarch image_map repos targets) tfs
        → Elem tf tfs
        → IsFor image tags tf
        → Elem tag tags
        → r.url_host rege.url ≡ some host
        → Serves r rege host image tag
        → let (tfs', p') = after_rounds d r before tfs p in
          PulledUpTo image tags tag p'.history (process_repo d r rege tfs' p').1.history
          × PulledInRounds d r image tags tag after
              (process_repo d r rege tfs' p').0
              (process_repo d r rege tfs' p').1
    unfolding after_rounds
    process_repos-offered rege host [] after tfs tf p sub a m f needed url serves =
        let (asked, _) =
          process_repo-Extends d r goarch image_map repos targets rege tfs p (sub rege (inl refl))
            a in
        let ((tf', there, tracked, offered), now) =
          process_repo_round rege host tfs tf p a (sub rege (inl refl)) m f needed url
            (inl serves) in
        let (tfs', p') = process_repo d r rege tfs p in
        (
          now,
          process_repos-rounds after tfs' tf' p' (λ reg k. sub reg (inr k)) asked there tracked
              needed offered,
        )
    process_repos-offered rege host (x ∷ before) after tfs tf p sub a m f needed url serves =
        let (asked, _) =
          process_repo-Extends d r goarch image_map repos targets x tfs p (sub x (inl refl)) a in
        let (tf', there, tracked) = process_repo-IsFor x tfs tf p m f in
        let (tfs', p') = process_repo d r x tfs p in
        process_repos-offered rege host before after tfs' tf' p' (λ reg k. sub reg (inr k)) asked
          there tracked needed url serves
