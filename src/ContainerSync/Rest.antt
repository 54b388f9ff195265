-- ===== src/ContainerSync/Rest.antt =====
-- The container worker comes to rest under a Docker that does what it asks for.
-- About pkg/containersync/worker.go.
use deviced.Base.{ℕ, suc, ◌+◌, ◌<◌, List, [], ◌∷◌, some, true, ◌≡◌, All}
use deviced.Images.{ImageSummary, build_image_map}
use deviced.Docker.{ApiContainer, NetworkResource, Call, History}
use deviced.Config.Document.{DevicedConfig}
use deviced.ContainerSync.Networks.{add_networks}
use deviced.ContainerSync.Pass.{Env, finished, process_once}
use deviced.ContainerSync.MatchSteps.{IsNamed}
use deviced.ContainerSync.Handled.{DistinctIds}
use deviced.ContainerSync.Quiet.{IsPresent}
use deviced.ContainerSync.Shown.{Passes, FoldDistinct}
use deviced.ContainerSync.Best.{HasBest}
use deviced.ContainerSync.Progress.{IsRanked}
use deviced.ContainerSync.Converge.{Passes-converge}
use deviced.ContainerSync.Answers.{Answers}
use deviced.ContainerSync.Obeyed.{IsFree, Answers-Follows}

-- `n` passes, each of which Docker answers by doing what it asks: from the history `h` and the containers
-- `cs` to the last two arguments.
pub data Runs (env : Env) (cfg : DevicedConfig) (images : List ImageSummary) (h : History)
    (cs : List ApiContainer) : ℕ → History → List ApiContainer → Type 0 where
  start : Runs env cfg images h cs 0 h cs
  pass :
      {n : ℕ} {k after : History} {ds es : List ApiContainer}
      → Runs env cfg images h cs n k ds
      → Answers env cfg images k ds after es
      → Runs env cfg images h cs (suc n) after es

module _ (env : Env) (cfg : DevicedConfig) (images : List ImageSummary)
    (free : IsFree env cfg) where
  Runs-Passes :
      {h : History} {cs : List ApiContainer} {n : ℕ} {after : History} {ds : List ApiContainer}
      → Runs env cfg images h cs n after ds
      → Passes env cfg images cs n ds
  Runs-Passes start = Passes.stop
  Runs-Passes (pass runs answers) =
      Passes.again (Runs-Passes runs) (Answers-Follows env cfg images free answers)

  -- While Docker lists the same images and does what the passes ask, the worker comes to rest, and then
  -- every target has the best it can get. If no two tags that a target may use have one score, and none
  -- has a score above `bound`, then after more than `bound + 2` passes a pass only makes the three
  -- requests for lists; and a container of the target is listed, and no tag that is available and may
  -- be used has a better score than its tag, or no available tag may be used and no container of the
  -- target is listed. The device may have had any containers at the start, also several for one target,
  -- dead ones, and others. The conditions are these. The targets' ids differ, also without regard to
  -- case, and so do the containers' ids. The worker's own container is unknown to it or may be
  -- deleted, so that no container is protected; no target has a network mode; and walks over maps
  -- meet exactly their entries. Each pass ends with all its requests. After it Docker lists the
  -- containers that the pass has not asked to stop and remove, and one for each that it has asked to
  -- create, under the id that Docker answered, with the image and the label asked for, and running if
  -- the pass has asked to start it. In the last pass Docker answers the requests, every listed
  -- container has a name, every configured network with a name is listed, and the label filter parses.
  pub process_once_rests :
      (apart : FoldDistinct cfg.containers) (bound n : ℕ) (first : History)
      (cs ds : List ApiContainer) (h : History) {list : List NetworkResource}
      → All (IsRanked env.goarch (build_image_map images) bound) cfg.containers
      → DistinctIds cs
      → Runs env cfg images first cs n h ds
      → bound + 2 < n
      → env.filter_parses ≡ true
      → env.delete_order [] ≡ []
      → env.start_order [] ≡ []
      → env.daemon.on_network_list h ≡ some list
      → All (IsPresent (add_networks [] list)) cfg.networks
      → env.daemon.on_container_list (Call.network_list ∷ h) ≡ some ds
      → All IsNamed ds
      → env.daemon.on_image_list (Call.container_list ∷ Call.network_list ∷ h) ≡ some images
      → (process_once env cfg h
          ≡ finished (Call.image_list ∷ Call.container_list ∷ Call.network_list ∷ h))
        × All (HasBest env.goarch cfg.containers (build_image_map images) ds) cfg.containers
  process_once_rests apart bound n first cs ds h ranked distinct runs many parses od os nets present
        ctrs named imgs =
      Passes-converge env cfg images apart bound n cs ds h ranked distinct (Runs-Passes runs) many
        parses od os nets present ctrs named imgs
