-- ===== src/ContainerSync/Choose.antt =====
-- pkg/containersync/worker.go, the second loop of `processOnce`: which targets get a new container,
-- and from which image.
use deviced.Base.{
  ℕ, ◌%◌, List, [], ◌∷◌, ◌++◌, Option, none, some, Bool, true, false, not, ◌&&◌, Bytes, codes, beq,
  ltb, ◌==◌, if◌then◌else◌, join, itoa, length,
}
use deviced.Base.Assoc.{lookup, lookup_or, insert}
use deviced.Docker.{ContainerCreateConfig}
use deviced.Config.Target.{TargetContainer, container_version_score}
use deviced.ContainerSync.State.{RunningContainer, Plan, same_container}
use deviced.ContainerSync.Match.{deviced_id_label}

-- The zero value of `RunningContainer`, which a lookup of a missing key gives.
unfoldable pub zero_container : RunningContainer
zero_container = record {
  deviced_id = [];
  image = [];
  image_tag = [];
  score = 0;
  api_container = none;
}

-- The highest score that a target without `useAnyVersion` takes.
abbrev pub score_limit : ℕ
score_limit = 1000

module _ (goarch : Bytes) where
  -- The three tests by which the loop over the images skips a tag.
  unfoldable pub is_acceptable : TargetContainer → Bool → RunningContainer → Bytes → Bool
  is_acceptable tctr ok current avail =
      let score = container_version_score goarch tctr avail in
      if not tctr.use_any_version && ltb score_limit score
      then false
      else if ok && beq avail current.image_tag
      then false
      else if ok && ltb current.score score
      then false
      else true

  unfoldable pub candidate : TargetContainer → Bytes → RunningContainer
  candidate tctr avail = record {
    deviced_id = tctr.id;
    image = tctr.image;
    image_tag = avail;
    score = container_version_score goarch tctr avail;
    api_container = none;
  }

  -- The loop over the available images; the Boolean is `okn`.
  unfoldable pub select_image :
      TargetContainer
      → Bool
      → RunningContainer
      → List Bytes
      → RunningContainer
      → Bool
      → RunningContainer × Bool
  select_image tctr ok current [] selected okn = (selected, okn)
  select_image tctr ok current (avail ∷ images) selected okn =
      let acceptable = is_acceptable tctr ok current avail in
      select_image tctr ok current images (if acceptable then candidate tctr avail else selected)
        (if acceptable then true else okn)

-- `rand n` is the result of the n-th call of `rand.Int`.
module _ (goarch : Bytes) (rand : ℕ → ℕ) where
  unfoldable pub create_config : TargetContainer → RunningContainer → ℕ → ContainerCreateConfig
  create_config tctr selected n = record {
    name = join b'_' (codes "devd" ∷ tctr.id ∷ itoa (rand n % 100) ∷ []);
    config = record (tctr.docker_config) {
      labels = insert deviced_id_label tctr.id tctr.docker_config.labels;
      image = join b':' (selected.image ∷ selected.image_tag ∷ []);
    };
    host_config = tctr.docker_host_config;
    networking_config = tctr.docker_networking_config;
  }

  -- The end of the loop's body: the new container of the target.
  unfoldable pub schedule_create : TargetContainer → RunningContainer → Plan → Plan
  schedule_create tctr selected plan = record plan {
    to_create = plan.to_create ++ (create_config tctr selected (length plan.to_create) ∷ []);
    running = insert tctr.id selected plan.running;
  }

  -- `containersToDelete[currentCtr.ApiContainer.ID] = …`; `none` is the panic at a nil pointer.
  unfoldable pub replace_container :
      TargetContainer → RunningContainer → RunningContainer → Plan → Option Plan
  replace_container tctr current selected plan = elim current.api_container [
    | none ↦ none
    | some api ↦ some (
        schedule_create tctr selected
          (record plan { to_delete = insert api.id tctr.lifecycle_hooks.on_stop plan.to_delete }))
  ]

  -- What follows the loop over the images, for a target that has a container (`ok`).
  unfoldable pub settle_running :
      TargetContainer → RunningContainer → RunningContainer → Plan → Option Plan
  settle_running tctr current selected plan =
      if same_container current selected
      then some plan
      else replace_container tctr current selected plan

  -- The same for a target that has none.
  unfoldable pub settle_missing : TargetContainer → RunningContainer × Bool → Plan → Plan
  settle_missing tctr (selected, okn) plan =
      if not okn then plan else schedule_create tctr selected plan

  -- The body of the loop over the targets, where the target has a container.
  unfoldable pub decide_running :
      List (Bytes × List Bytes) → TargetContainer → RunningContainer → Plan → Option Plan
  decide_running available tctr current plan =
      let images = lookup_or tctr.image [] available in
      if current.score == 0
      then some plan
      else if length images == 0
      then some plan
      else settle_running tctr current
          (select_image goarch tctr true current images current false).0 plan

  -- The same, where it has none.
  unfoldable pub decide_missing : List (Bytes × List Bytes) → TargetContainer → Plan → Plan
  decide_missing available tctr plan =
      let images = lookup_or tctr.image [] available in
      if length images == 0
      then plan
      else settle_missing tctr
          (select_image goarch tctr false zero_container images zero_container false) plan

  unfoldable pub decide_target : List (Bytes × List Bytes) → TargetContainer → Plan → Option Plan
  decide_target available tctr plan = elim (lookup tctr.id plan.running) [
    | none ↦ some (decide_missing available tctr plan)
    | some current ↦ decide_running available tctr current plan
  ]

  unfoldable pub decide_targets :
      List (Bytes × List Bytes) → List TargetContainer → Plan → Option Plan
  decide_targets available [] plan = some plan
  decide_targets available (tctr ∷ targets) plan = elim (decide_target available tctr plan) [
    | none ↦ none
    | some next ↦ decide_targets available targets next
  ]
