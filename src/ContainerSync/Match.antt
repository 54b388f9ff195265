-- ===== src/ContainerSync/Match.antt =====
-- pkg/containersync/worker.go, the first loop of `processOnce`: every listed container is kept for
-- its target or scheduled for deletion.
use deviced.Base.{
  ℕ, List, [], ◌∷◌, Option, none, some, Bool, true, false, not, ◌&&◌, Bytes, codes, beq, equal_fold,
  ltb, if◌then◌else◌,
}
use deviced.Base.Assoc.{lookup, lookup_or, insert}
use deviced.Images.{parse_image_and_tag}
use deviced.Docker.{ApiContainer}
use deviced.Config.Target.{TargetContainer, container_version_score}
use deviced.ContainerSync.State.{RunningContainer, Plan}

abbrev pub deviced_id_label : Bytes
deviced_id_label = codes "deviced.id"

unfoldable pub build_running_container : ApiContainer → TargetContainer → ℕ → RunningContainer
build_running_container ctr mt score = record {
  deviced_id = mt.id;
  image = (parse_image_and_tag ctr.image).0;
  image_tag = (parse_image_and_tag ctr.image).1;
  score = score;
  api_container = some ctr;
}

-- The loop that looks for the target, up to its `break`.
unfoldable pub matching_target : ApiContainer → List TargetContainer → Option TargetContainer
matching_target ctr [] = none
matching_target ctr (tctr ∷ targets) =
    let later = matching_target ctr targets in
    if equal_fold tctr.id (lookup_or deviced_id_label [] ctr.labels) then some tctr else later

-- `containersToDelete[ctr.ID] = []config.LifecycleHook{}`
unfoldable pub discard_container : ApiContainer → Plan → Plan
discard_container ctr plan = record plan { to_delete = insert ctr.id [] plan.to_delete }

-- `ctr.State != "running" && !matchingTarget.RestartExited`
unfoldable pub is_dead : ApiContainer → TargetContainer → Bool
is_dead ctr mt = not (beq ctr.state (codes "running")) && not mt.restart_exited

-- Whether `ctr.Names[0]` is there.
abbrev pub has_name : ApiContainer → Bool
has_name ctr = elim ctr.names [ [] ↦ false | name ∷ names ↦ true ]

module _ (goarch : Bytes) where
  -- The score that the target gives to the container's tag.
  unfoldable pub score_of : ApiContainer → TargetContainer → ℕ
  score_of ctr mt = container_version_score goarch mt (parse_image_and_tag ctr.image).1

  -- The first container of a target.
  unfoldable pub keep_container : ApiContainer → TargetContainer → Plan → Plan
  keep_container ctr mt plan = record plan {
    running = insert mt.id (build_running_container ctr mt (score_of ctr mt)) plan.running;
  }

  -- "Choosing container ctr over container val": `api` is the container behind `val`.
  unfoldable pub prefer_new : ApiContainer → TargetContainer → ApiContainer → Plan → Plan
  prefer_new ctr mt api plan = record plan {
    running = insert mt.id (build_running_container ctr mt (score_of ctr mt)) plan.running;
    to_delete = insert api.id mt.lifecycle_hooks.on_stop plan.to_delete;
    to_start = insert ctr.id true plan.to_start;
  }

  -- "Choosing container val over container ctr".
  unfoldable pub prefer_old : ApiContainer → TargetContainer → ApiContainer → Plan → Plan
  prefer_old ctr mt api plan = record plan {
    to_delete = insert ctr.id mt.lifecycle_hooks.on_stop plan.to_delete;
    to_start = insert api.id true plan.to_start;
  }

  -- `otherScore`: the source parses the kept container's `Image`, not the container's.
  unfoldable pub other_score : TargetContainer → RunningContainer → ℕ
  other_score mt val = container_version_score goarch mt (parse_image_and_tag val.image).1

  -- A second container for a target that has one; `none` is the panic at a nil pointer.
  unfoldable pub choose_container :
      ApiContainer → TargetContainer → RunningContainer → Plan → Option Plan
  choose_container ctr mt val plan = elim val.api_container [
    | none ↦ none
    | some api ↦
        if ltb (score_of ctr mt) (other_score mt val)
        then some (prefer_new ctr mt api plan)
        else some (prefer_old ctr mt api plan)
  ]

  -- The body of the loop over the containers, from its second line on.
  unfoldable pub sync_container : List TargetContainer → ApiContainer → Plan → Option Plan
  sync_container targets ctr plan = elim (matching_target ctr targets) [
    | none ↦ some (discard_container ctr plan)
    | some mt ↦
        if is_dead ctr mt
        then some (discard_container ctr plan)
        else elim (lookup mt.id plan.running) [
          | some val ↦ choose_container ctr mt val plan
          | none ↦ some (keep_container ctr mt plan)
        ]
  ]

  -- The first line of the body prints `ctr.Names[0]`, which panics where there is no name.
  unfoldable pub sync_containers : List TargetContainer → List ApiContainer → Plan → Option Plan
  sync_containers targets [] plan = some plan
  sync_containers targets (ctr ∷ ctrs) plan = elim (has_name ctr) [
    | false ↦ none
    | true ↦ elim (sync_container targets ctr plan) [
      | none ↦ none
      | some next ↦ sync_containers targets ctrs next
    ]
  ]
