-- ===== src/ContainerSync/Pass.antt =====
-- pkg/containersync/worker.go: `processOnce` as a whole. The locks that it holds are in
-- Workers.antt.
use deviced.Base.{
  ℕ, List, [], ◌∷◌, Option, none, some, Bool, true, false, not, Bytes, if◌then◌else◌,
}
use deviced.Images.{ImageSummary, build_image_map}
use deviced.Docker.{ApiContainer, Call, History, Daemon}
use deviced.Config.Target.{LifecycleHook}
use deviced.Config.Document.{DevicedConfig}
use deviced.ContainerSync.State.{Plan, empty_plan}
use deviced.ContainerSync.Match.{sync_containers}
use deviced.ContainerSync.Choose.{decide_targets}
use deviced.ContainerSync.Networks.{NetMap, process_networks}
use deviced.ContainerSync.Execute.{delete_containers, create_containers, start_containers}

-- What a wait on the wake channel with a timeout ends by.
pub data Sleep : Type 0 where
  elapsed : Sleep
  woken : Sleep
  closed : Sleep

unfoldable pub sleep_should_quit : Sleep → Bool
sleep_should_quit Sleep.elapsed = false
sleep_should_quit Sleep.woken = false
sleep_should_quit Sleep.closed = true

-- The worker's surroundings. Go iterates over a map in an order of its own: `delete_order` and
-- `start_order` stand for it.
pub record Env : Type 0 where
  pub daemon : Daemon
  pub goarch : Bytes
  pub rand : ℕ → ℕ
  pub network_name : Bytes → Bytes
  pub filter_parses : Bool
  pub sleep_result : History → Sleep
  pub reflection : Option Bytes
  pub delete_order : List (Bytes × List LifecycleHook) → List (Bytes × List LifecycleHook)
  pub start_order : List (Bytes × Bool) → List (Bytes × Bool)

pub data Outcome : Type 0 where
  finished : History → Outcome
  gave_up : History → Outcome
  panicked : History → Outcome

abbrev pub history_of : Outcome → History
history_of (finished h) = h
history_of (gave_up h) = h
history_of (panicked h) = h

module _ (env : Env) (cfg : DevicedConfig) where
  -- The last three loops.
  unfoldable pub execute : NetMap → Plan → History → History
  execute nets plan h =
      let allow = cfg.container_config.allow_self_delete in
      let h1 =
        delete_containers env.daemon env.reflection allow (env.delete_order plan.to_delete) h in
      let (to_start, h2) =
        create_containers env.daemon env.network_name nets plan.to_create plan.to_start h1 in
      start_containers (env.start_order to_start) h2

  -- The two loops that fill the maps.
  unfoldable pub make_plan : List ApiContainer → List ImageSummary → Option Plan
  make_plan containers images =
      elim (sync_containers env.goarch cfg.containers containers empty_plan) [
        | none ↦ none
        | some plan ↦
            decide_targets env.goarch env.rand (build_image_map images) cfg.containers plan
      ]

  -- From the request for the images on.
  unfoldable pub reconcile : NetMap → List ApiContainer → History → Outcome
  reconcile nets containers h = elim (env.daemon.on_image_list h) [
    | none ↦ gave_up (Call.image_list ∷ h)
    | some images ↦ elim (make_plan containers images) [
      | none ↦ panicked (Call.image_list ∷ h)
      | some plan ↦ finished (execute nets plan (Call.image_list ∷ h))
    ]
  ]

  -- The containers, or a wait: unless the wake channel is closed during it, the pass goes on with
  -- an empty list.
  unfoldable pub list_and_reconcile : NetMap → History → Outcome
  list_and_reconcile nets h =
      if not env.filter_parses then gave_up h else elim (env.daemon.on_container_list h) [
        | some containers ↦ reconcile nets containers (Call.container_list ∷ h)
        | none ↦
            if sleep_should_quit (env.sleep_result (Call.container_list ∷ h))
            then gave_up (Call.container_list ∷ h)
            else reconcile nets [] (Call.container_list ∷ h)
      ]

  unfoldable pub process_once : History → Outcome
  process_once h =
      let (nets, h') = process_networks env.daemon cfg.networks h in list_and_reconcile nets h'
