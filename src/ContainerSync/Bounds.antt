-- ===== src/ContainerSync/Bounds.antt =====
-- How much a pass can create.
-- About pkg/containersync/worker.go.
use deviced.Base.{
  ℕ, ◌+◌, ◌≤◌, List, [], ◌∷◌, some, true, false, Bytes, length, length-append, ◌≡◌, ap, ◌∙◌, subst,
  arith, Option-cases, Bool-cases, inl, inr,
}
use deviced.Base.Assoc.{lookup, lookup_or, insert}
use deviced.Images.{ImageSummary, build_image_map}
use deviced.Docker.{ApiContainer, Call, History}
use deviced.Config.Target.{TargetContainer}
use deviced.Config.Document.{DevicedConfig}
use deviced.ContainerSync.State.{RunningContainer, Plan, empty_plan}
use deviced.ContainerSync.Match.{
  discard_container, keep_container, prefer_new, prefer_old, choose_container, sync_container,
  sync_containers, has_name,
}
use deviced.ContainerSync.Choose.{
  create_config, schedule_create, replace_container, settle_running, settle_missing, decide_running,
  decide_missing, decide_target, decide_targets, select_image, zero_container,
}
use deviced.ContainerSync.Networks.{NetMap, process_networks}
use deviced.ContainerSync.Execute.{delete_containers, create_containers}
use deviced.ContainerSync.Warrants.{some-inj}
use deviced.ContainerSync.Pass.{
  Env, history_of, execute, make_plan, reconcile, list_and_reconcile, process_once,
}
use deviced.ContainerSync.Creations.{
  creations, process_networks-creations, delete_containers-creations, create_containers-creations,
  start_containers-creations,
}

-- The loop over the containers creates none.
sync_container-to_create :
    (goarch : Bytes) (targets : List TargetContainer) (ctr : ApiContainer) (plan : Plan)
    {next : Plan}
    → sync_container goarch targets ctr plan ≡ some next
    → next.to_create ≡ plan.to_create
unfolding sync_container choose_container discard_container keep_container prefer_new prefer_old
sync_container-to_create goarch targets ctr plan e = ground arith

sync_containers-to_create :
    (goarch : Bytes) (targets : List TargetContainer) (ctrs : List ApiContainer) (plan : Plan)
    {next : Plan}
    → sync_containers goarch targets ctrs plan ≡ some next
    → next.to_create ≡ plan.to_create
unfolding sync_containers
sync_containers-to_create goarch targets [] plan e = cc
sync_containers-to_create goarch targets (ctr ∷ ctrs) plan {next} e =
    elim (Bool-cases (has_name ctr)) [
      | inr z ↦ let x = (rw (z, sync_containers) at e) in absurd (cc)
      | inl y ↦ elim (Option-cases (sync_container goarch targets ctr plan)) [
        | inl n ↦ let x = (rw (y, n, sync_containers) at e) in absurd (cc)
        | inr (mid, q) ↦
            sync_containers-to_create goarch targets ctrs mid (rw (y, q, sync_containers) at e)
            ∙ sync_container-to_create goarch targets ctr plan q
      ]
    ]

module _ (goarch : Bytes) (rand : ℕ → ℕ) (available : List (Bytes × List Bytes)) where
  schedule_create-length :
      (t : TargetContainer) (selected : RunningContainer) (plan : Plan)
      → length (schedule_create goarch rand t selected plan).to_create ≡ length plan.to_create + 1
  unfolding schedule_create
  schedule_create-length t selected plan =
      length-append plan.to_create
        (create_config goarch rand t selected (length plan.to_create) ∷ [])

  decide_missing-length :
      (t : TargetContainer) (plan : Plan)
      → length (decide_missing goarch rand available t plan).to_create ≤ length plan.to_create + 1
  unfolding decide_missing settle_missing
  decide_missing-length t plan =
      let (selected, okn) =
        select_image goarch t false zero_container (lookup_or t.image [] available) zero_container
          false in
      ground (arith, schedule_create-length t selected plan)

  decide_running-length :
      (t : TargetContainer) (current : RunningContainer) (plan : Plan) {next : Plan}
      → decide_running goarch rand available t current plan ≡ some next
      → length next.to_create ≤ length plan.to_create + 1
  unfolding decide_running settle_running replace_container
  decide_running-length t current plan {next} e =
      let selected =
        (select_image goarch t true current (lookup_or t.image [] available) current false).0 in
      elim (Option-cases current.api_container) [
        | inl n ↦ ground arith
        | inr (api, has) ↦
            let deleting : Plan = record plan {
              to_delete = insert api.id t.lifecycle_hooks.on_stop plan.to_delete;
            } in
            ground (arith, schedule_create-length t selected deleting)
      ]

  -- A round of the loop over the targets creates one container at most.
  decide_target-length :
      (t : TargetContainer) (plan : Plan) {next : Plan}
      → decide_target goarch rand available t plan ≡ some next
      → length next.to_create ≤ length plan.to_create + 1
  unfolding decide_target
  decide_target-length t plan e = elim (Option-cases (lookup t.id plan.running)) [
    | inl gone ↦
        let same = some-inj (rw (gone, decide_target) at e) in
        subst (λ (p : Plan). length p.to_create ≤ length plan.to_create + 1) same
          (decide_missing-length t plan)
    | inr (current, at) ↦ decide_running-length t current plan (rw (at, decide_target) at e)
  ]

  decide_targets-length :
      (ts : List TargetContainer) (plan : Plan) {last : Plan}
      → decide_targets goarch rand available ts plan ≡ some last
      → length last.to_create ≤ length plan.to_create + length ts
  unfolding decide_targets
  decide_targets-length [] plan {last} e =
      let same : plan ≡ last = cc in
      subst (λ (p : Plan). length p.to_create ≤ length plan.to_create + 0) same (omega arith)
  decide_targets-length (t ∷ ts) plan e =
      elim (Option-cases (decide_target goarch rand available t plan)) [
        | inl n ↦ let x = (rw (n, decide_targets) at e) in absurd (cc)
        | inr (mid, q) ↦
            let first = decide_target-length t plan q in
            let rest = decide_targets-length ts mid (rw (q, decide_targets) at e) in omega arith
      ]

module _ (env : Env) (cfg : DevicedConfig) where
  make_plan-length :
      (ctrs : List ApiContainer) (images : List ImageSummary) {plan : Plan}
      → make_plan env cfg ctrs images ≡ some plan
      → length plan.to_create ≤ length cfg.containers
  unfolding make_plan empty_plan
  make_plan-length ctrs images e =
      elim (Option-cases (sync_containers env.goarch cfg.containers ctrs empty_plan)) [
        | inl n ↦ let x = (rw (n, make_plan) at e) in absurd (cc)
        | inr (mid, q) ↦
            let none_yet =
              ap length (sync_containers-to_create env.goarch cfg.containers ctrs empty_plan q) in
            let made =
              decide_targets-length env.goarch env.rand (build_image_map images) cfg.containers mid
                (rw (q, make_plan) at e) in
            omega arith
      ]

  execute-creations :
      (nets : NetMap) (plan : Plan) (h : History)
      → creations (execute env cfg nets plan h) ≤ creations h + length plan.to_create
  unfolding execute
  execute-creations nets plan h =
      let allow = cfg.container_config.allow_self_delete in
      let entries = env.delete_order plan.to_delete in
      let h1 = delete_containers env.daemon env.reflection allow entries h in
      let deleted = delete_containers-creations env.daemon env.reflection allow entries h in
      let made =
        create_containers-creations env.daemon env.network_name nets plan.to_create plan.to_start
          h1 in
      let (starts, h2) =
        create_containers env.daemon env.network_name nets plan.to_create plan.to_start h1 in
      let started = start_containers-creations (env.start_order starts) h2 in omega arith

  reconcile-creations :
      (nets : NetMap) (ctrs : List ApiContainer) (h : History)
      → creations (history_of (reconcile env cfg nets ctrs h)) ≤ creations h + length cfg.containers
  unfolding reconcile creations
  reconcile-creations nets ctrs h = elim (Option-cases (env.daemon.on_image_list h)) [
    | inl e ↦ rw (e, reconcile) (omega arith)
    | inr (images, e) ↦ elim (Option-cases (make_plan env cfg ctrs images)) [
      | inl p ↦ rw (e, reconcile, p, reconcile) (omega arith)
      | inr (plan, p) ↦
          let planned = make_plan-length ctrs images p in
          let made = execute-creations nets plan (Call.image_list ∷ h) in
          rw (e, reconcile, p, reconcile) (omega arith)
    ]
  ]

  list_and_reconcile-creations :
      (nets : NetMap) (h : History)
      → creations (history_of (list_and_reconcile env cfg nets h))
        ≤ creations h + length cfg.containers
  unfolding list_and_reconcile creations
  list_and_reconcile-creations nets h = elim (Option-cases (env.daemon.on_container_list h)) [
    | inl e ↦ ground (arith, reconcile-creations nets [] (Call.container_list ∷ h))
    | inr (ctrs, e) ↦ ground (arith, reconcile-creations nets ctrs (Call.container_list ∷ h))
  ]

  -- Whatever Docker answers, a pass asks for no more new networks and containers than the configuration has
  -- networks and targets.
  pub process_once-creations :
      (h : History)
      → creations (history_of (process_once env cfg h))
        ≤ creations h + length cfg.networks + length cfg.containers
  unfolding process_once
  process_once-creations h =
      let (nets, h') = process_networks env.daemon cfg.networks h in
      let networks = process_networks-creations env.daemon cfg.networks h in
      let containers = list_and_reconcile-creations nets h' in omega arith
