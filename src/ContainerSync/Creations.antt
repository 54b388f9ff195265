-- ===== src/ContainerSync/Creations.antt =====
-- How many requests to create something the steps of a pass make.
-- About pkg/containersync/worker.go.
use deviced.Base.{
  ℕ, suc, ◌+◌, ◌≤◌, List, [], ◌∷◌, Option, Bool, Bytes, length, ◌≡◌, refl, arith, Option-cases, inl,
  inr,
}
use deviced.Docker.{ContainerCreateConfig, Call, History, Daemon}
use deviced.Config.Target.{LifecycleHook}
use deviced.Config.Document.{NetworkCreateRequest}
use deviced.ContainerSync.Networks.{
  NetMap, add_networks, create_network, ensure_network, ensure_networks, process_networks,
}
use deviced.ContainerSync.Execute.{
  run_exec, run_hook, run_hooks, delete_container, delete_containers, create_container,
  create_containers, start_containers,
}

-- The requests that create a network or a container.
unfoldable pub creations : History → ℕ
creations [] = 0
creations (Call.network_create n c ∷ h) = suc (creations h)
creations (Call.container_create c ∷ h) = suc (creations h)
creations (_ ∷ h) = creations h

module _ (d : Daemon) where
  create_network-creations :
      (net : NetworkCreateRequest) (nets : NetMap) (h : History)
      → creations (create_network d net nets h).1 ≡ creations h + 1
  unfolding create_network creations
  create_network-creations net nets h = ground arith

  ensure_networks-creations :
      (targets : List NetworkCreateRequest) (nets : NetMap) (h : History)
      → creations (ensure_networks d targets nets h).1 ≤ creations h + length targets
  unfolding ensure_networks ensure_network
  ensure_networks-creations [] nets h = omega arith
  ensure_networks-creations (net ∷ targets) nets h =
      let (nets', h') = ensure_network d net nets h in
      let first = create_network-creations net nets h in
      let rest = ensure_networks-creations targets nets' h' in ground (arith, first, rest)

  pub process_networks-creations :
      (targets : List NetworkCreateRequest) (h : History)
      → creations (process_networks d targets h).1 ≤ creations h + length targets
  unfolding process_networks creations
  process_networks-creations targets h = elim (Option-cases (d.on_network_list h)) [
    | inl e ↦ rw (e, process_networks) (omega arith)
    | inr (list, e) ↦
        rw (e, process_networks)
          (ensure_networks-creations targets (add_networks [] list) (Call.network_list ∷ h))
  ]

  run_hooks-creations :
      (cid : Bytes) (hooks : List LifecycleHook) (h : History)
      → creations (run_hooks d cid hooks h) ≡ creations h
  unfolding run_hooks run_hook run_exec creations
  run_hooks-creations cid [] h = refl
  run_hooks-creations cid (hook ∷ hooks) h =
      ground (arith, run_hooks-creations cid hooks (run_hook d cid hook h))

  pub delete_containers-creations :
      (own : Option Bytes) (allow : Bool) (entries : List (Bytes × List LifecycleHook))
      (h : History)
      → creations (delete_containers d own allow entries h) ≡ creations h
  unfolding delete_containers delete_container creations
  delete_containers-creations own allow [] h = refl
  delete_containers-creations own allow ((cid, hooks) ∷ entries) h = ground (
    arith,
    delete_containers-creations own allow entries (delete_container d own allow (cid, hooks) h),
    run_hooks-creations cid hooks h,
  )

  pub create_containers-creations :
      (name : Bytes → Bytes) (nets : NetMap) (ctrs : List ContainerCreateConfig)
      (starts : List (Bytes × Bool)) (h : History)
      → creations (create_containers d name nets ctrs starts h).1 ≤ creations h + length ctrs
  unfolding create_containers create_container creations
  create_containers-creations name nets [] starts h = omega arith
  create_containers-creations name nets (c ∷ ctrs) starts h =
      let (starts', h') = create_container d name nets c starts h in
      ground (arith, create_containers-creations name nets ctrs starts' h')

pub start_containers-creations :
    (ids : List (Bytes × Bool)) (h : History) → creations (start_containers ids h) ≡ creations h
unfolding start_containers creations
start_containers-creations [] h = refl
start_containers-creations ((id, _) ∷ ids) h =
    start_containers-creations ids (Call.container_start id ∷ h)
