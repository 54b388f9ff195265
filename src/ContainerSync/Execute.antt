-- ===== src/ContainerSync/Execute.antt =====
-- pkg/containersync/worker.go, the last three loops of `processOnce`: deletions with their stop
-- hooks, creations, and starts. Waiting for a hook makes no request.
use deviced.Base.{
  List, [], ◌∷◌, Option, none, some, Bool, true, false, not, ◌&&◌, Bytes, beq, is_empty,
  if◌then◌else◌,
}
use deviced.Base.Assoc.{lookup, insert}
use deviced.Docker.{ContainerCreateConfig, Call, History, Daemon}
use deviced.Config.Target.{LifecycleHook, LifecycleExecHook}
use deviced.ContainerSync.Networks.{NetMap}

-- `cw.Reflection != nil && cw.Reflection.Container.ID == cid`
unfoldable pub is_own : Option Bytes → Bytes → Bool
is_own none cid = false
is_own (some own) cid = beq own cid

module _ (d : Daemon) where
  open d use {on_exec_create, on_container_create}

  -- A failure ends the hook, and the next one runs.
  unfoldable pub run_exec : Bytes → LifecycleExecHook → History → History
  run_exec cid exec h =
      let h' = Call.exec_create cid exec.command ∷ h in
      elim (on_exec_create h cid) [ none ↦ h' | some id ↦ Call.exec_attach id ∷ h' ]

  unfoldable pub run_hook : Bytes → LifecycleHook → History → History
  run_hook cid hook h = elim hook.exec [ none ↦ h | some exec ↦ run_exec cid exec h ]

  unfoldable pub run_hooks : Bytes → List LifecycleHook → History → History
  run_hooks cid [] h = h
  run_hooks cid (hook ∷ hooks) h = run_hooks cid hooks (run_hook cid hook h)

  -- The body of the loop over `containersToDelete`; an error of `stop` or `remove` is only printed.
  unfoldable pub delete_container :
      Option Bytes → Bool → Bytes × List LifecycleHook → History → History
  unfolding is_own
  delete_container reflection allow_self_delete (cid, hooks) h =
      if is_own reflection cid && not allow_self_delete
      then h
      else Call.container_remove cid ∷ Call.container_stop cid ∷ run_hooks cid hooks h

  unfoldable pub delete_containers :
      Option Bytes → Bool → List (Bytes × List LifecycleHook) → History → History
  delete_containers reflection allow_self_delete [] h = h
  delete_containers reflection allow_self_delete (entry ∷ entries) h =
      delete_containers reflection allow_self_delete entries
        (delete_container reflection allow_self_delete entry h)

  -- `ctr.HostConfig.NetworkMode.NetworkName()` is Docker's.
  module _ (network_name : Bytes → Bytes) where
    unfoldable pub has_network : NetMap → ContainerCreateConfig → Bool
    has_network nets ctr =
        if is_empty ctr.host_config.network_mode
        then true
        else elim (lookup (network_name ctr.host_config.network_mode) nets) [
          | none ↦ false
          | some _ ↦ true
        ]

    unfoldable pub create_container :
        NetMap
        → ContainerCreateConfig
        → List (Bytes × Bool)
        → History
        → List (Bytes × Bool) × History
    create_container nets ctr to_start h =
        if has_network nets ctr
        then elim (on_container_create h ctr) [
          | none ↦ (to_start, Call.container_create ctr ∷ h)
          | some id ↦ (insert id true to_start, Call.container_create ctr ∷ h)
        ]
        else (to_start, h)

    unfoldable pub create_containers :
        NetMap
        → List ContainerCreateConfig
        → List (Bytes × Bool)
        → History
        → List (Bytes × Bool) × History
    create_containers nets [] to_start h = (to_start, h)
    create_containers nets (ctr ∷ ctrs) to_start h =
        let (to_start', h') = create_container nets ctr to_start h in
        create_containers nets ctrs to_start' h'

-- An error of `start` is only printed.
unfoldable pub start_containers : List (Bytes × Bool) → History → History
start_containers [] h = h
start_containers ((id, _) ∷ ids) h = start_containers ids (Call.container_start id ∷ h)
