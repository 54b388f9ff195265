-- ===== src/ContainerSync/MoreRequests.antt =====
-- What the loops of a pass keep, since they only make more requests.
-- About pkg/containersync/worker.go.
use deviced.Base.{List, [], ◌∷◌, Option, Bool, not, ◌&&◌, Bytes, Bool-cases, Option-cases, inl, inr}
use deviced.Docker.{ContainerCreateConfig, Call, History, Daemon}
use deviced.Config.Target.{LifecycleHook}
use deviced.ContainerSync.Networks.{NetMap}
use deviced.ContainerSync.Execute.{
  run_exec, run_hook, run_hooks, is_own, delete_container, delete_containers, create_container,
  create_containers, start_containers, has_network,
}

-- What more requests keep, the loops keep.
module _ (d : Daemon) (P : History → Type 0)
    (more : (x : Call) (h : History) → P h → P (x ∷ h)) where
  pub run_hook-keeps :
      (cid : Bytes) (hook : LifecycleHook) (h : History) → P h → P (run_hook d cid hook h)
  unfolding run_hook run_exec
  run_hook-keeps cid hook h m = elim (Option-cases hook.exec) [
    | inl n ↦ rw (n, run_hook) m
    | inr (exec, e) ↦ elim (Option-cases (d.on_exec_create h cid)) [
      | inl n ↦ rw (e, run_hook, n, run_exec) (more _ _ m)
      | inr (id, y) ↦ rw (e, run_hook, y, run_exec) (more _ _ (more _ _ m))
    ]
  ]

  pub run_hooks-keeps :
      (cid : Bytes) (hooks : List LifecycleHook) (h : History) → P h → P (run_hooks d cid hooks h)
  unfolding run_hooks
  run_hooks-keeps cid [] h m = m
  run_hooks-keeps cid (hook ∷ hooks) h m =
      run_hooks-keeps cid hooks (run_hook d cid hook h) (run_hook-keeps cid hook h m)

  pub delete_container-keeps :
      (own : Option Bytes) (allow : Bool) (entry : Bytes × List LifecycleHook) (h : History)
      → P h
      → P (delete_container d own allow entry h)
  unfolding delete_container
  delete_container-keeps own allow (cid, hooks) h m =
      elim (Bool-cases (is_own own cid && not allow)) [
        | inl e ↦ rw e m
        | inr e ↦ rw e (more _ _ (more _ _ (run_hooks-keeps cid hooks h m)))
      ]

  pub delete_containers-keeps :
      (own : Option Bytes) (allow : Bool) (entries : List (Bytes × List LifecycleHook))
      (h : History)
      → P h
      → P (delete_containers d own allow entries h)
  unfolding delete_containers
  delete_containers-keeps own allow [] h m = m
  delete_containers-keeps own allow (entry ∷ entries) h m =
      delete_containers-keeps own allow entries (delete_container d own allow entry h)
        (delete_container-keeps own allow entry h m)

  pub create_container-keeps :
      (nn : Bytes → Bytes) (nets : NetMap) (ctr : ContainerCreateConfig)
      (starts : List (Bytes × Bool)) (h : History)
      → P h
      → P (create_container d nn nets ctr starts h).1
  unfolding create_container
  create_container-keeps nn nets ctr starts h m = elim (Bool-cases (has_network d nn nets ctr)) [
    | inr n ↦ rw n m
    | inl y ↦ elim (Option-cases (d.on_container_create h ctr)) [
      | inl n ↦ rw (y, n, create_container) (more _ _ m)
      | inr (id, e) ↦ rw (y, e, create_container) (more _ _ m)
    ]
  ]

  pub create_containers-keeps :
      (nn : Bytes → Bytes) (nets : NetMap) (ctrs : List ContainerCreateConfig)
      (starts : List (Bytes × Bool)) (h : History)
      → P h
      → P (create_containers d nn nets ctrs starts h).1
  unfolding create_containers
  create_containers-keeps nn nets [] starts h m = m
  create_containers-keeps nn nets (ctr ∷ ctrs) starts h m =
      let (starts', h') = create_container d nn nets ctr starts h in
      create_containers-keeps nn nets ctrs starts' h'
        (create_container-keeps nn nets ctr starts h m)

  pub start_containers-keeps :
      (ids : List (Bytes × Bool)) (h : History) → P h → P (start_containers ids h)
  unfolding start_containers
  start_containers-keeps [] h m = m
  start_containers-keeps ((id, _) ∷ ids) h m = start_containers-keeps ids _ (more _ _ m)
