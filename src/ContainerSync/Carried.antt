-- ===== src/ContainerSync/Carried.antt =====
-- Scheduled deletions and the loops that carry them out.
-- About pkg/containersync/worker.go.
use deviced.Base.{
  List, [], ◌∷◌, Option, Bool, true, false, not, ◌&&◌, Bytes, ◌≡◌, refl, ap, Elem, Option-cases,
  subst, sym, inl, inr,
}
use deviced.Docker.{ContainerCreateConfig, Call, History, Daemon}
use deviced.Docker.Made.{
  IsLater, IsLater-cons, IsMadeBetween, IsMadeBetween-cons, IsMadeBetween-last,
  IsMadeBetween-earlier,
}
use deviced.Config.Target.{LifecycleHook}
use deviced.Config.Document.{DevicedConfig}
use deviced.ContainerSync.State.{Plan}
use deviced.ContainerSync.Networks.{NetMap}
use deviced.ContainerSync.Execute.{
  is_own, delete_container, delete_containers, create_container, create_containers, has_network,
}
use deviced.ContainerSync.Pass.{Env, execute}
use deviced.ContainerSync.MoreRequests.{
  run_hooks-keeps, delete_container-keeps, delete_containers-keeps, create_container-keeps,
  create_containers-keeps, start_containers-keeps,
}

module _ (d : Daemon) (own : Option Bytes) (allow : Bool) where
  -- An entry that is not the protected container itself is stopped and removed.
  delete_containers-asks :
      (entries : List (Bytes × List LifecycleHook)) (h : History) (cid : Bytes)
      (hooks : List LifecycleHook)
      → is_own own cid && not allow ≡ false
      → Elem (cid, hooks) entries
      → let after = delete_containers d own allow entries h in
        IsMadeBetween (Call.container_stop cid) h after
        × IsMadeBetween (Call.container_remove cid) h after
  unfolding delete_containers delete_container
  delete_containers-asks [] h cid hooks ne m = elim m [ ]
  delete_containers-asks (entry ∷ entries) h cid hooks ne (inr m) =
      let h' = delete_container d own allow entry h in
      let after = delete_containers d own allow entries h' in
      let later =
        delete_container-keeps d (IsLater h) (λ x k. IsLater-cons h k x) own allow entry h
          ([], refl) in
      let (stopped, removed) = delete_containers-asks entries h' cid hooks ne m in
      (
        IsMadeBetween-earlier (Call.container_stop cid) h h' after later stopped,
        IsMadeBetween-earlier (Call.container_remove cid) h h' after later removed,
      )
  delete_containers-asks ((i, hs) ∷ entries) h cid hooks ne (inl e) =
      let same : i ≡ cid = ap (λ (r : Bytes × List LifecycleHook). r.0) e in
      let hooked = run_hooks-keeps d (IsLater h) (λ x k. IsLater-cons h k x) cid hs h ([], refl) in
      let stop = Call.container_stop cid in
      let remove = Call.container_remove cid in
      rw (same, ne)
        (
          delete_containers-keeps d (IsMadeBetween stop h) (λ x k. IsMadeBetween-cons stop h k x)
              own allow entries _
              (IsMadeBetween-cons stop h _ _ (IsMadeBetween-last stop h _ _ refl hooked)),
          delete_containers-keeps d (IsMadeBetween remove h)
              (λ x k. IsMadeBetween-cons remove h k x) own allow entries _
              (IsMadeBetween-last remove h _ _ refl (IsLater-cons h _ _ hooked)),
        )

module _ (d : Daemon) (nn : Bytes → Bytes) (nets : NetMap) where
  create_container-asks :
      (starts : List (Bytes × Bool)) (h : History) (c : ContainerCreateConfig)
      → has_network d nn nets c ≡ true
      → IsMadeBetween (Call.container_create c) h (create_container d nn nets c starts h).1
  unfolding create_container
  create_container-asks starts h c known =
      let last = IsMadeBetween-last (Call.container_create c) h h _ refl ([], refl) in
      elim (Option-cases (d.on_container_create h c)) [
        | inl n ↦ rw (known, n, create_container) last
        | inr (id, y) ↦ rw (known, y, create_container) last
      ]

  -- A container that is to be created and whose network is known is asked for.
  create_containers-asks :
      (ctrs : List ContainerCreateConfig) (starts : List (Bytes × Bool)) (h : History)
      (c : ContainerCreateConfig)
      → has_network d nn nets c ≡ true
      → Elem c ctrs
      → IsMadeBetween (Call.container_create c) h (create_containers d nn nets ctrs starts h).1
  unfolding create_containers create_container
  create_containers-asks [] starts h c known m = elim m [ ]
  create_containers-asks (x ∷ ctrs) starts h c known (inl e) =
      let call = Call.container_create c in
      let asked =
        subst (λ y. IsMadeBetween call h (create_container d nn nets y starts h).1) (sym e)
          (create_container-asks starts h c known) in
      create_containers-keeps d (IsMadeBetween call h) (λ x k. IsMadeBetween-cons call h k x) nn
        nets ctrs _ _ asked
  create_containers-asks (x ∷ ctrs) starts h c known (inr m) =
      let call = Call.container_create c in
      let (starts', h') = create_container d nn nets x starts h in
      IsMadeBetween-earlier call h h' _
        (create_container-keeps d (IsLater h) (λ x k. IsLater-cons h k x) nn nets x starts h
          ([], refl))
        (create_containers-asks ctrs starts' h' c known m)

-- A container that the plan creates is asked for, if its network is known.
pub execute_creates :
    (env : Env) (cfg : DevicedConfig) (nets : NetMap) (plan : Plan) (h : History)
    (c : ContainerCreateConfig)
    → has_network env.daemon env.network_name nets c ≡ true
    → Elem c plan.to_create
    → IsMadeBetween (Call.container_create c) h (execute env cfg nets plan h)
unfolding execute
execute_creates env cfg nets plan h c known m =
    let call = Call.container_create c in
    let allow = cfg.container_config.allow_self_delete in
    let entries = env.delete_order plan.to_delete in
    let h' = delete_containers env.daemon env.reflection allow entries h in
    let deleted =
      delete_containers-keeps env.daemon (IsLater h) (λ x k. IsLater-cons h k x) env.reflection
        allow entries h ([], refl) in
    start_containers-keeps env.daemon (IsMadeBetween call h) (λ x k. IsMadeBetween-cons call h k x)
      _ _
      (IsMadeBetween-earlier call h h' _ deleted (
        create_containers-asks env.daemon env.network_name nets plan.to_create plan.to_start h' c
          known m))

-- Every container that the plan schedules for deletion, other than the worker's own where it is
-- protected, is stopped and removed by the pass that carries the plan out, whatever Docker answers to
-- the requests and whatever order the map is walked in, if the walk meets every entry.
pub execute_deletes :
    (env : Env) (cfg : DevicedConfig) (nets : NetMap) (plan : Plan) (h : History) (cid : Bytes)
    (hooks : List LifecycleHook)
    → ((e : Bytes × List LifecycleHook)
        → Elem e plan.to_delete
        → Elem e (env.delete_order plan.to_delete))
    → is_own env.reflection cid && not cfg.container_config.allow_self_delete ≡ false
    → Elem (cid, hooks) plan.to_delete
    → IsMadeBetween (Call.container_stop cid) h (execute env cfg nets plan h)
      × IsMadeBetween (Call.container_remove cid) h (execute env cfg nets plan h)
unfolding execute
execute_deletes env cfg nets plan h cid hooks walk ne m =
    let (stopped, removed) =
      delete_containers-asks env.daemon env.reflection cfg.container_config.allow_self_delete
        (env.delete_order plan.to_delete) h cid hooks ne (walk (cid, hooks) m) in
    (rest (Call.container_stop cid) stopped, rest (Call.container_remove cid) removed)
  where
    rest :
        (c : Call)
        → IsMadeBetween c h (
            delete_containers env.daemon env.reflection cfg.container_config.allow_self_delete
              (env.delete_order plan.to_delete)
              h)
        → IsMadeBetween c h (execute env cfg nets plan h)
    rest c made =
        unfold execute in
        start_containers-keeps env.daemon (IsMadeBetween c h) (λ x k. IsMadeBetween-cons c h k x) _
          _
          (create_containers-keeps env.daemon (IsMadeBetween c h)
            (λ x k. IsMadeBetween-cons c h k x) env.network_name nets plan.to_create plan.to_start _
            made)
