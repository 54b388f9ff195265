-- ===== src/ContainerSync/Allowed.antt =====
-- What the requests of the single steps of a pass satisfy.
-- About pkg/containersync/worker.go.
use deviced.Base.{
  List, [], ◌∷◌, Option, some, Bool, false, not, ◌&&◌, Bytes, is_empty, ◌≡◌, All, Bool-cases,
  Option-cases, inl, inr,
}
use deviced.Base.Assoc.{lookup}
use deviced.Docker.{ContainerCreateConfig, Call, History, Daemon}
use deviced.Docker.Made.{AreMadeBetween, AreMadeBetween-cons}
use deviced.Config.Target.{LifecycleHook}
use deviced.Config.Document.{DevicedConfig, NetworkCreateRequest}
use deviced.ContainerSync.State.{Plan}
use deviced.ContainerSync.Networks.{
  NetMap, add_networks, create_network, ensure_network, ensure_networks, process_networks,
}
use deviced.ContainerSync.Execute.{
  run_exec, run_hook, run_hooks, is_own, delete_container, delete_containers, start_containers,
}
use deviced.ContainerSync.Pass.{Env}

module _ (W : Call → Type 0) where
  -- The requests that depend on no container.
  pub record AllowsRest : Type 0 where
    pub network_list : W Call.network_list
    pub network_create : (n c : Bytes) → W (Call.network_create n c)
    pub network_inspect : (n : Bytes) → W (Call.network_inspect n)
    pub container_list : W Call.container_list
    pub image_list : W Call.image_list
    pub exec_attach : (n : Bytes) → W (Call.exec_attach n)

  -- The container may be deleted, with its hooks.
  pub record Deletable (cid : Bytes) : Type 0 where
    pub stop : W (Call.container_stop cid)
    pub remove : W (Call.container_remove cid)
    pub exec : (cmd : List Bytes) → W (Call.exec_create cid cmd)

  abbrev pub Startable : Bytes × Bool → Type 0
  Startable (id, b) = W (Call.container_start id)

  -- The requests for a plan's entries.
  pub record AllowsPlan (env : Env) (cfg : DevicedConfig) (plan : Plan) : Type 0 where
    pub deletes :
        All
          (λ (e : Bytes × List LifecycleHook).
            is_own env.reflection e.0 && not cfg.container_config.allow_self_delete ≡ false
            → Deletable e.0)
          (env.delete_order plan.to_delete)
    pub creates : All (λ c. W (Call.container_create c)) plan.to_create
    pub starts : All Startable plan.to_start
    pub created :
        (h : History) (c : ContainerCreateConfig) (id : Bytes)
        → env.daemon.on_container_create h c ≡ some id
        → W (Call.container_start id)
    pub ordered : (m : List (Bytes × Bool)) → All Startable m → All Startable (env.start_order m)

  module _ (d : Daemon) (rest : AllowsRest) (h0 : History) where
    create_network-All :
        (net : NetworkCreateRequest) (nets : NetMap) (h : History)
        → AreMadeBetween W h0 h
        → AreMadeBetween W h0 (create_network d net nets h).1
    unfolding create_network
    create_network-All net nets h s =
        let made = rest.network_create net.name net.network_create in
        let h' = Call.network_create net.name net.network_create ∷ h in
        elim (Option-cases (d.on_network_create h net.name)) [
          | inl e ↦ rw (e, create_network) (AreMadeBetween-cons W h0 _ _ made s)
          | inr (id, e) ↦ elim (Option-cases (d.on_network_inspect h' id)) [
            | inl f ↦
                rw (e, create_network, f, create_network)
                  (AreMadeBetween-cons W h0 _ _ (rest.network_inspect id)
                    (AreMadeBetween-cons W h0 _ _ made s))
            | inr (net', f) ↦
                rw (e, create_network, f, create_network)
                  (AreMadeBetween-cons W h0 _ _ (rest.network_inspect id)
                    (AreMadeBetween-cons W h0 _ _ made s))
          ]
        ]

    ensure_network-All :
        (net : NetworkCreateRequest) (nets : NetMap) (h : History)
        → AreMadeBetween W h0 h
        → AreMadeBetween W h0 (ensure_network d net nets h).1
    unfolding ensure_network
    ensure_network-All net nets h s = elim (Bool-cases (is_empty net.name)) [
      | inl e ↦ rw (e, ensure_network) s
      | inr e ↦ elim (Option-cases (lookup net.name nets)) [
        | inl q ↦ rw (e, q, ensure_network) (create_network-All net nets h s)
        | inr (res, q) ↦ rw (e, q, ensure_network) s
      ]
    ]

    ensure_networks-All :
        (targets : List NetworkCreateRequest) (nets : NetMap) (h : History)
        → AreMadeBetween W h0 h
        → AreMadeBetween W h0 (ensure_networks d targets nets h).1
    unfolding ensure_networks
    ensure_networks-All [] nets h s = s
    ensure_networks-All (net ∷ targets) nets h s =
        let (nets', h') = ensure_network d net nets h in
        ensure_networks-All targets nets' h' (ensure_network-All net nets h s)

    pub process_networks-All :
        (targets : List NetworkCreateRequest) (h : History)
        → AreMadeBetween W h0 h
        → AreMadeBetween W h0 (process_networks d targets h).1
    unfolding process_networks
    process_networks-All targets h s = elim (Option-cases (d.on_network_list h)) [
      | inl e ↦ rw (e, process_networks) (AreMadeBetween-cons W h0 _ _ rest.network_list s)
      | inr (list, e) ↦
          rw (e, process_networks)
            (ensure_networks-All targets (add_networks [] list) _
              (AreMadeBetween-cons W h0 _ _ rest.network_list s))
    ]

    run_hooks-All :
        (cid : Bytes) (hooks : List LifecycleHook) (h : History)
        → Deletable cid
        → AreMadeBetween W h0 h
        → AreMadeBetween W h0 (run_hooks d cid hooks h)
    unfolding run_hooks run_hook run_exec
    run_hooks-All cid [] h ok s = s
    run_hooks-All cid (hook ∷ hooks) h ok s =
        run_hooks-All cid hooks (run_hook d cid hook h) ok hooked
      where
        hooked : AreMadeBetween W h0 (run_hook d cid hook h)
        hooked = elim (Option-cases hook.exec) [
          | inl e ↦ rw (e, run_hook) s
          | inr (exec, e) ↦ elim (Option-cases (d.on_exec_create h cid)) [
            | inl f ↦
                rw (e, run_hook, f, run_exec)
                  (AreMadeBetween-cons W h0 _ _ (ok.exec exec.command) s)
            | inr (id, f) ↦
                rw (e, run_hook, f, run_exec)
                  (AreMadeBetween-cons W h0 _ _ (rest.exec_attach id)
                    (AreMadeBetween-cons W h0 _ _ (ok.exec exec.command) s))
          ]
        ]

    pub delete_containers-All :
        (own : Option Bytes) (allow : Bool) (entries : List (Bytes × List LifecycleHook))
        (h : History)
        → All
            (λ (e : Bytes × List LifecycleHook).
              is_own own e.0 && not allow ≡ false → Deletable e.0)
            entries
        → AreMadeBetween W h0 h
        → AreMadeBetween W h0 (delete_containers d own allow entries h)
    unfolding delete_containers delete_container
    delete_containers-All own allow [] h ok s = s
    delete_containers-All own allow ((cid, hooks) ∷ entries) h (ok, oks) s =
        delete_containers-All own allow entries _ oks
          (elim (Bool-cases (is_own own cid && not allow)) [
            | inl e ↦ rw e s
            | inr e ↦
                let free = ok e in
                rw e (
                  AreMadeBetween-cons W h0 _ _ free.remove
                    (AreMadeBetween-cons W h0 _ _ free.stop (run_hooks-All cid hooks h free s)))
          ])

  pub start_containers-All :
      (h0 : History) (ids : List (Bytes × Bool)) (h : History)
      → All Startable ids
      → AreMadeBetween W h0 h
      → AreMadeBetween W h0 (start_containers ids h)
  unfolding start_containers
  start_containers-All h0 [] h ok s = s
  start_containers-All h0 ((id, _) ∷ ids) h (ok, oks) s =
      start_containers-All h0 ids _ oks (AreMadeBetween-cons W h0 _ _ ok s)
