-- ===== src/ContainerSync/Requests.antt =====
-- What every request of a pass satisfies, if the requests for the entries of its plan do.
-- About pkg/containersync/worker.go.
use deviced.Base.{
  List, [], ◌∷◌, some, Bool, true, Bytes, ◌≡◌, refl, All, Bool-cases, Option-cases, inl, inr,
}
use deviced.Base.Assoc.{get_or}
use deviced.Images.{ImageSummary}
use deviced.Docker.{ContainerCreateConfig, ApiContainer, Call, History}
use deviced.Docker.Made.{AreMadeBetween, AreMadeBetween-cons}
use deviced.Config.Document.{DevicedConfig}
use deviced.ContainerSync.State.{Plan}
use deviced.ContainerSync.Networks.{NetMap, process_networks}
use deviced.ContainerSync.Execute.{
  delete_containers, has_network, create_container, create_containers,
}
use deviced.ContainerSync.Pass.{
  Env, history_of, execute, make_plan, reconcile, list_and_reconcile, process_once,
  sleep_should_quit,
}
use deviced.ContainerSync.Allowed.{
  AllowsRest, Startable, AllowsPlan, process_networks-All, delete_containers-All,
  start_containers-All,
}
use deviced.Base.Assoc.{All-insert}

module _ (W : Call → Type 0) (h0 : History) where
  module _ (env : Env) (cfg : DevicedConfig) (plan : Plan) (ok : AllowsPlan W env cfg plan) where
    create_container-All :
        (nets : NetMap) (c : ContainerCreateConfig) (starts : List (Bytes × Bool)) (h : History)
        → W (Call.container_create c)
        → All (Startable W) starts
        → AreMadeBetween W h0 h
        → let after = create_container env.daemon env.network_name nets c starts h in
          All (Startable W) after.0 × AreMadeBetween W h0 after.1
    unfolding create_container
    create_container-All nets c starts h may st s =
        elim (Bool-cases (has_network env.daemon env.network_name nets c)) [
          | inr n ↦ rw n (st, s)
          | inl y ↦ elim (Option-cases (env.daemon.on_container_create h c)) [
            | inl e ↦ rw (y, e, create_container) (st, AreMadeBetween-cons W h0 _ _ may s)
            | inr (id, e) ↦
                rw (y, e, create_container)
                  (
                    All-insert (Startable W) id true starts (ok.created h c id e) st,
                    AreMadeBetween-cons W h0 _ _ may s,
                  )
          ]
        ]

    create_containers-All :
        (nets : NetMap) (ctrs : List ContainerCreateConfig) (starts : List (Bytes × Bool))
        (h : History)
        → All (λ c. W (Call.container_create c)) ctrs
        → All (Startable W) starts
        → AreMadeBetween W h0 h
        → let after = create_containers env.daemon env.network_name nets ctrs starts h in
          All (Startable W) after.0 × AreMadeBetween W h0 after.1
    unfolding create_containers
    create_containers-All nets [] starts h may st s = (st, s)
    create_containers-All nets (c ∷ ctrs) starts h (may, mays) st s =
        let (starts', h') = create_container env.daemon env.network_name nets c starts h in
        let (st', s') = create_container-All nets c starts h may st s in
        create_containers-All nets ctrs starts' h' mays st' s'

    execute-All :
        (nets : NetMap) (h : History)
        → AllowsRest W
        → AreMadeBetween W h0 h
        → AreMadeBetween W h0 (execute env cfg nets plan h)
    unfolding execute
    execute-All nets h rest s =
        let allow = cfg.container_config.allow_self_delete in
        let entries = env.delete_order plan.to_delete in
        let h1 = delete_containers env.daemon env.reflection allow entries h in
        let deleted =
          delete_containers-All W env.daemon rest h0 env.reflection allow entries h ok.deletes s in
        let (st, made) =
          create_containers-All nets plan.to_create plan.to_start h1 ok.creates ok.starts deleted in
        start_containers-All W h0 _ _ (ok.ordered _ st) made

  -- The containers and images of a pass that starts after `h`.
  module _ (env : Env) (cfg : DevicedConfig) (rest : AllowsRest W) where
    -- Every plan of these containers makes requests that are allowed.
    abbrev pub AllowsPlans : List ApiContainer → History → Type 0
    AllowsPlans ctrs h =
        (images : List ImageSummary) (plan : Plan)
        → env.daemon.on_image_list h ≡ some images
        → make_plan env cfg ctrs images ≡ some plan
        → AllowsPlan W env cfg plan

    reconcile-All :
        (nets : NetMap) (ctrs : List ApiContainer) (h : History)
        → AllowsPlans ctrs h
        → AreMadeBetween W h0 h
        → AreMadeBetween W h0 (history_of (reconcile env cfg nets ctrs h))
    unfolding reconcile
    reconcile-All nets ctrs h ok s = elim (Option-cases (env.daemon.on_image_list h)) [
      | inl e ↦ rw (e, reconcile) (AreMadeBetween-cons W h0 _ _ rest.image_list s)
      | inr (images, e) ↦ elim (Option-cases (make_plan env cfg ctrs images)) [
        | inl p ↦ rw (e, reconcile, p, reconcile) (AreMadeBetween-cons W h0 _ _ rest.image_list s)
        | inr (plan, p) ↦
            rw (e, reconcile, p, reconcile)
              (execute-All env cfg plan (ok images plan e p) nets _ rest
                (AreMadeBetween-cons W h0 _ _ rest.image_list s))
      ]
    ]

    list_and_reconcile-All :
        (nets : NetMap) (h : History)
        → AllowsPlans (get_or (env.daemon.on_container_list h) []) (Call.container_list ∷ h)
        → AreMadeBetween W h0 h
        → AreMadeBetween W h0 (history_of (list_and_reconcile env cfg nets h))
    unfolding list_and_reconcile
    list_and_reconcile-All nets h ok s = elim (Bool-cases env.filter_parses) [
      | inr p ↦ rw p s
      | inl p ↦ elim (Option-cases (env.daemon.on_container_list h)) [
        | inr (ctrs, e) ↦
            rw (p, e, list_and_reconcile)
              (reconcile-All nets ctrs _ (rw e at ok)
                (AreMadeBetween-cons W h0 _ _ rest.container_list s))
        | inl e ↦
            elim (Bool-cases (sleep_should_quit (env.sleep_result (Call.container_list ∷ h)))) [
              | inl q ↦
                  rw (p, e, list_and_reconcile, q)
                    (AreMadeBetween-cons W h0 _ _ rest.container_list s)
              | inr q ↦
                  rw (p, e, list_and_reconcile, q)
                    (reconcile-All nets [] _ (rw e at ok)
                      (AreMadeBetween-cons W h0 _ _ rest.container_list s))
            ]
      ]
    ]

    -- The history in front of the request for the containers.
    abbrev pub networked : History → History
    networked h = (process_networks env.daemon cfg.networks h).1

-- Every request of a pass is allowed, if those of its plan are.
module _ (W : Call → Type 0) (env : Env) (cfg : DevicedConfig) (rest : AllowsRest W) where
  pub process_once-All :
      (h : History)
      → AllowsPlans W h env cfg rest
          (get_or (env.daemon.on_container_list (networked W h env cfg rest h)) [])
          (Call.container_list ∷ networked W h env cfg rest h)
      → AreMadeBetween W h (history_of (process_once env cfg h))
  unfolding process_once
  process_once-All h ok =
      list_and_reconcile-All W h env cfg rest _ _ ok
        (process_networks-All W env.daemon rest h cfg.networks h ([], refl, tt))
