-- ===== src/ContainerSync/Quiet.antt =====
-- A pass over a device that has what the configuration wants.
-- About pkg/containersync/worker.go.
use deviced.Base.{
  List, [], ◌∷◌, map, some, true, is_empty, ◌≡◌, ◌⊎◌, refl, All, Bool-cases, inl, inr,
}
use deviced.Images.{ImageSummary, build_image_map}
use deviced.Docker.{NetworkResource, Call, History, Daemon}
use deviced.Config.Document.{DevicedConfig, NetworkCreateRequest}
use deviced.ContainerSync.MatchSteps.{IsNamed}
use deviced.ContainerSync.State.{Plan, empty_plan}
use deviced.ContainerSync.Networks.{
  NetMap, add_networks, ensure_network, ensure_networks, process_networks,
}
use deviced.ContainerSync.Execute.{delete_containers, create_containers, start_containers}
use deviced.ContainerSync.Pass.{
  Env, finished, execute, make_plan, reconcile, list_and_reconcile, process_once,
}
use deviced.ContainerSync.NetworkLaws.{Has}
use deviced.ContainerSync.Placed.{
  Placed, OneEach, IsPlaced, keep_all, sync_containers-keep_all, Idle, keep_all-Idle,
}
use deviced.ContainerSync.Settled.{IsSettled, All-lookup-empty_plan, decide_targets_quiet}

-- The network needs no request: it has no name, or it is in the map.
abbrev pub IsPresent : NetMap → NetworkCreateRequest → Type 0
IsPresent nets net = (is_empty net.name ≡ true) ⊎ Has nets net.name

ensure_networks_quiet :
    (d : Daemon) (targets : List NetworkCreateRequest) (nets : NetMap) (h : History)
    → All (IsPresent nets) targets
    → ensure_networks d targets nets h ≡ (nets, h)
unfolding ensure_networks ensure_network
ensure_networks_quiet d [] nets h a = refl
ensure_networks_quiet d (net ∷ targets) nets h (inl e, a) =
    rw (e, ensure_networks) (ensure_networks_quiet d targets nets h a)
ensure_networks_quiet d (net ∷ targets) nets h (inr (res, e), a) =
    elim (Bool-cases (is_empty net.name)) [
      | inl z ↦ rw (z, ensure_networks) (ensure_networks_quiet d targets nets h a)
      | inr z ↦ rw (z, e, ensure_networks) (ensure_networks_quiet d targets nets h a)
    ]

process_networks_quiet :
    (d : Daemon) (targets : List NetworkCreateRequest) (h : History) {list : List NetworkResource}
    → d.on_network_list h ≡ some list
    → All (IsPresent (add_networks [] list)) targets
    → process_networks d targets h ≡ (add_networks [] list, Call.network_list ∷ h)
unfolding process_networks
process_networks_quiet d targets h {list} e a =
    rw (e, process_networks) (ensure_networks_quiet d targets (add_networks [] list) _ a)

module _ (env : Env) (cfg : DevicedConfig) where
  make_plan_quiet :
      (ps : List Placed) (images : List ImageSummary)
      → All IsNamed (map (λ p. p.0) ps)
      → All (IsPlaced env.goarch cfg.containers) ps
      → OneEach ps
      → All (IsSettled env.goarch (build_image_map images) ps) cfg.containers
      → make_plan env cfg (map (λ p. p.0) ps) images
        ≡ some (keep_all env.goarch cfg.containers ps empty_plan)
  unfolding make_plan
  make_plan_quiet ps images named h d s =
      rw
        (
          sync_containers-keep_all env.goarch cfg.containers ps empty_plan named h d
              (All-lookup-empty_plan ps),
          make_plan,
        )
        (decide_targets_quiet env.goarch env.rand (build_image_map images) cfg.containers
          cfg.containers ps d s)

  empty_plan-Idle : Idle env.goarch cfg.containers empty_plan
  unfolding empty_plan
  empty_plan-Idle = (refl, refl, refl)

  execute_quiet :
      (nets : NetMap) (plan : Plan) (h : History)
      → env.delete_order [] ≡ []
      → env.start_order [] ≡ []
      → Idle env.goarch cfg.containers plan
      → execute env cfg nets plan h ≡ h
  unfolding execute delete_containers create_containers start_containers
  execute_quiet nets plan h od os (i, j, k) = rw (i, od, j, k, os) refl

  list_and_reconcile_quiet :
      (ps : List Placed) (nets : NetMap) (h : History) {images : List ImageSummary}
      → env.filter_parses ≡ true
      → env.delete_order [] ≡ []
      → env.start_order [] ≡ []
      → env.daemon.on_container_list h ≡ some (map (λ p. p.0) ps)
      → env.daemon.on_image_list (Call.container_list ∷ h) ≡ some images
      → All IsNamed (map (λ p. p.0) ps)
      → All (IsPlaced env.goarch cfg.containers) ps
      → OneEach ps
      → All (IsSettled env.goarch (build_image_map images) ps) cfg.containers
      → list_and_reconcile env cfg nets h ≡ finished (Call.image_list ∷ Call.container_list ∷ h)
  unfolding list_and_reconcile reconcile
  list_and_reconcile_quiet ps nets h {images} parses od os ctrs imgs named placed one settled =
      let plan = keep_all env.goarch cfg.containers ps empty_plan in
      let idle = keep_all-Idle env.goarch cfg.containers ps empty_plan empty_plan-Idle in
      rw
        (
          parses,
          ctrs,
          list_and_reconcile,
          imgs,
          reconcile,
          make_plan_quiet ps images named placed one settled,
          reconcile,
          execute_quiet nets plan (Call.image_list ∷ Call.container_list ∷ h) od os idle,
        )
        refl

  -- When the device already has what the configuration wants, a pass only asks: it makes the three
  -- requests for lists, creates and inspects nothing, runs no hook, and stops, removes and starts no container. The
  -- conditions are these. Docker answers the three requests and the label filter parses, and Go runs no
  -- round of a loop over an empty map. Every configured
  -- network with a name is listed. Every listed container has a name and a target, is not dead, and no two of
  -- them have one target. Every target is settled: it has a container with score 0, or a
  -- container for which no available tag is acceptable, or no container and no acceptable tag.
  pub process_once_quiet :
      (ps : List Placed) (h : History) {list : List NetworkResource} {images : List ImageSummary}
      → env.filter_parses ≡ true
      → env.delete_order [] ≡ []
      → env.start_order [] ≡ []
      → env.daemon.on_network_list h ≡ some list
      → All (IsPresent (add_networks [] list)) cfg.networks
      → env.daemon.on_container_list (Call.network_list ∷ h) ≡ some (map (λ p. p.0) ps)
      → env.daemon.on_image_list (Call.container_list ∷ Call.network_list ∷ h) ≡ some images
      → All IsNamed (map (λ p. p.0) ps)
      → All (IsPlaced env.goarch cfg.containers) ps
      → OneEach ps
      → All (IsSettled env.goarch (build_image_map images) ps) cfg.containers
      → process_once env cfg h
        ≡ finished (Call.image_list ∷ Call.container_list ∷ Call.network_list ∷ h)
  unfolding process_once
  process_once_quiet ps h {list} parses od os nets present ctrs imgs named placed one settled =
      rw (process_networks_quiet env.daemon cfg.networks h nets present, process_once)
        (list_and_reconcile_quiet ps (add_networks [] list) (Call.network_list ∷ h) parses od os
          ctrs imgs named placed one settled)
