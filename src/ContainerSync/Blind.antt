-- ===== src/ContainerSync/Blind.antt =====
-- A pass for which Docker does not list the containers.
-- About pkg/containersync/worker.go.
use deviced.Base.{
  ℕ, List, [], ◌∷◌, none, some, true, false, Bytes, is_empty, ◌≡◌, ◌⊎◌, refl, sym, ap, ◌∙◌, subst,
  inl, inr, All, Elem, All-of_All, All-Elem,
}
use deviced.Base.Assoc.{lookup, lookup_or}
use deviced.Images.{ImageSummary, build_image_map}
use deviced.Docker.{Call, History}
use deviced.Docker.Made.{IsLater-cons, IsMadeBetween, IsMadeBetween-earlier, AreMadeBetween}
use deviced.Config.Target.{TargetContainer}
use deviced.Config.Document.{DevicedConfig}
use deviced.ContainerSync.State.{Plan, empty_plan}
use deviced.ContainerSync.Match.{sync_containers}
use deviced.ContainerSync.Choose.{is_acceptable, zero_container, candidate, create_config}
use deviced.ContainerSync.Panics.{DistinctTargets}
use deviced.ContainerSync.Networks.{process_networks}
use deviced.ContainerSync.Execute.{has_network}
use deviced.ContainerSync.Pass.{
  Env, finished, history_of, sleep_should_quit, execute, make_plan, reconcile, list_and_reconcile,
  process_once,
}
use deviced.ContainerSync.Allowed.{AllowsPlan, Startable, process_networks-All}
use deviced.ContainerSync.Requests.{process_once-All}
use deviced.ContainerSync.SelfDeletion.{Spares, AllowsRest-Spares}
use deviced.ContainerSync.Warrants.{some-inj}
use deviced.ContainerSync.Carried.{execute_creates}
use deviced.ContainerSync.Unlisted.{IsRenewed, IsUnfit, decide_targets-Unknown}

module _ (env : Env) (cfg : DevicedConfig) (distinct : DistinctTargets cfg.containers) where
  -- The plan that is made of no containers.
  make_plan-unknown :
      (images : List ImageSummary)
      → let available = build_image_map images in
        (plan : Plan) × (make_plan env cfg [] images ≡ some plan)
        × (plan.to_delete ≡ [])
        × All
            (λ t.
              IsUnfit env.goarch env.rand available t
              ⊎ IsRenewed env.goarch env.rand available plan.to_create t)
            cfg.containers
  unfolding make_plan sync_containers empty_plan lookup
  make_plan-unknown images =
      let available = build_image_map images in
      let (plan, e, (same, _), all) =
        decide_targets-Unknown env.goarch env.rand available cfg.containers empty_plan distinct
          (All-of_All (λ u. lookup u.id empty_plan.running ≡ none) (λ u. refl) cfg.containers) in
      (plan, e, same, all)

  -- The history up to the request for the containers.
  abbrev pub containers_asked : History → History
  containers_asked h = Call.container_list ∷ (process_networks env.daemon cfg.networks h).1

  process_once_unlisted :
      (h : History) (images : List ImageSummary) (plan : Plan)
      → env.filter_parses ≡ true
      → env.daemon.on_container_list (process_networks env.daemon cfg.networks h).1 ≡ none
      → sleep_should_quit (env.sleep_result (containers_asked h)) ≡ false
      → env.daemon.on_image_list (containers_asked h) ≡ some images
      → make_plan env cfg [] images ≡ some plan
      → process_once env cfg h
        ≡ finished (
            execute env cfg
              (process_networks env.daemon cfg.networks h).0
              plan
              (Call.image_list ∷ containers_asked h))
  unfolding process_once list_and_reconcile reconcile execute
  process_once_unlisted h images plan parses unlisted waited listed made =
      rw (parses, unlisted, list_and_reconcile, waited, listed, reconcile, made, reconcile) refl

  fit_renewed :
      {R : Type 0} (t : TargetContainer) (tags : List Bytes) (usable : Bytes)
      → Elem usable tags
      → is_acceptable env.goarch t false zero_container usable ≡ true
      → All (λ y. is_acceptable env.goarch t false zero_container y ≡ false) tags ⊎ R
      → R
  fit_renewed t tags usable m fit (inr r) = r
  fit_renewed t tags usable m fit (inl unfit) =
      let no =
        All-Elem (λ y. is_acceptable env.goarch t false zero_container y ≡ false) tags usable unfit
          m in
      absurd (cc)

  module _ (unordered : env.delete_order [] ≡ []) where
    AllowsPlan-unknown :
        (own : Bytes) (images : List ImageSummary) (plan : Plan)
        → make_plan env cfg [] images ≡ some plan
        → AllowsPlan (Spares own) env cfg plan
    AllowsPlan-unknown own images plan made =
        let (next, e, gone, _) = make_plan-unknown images in
        let none_deleted : env.delete_order plan.to_delete ≡ [] =
          ap (λ (p : Plan). env.delete_order p.to_delete) (some-inj (sym made ∙ e))
          ∙ ap env.delete_order gone
          ∙ unordered in
        record {
          deletes = rw none_deleted tt;
          creates = All-of_All (λ c. Spares own (Call.container_create c)) (λ c. tt) plan.to_create;
          starts = All-of_All (Startable (Spares own)) (λ e. tt) plan.to_start;
          created = λ h c id e. tt;
          ordered = λ m a. All-of_All (Startable (Spares own)) (λ e. tt) (env.start_order m);
        }

    -- If Docker does not list the containers, and the wake channel is not closed during the wait
    -- that follows, but Docker lists the images, then the pass goes on to its end. It stops and
    -- removes no container and runs no hook; but for a target without a network mode it asks for a
    -- new container, if a tag of its image is there that it may use, whatever containers there are.
    -- The targets have different ids, the filter for the label parses, and the walk over an empty
    -- map meets nothing.
    pub process_once_blind :
        (h : History) {images : List ImageSummary} (own : Bytes) (t : TargetContainer)
        (usable : Bytes)
        → env.filter_parses ≡ true
        → env.daemon.on_container_list (process_networks env.daemon cfg.networks h).1 ≡ none
        → sleep_should_quit (env.sleep_result (containers_asked h)) ≡ false
        → env.daemon.on_image_list (containers_asked h) ≡ some images
        → Elem t cfg.containers
        → is_empty t.docker_host_config.network_mode ≡ true
        → Elem usable (lookup_or t.image [] (build_image_map images))
        → is_acceptable env.goarch t false zero_container usable ≡ true
        → (h' : History) × (process_once env cfg h ≡ finished h')
          × AreMadeBetween (Spares own) h h'
          × ((avail : Bytes) × (n : ℕ) × Elem avail (lookup_or t.image [] (build_image_map images))
              × IsMadeBetween
                  (Call.container_create
                    (create_config env.goarch env.rand t (candidate env.goarch t avail) n))
                  h
                  h')
    process_once_blind h {images} own t usable parses unlisted waited listed among mode there fit =
        let (plan, e, gone, all) = make_plan-unknown images in
        let nets = (process_networks env.daemon cfg.networks h).0 in
        let before = Call.image_list ∷ containers_asked h in
        let (made, later, _) =
          process_networks-All (Spares own) env.daemon (AllowsRest-Spares own) h cfg.networks h
            ([], refl, tt) in
        let done = process_once_unlisted h images plan parses unlisted waited listed e in
        let spared =
          process_once-All (Spares own) env cfg (AllowsRest-Spares own) h
            (λ got next answered k. AllowsPlan-unknown own got next (rw unlisted at k)) in
        let (avail, n, m, scheduled) =
          fit_renewed t (lookup_or t.image [] (build_image_map images)) usable there fit
            (All-Elem _ cfg.containers t all among) in
        let c = create_config env.goarch env.rand t (candidate env.goarch t avail) n in
        let known : has_network env.daemon env.network_name nets c ≡ true =
          unfold has_network create_config in rw mode refl in
        (
          execute env cfg nets plan before,
          done,
          subst (λ o. AreMadeBetween (Spares own) h (history_of o)) done spared,
          (
            avail,
            n,
            m,
            IsMadeBetween-earlier (Call.container_create c) h before _
                (IsLater-cons h _ _ (IsLater-cons h _ _ (made, later)))
                (execute_creates env cfg nets plan before c known scheduled),
          ),
        )
