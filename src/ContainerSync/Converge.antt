-- ===== src/ContainerSync/Converge.antt =====
-- The passes of a device whose images stay the same come to an end.
-- About pkg/containersync/worker.go.
use deviced.Base.{
  ℕ, zero, suc, ◌+◌, ◌<◌, List, [], ◌∷◌, map, some, true, ◌≡◌, refl, sym, ◌∙◌, arith, subst, All,
  All-Elem, All-of_Elem, inl, inr,
}
use deviced.Base.Assoc.{lookup}
use deviced.Images.{ImageSummary, build_image_map}
use deviced.Docker.{ApiContainer, NetworkResource, Call, History}
use deviced.Config.Target.{TargetContainer}
use deviced.Config.Document.{DevicedConfig}
use deviced.ContainerSync.State.{Plan, empty_plan}
use deviced.ContainerSync.MatchSteps.{
  IsNamed, AllListed, empty_plan-AllListed, sync_containers-Steps,
}
use deviced.ContainerSync.Named.{make_plan-IsNamed}
use deviced.ContainerSync.Networks.{add_networks}
use deviced.ContainerSync.Pass.{Env, finished, make_plan, process_once}
use deviced.ContainerSync.Handled.{DistinctIds}
use deviced.ContainerSync.Panics.{ListedFor-of_AllListed}
use deviced.ContainerSync.Placed.{Placed, OneEach, IsPlaced, keep_all, sync_containers-keep_all}
use deviced.ContainerSync.Settled.{IsSettled, All-lookup-empty_plan}
use deviced.ContainerSync.Quiet.{IsPresent, process_once_quiet}
use deviced.ContainerSync.Warrants.{some-inj}
use deviced.ContainerSync.WarrantedPlan.{make_plan-Warranted}
use deviced.ContainerSync.Changes.{Change, decide_targets-Change}
use deviced.ContainerSync.Shown.{
  Follows, Passes, FoldDistinct, FoldDistinct-DistinctTargets, IsPlaced-target, keep_all-StandsFor,
}
use deviced.ContainerSync.Orderly.{IsOrderly, Follows-Realizes, Follows-IsOrderly}
use deviced.ContainerSync.Listing.{Change-IsShown}
use deviced.ContainerSync.Best.{HasBest, IsSettled-HasBest}
use deviced.ContainerSync.Progress.{IsRanked, Progress, Progress-step}

module _ (env : Env) (cfg : DevicedConfig) (images : List ImageSummary)
    (apart : FoldDistinct cfg.containers) where
  -- What a pass over containers with one target each makes of every target.
  make_plan-Change :
      (ps : List Placed) {plan : Plan}
      → All (IsPlaced env.goarch cfg.containers) ps
      → OneEach ps
      → make_plan env cfg (map (λ p. p.0) ps) images ≡ some plan
      → All
          (λ (t : TargetContainer).
            Change env.goarch
              (build_image_map images)
              t
              (lookup t.id (keep_all env.goarch cfg.containers ps empty_plan).running)
              (lookup t.id plan.running))
          cfg.containers
  unfolding make_plan
  make_plan-Change ps {plan} placed one planned =
      let origin = keep_all env.goarch cfg.containers ps empty_plan in
      let named = make_plan-IsNamed env cfg (map (λ p. p.0) ps) images planned in
      let kept =
        sync_containers-keep_all env.goarch cfg.containers ps empty_plan named placed one
          (All-lookup-empty_plan ps) in
      let (mid, q, _, all) =
        sync_containers-Steps env.goarch cfg.containers (map (λ p. p.0) ps) empty_plan named
          empty_plan-AllListed in
      let listed = subst AllListed (some-inj (sym q ∙ kept)) all in
      let (last, e, changes, _) =
        decide_targets-Change env.goarch (build_image_map images) env.rand cfg.containers origin
          origin (FoldDistinct-DistinctTargets cfg.containers apart)
          (ListedFor-of_AllListed cfg.containers origin listed)
          (All-of_Elem _ cfg.containers (λ t m. refl)) in
      let same : last ≡ plan = some-inj (sym e ∙ (rw (kept, make_plan) at planned)) in
      subst
        (λ (p : Plan).
          All
            (λ (t : TargetContainer).
              Change env.goarch (build_image_map images) t (lookup t.id origin.running)
                (lookup t.id p.running))
            cfg.containers)
        same changes

  module _ (bound : ℕ)
      (ranked : All (IsRanked env.goarch (build_image_map images) bound) cfg.containers) where
    abbrev pub AllProgress : ℕ → List Placed → Type 0
    AllProgress n ps =
        All (λ t. Progress env.goarch (build_image_map images) bound n t ps) cfg.containers

    Follows-Progress :
        (n : ℕ) (ps qs : List Placed)
        → IsOrderly env.goarch cfg.containers ps
        → IsOrderly env.goarch cfg.containers qs
        → Follows env cfg images (map (λ p. p.0) ps) (map (λ p. p.0) qs)
        → AllProgress n ps
        → AllProgress (suc n) qs
    Follows-Progress n ps qs (placed, one, distinct) (placed', _, _) f progress =
        let distinct_targets = FoldDistinct-DistinctTargets cfg.containers apart in
        let cs = map (λ p. p.0) ps in
        let realizes = Follows-Realizes env cfg images cs (map (λ p. p.0) qs) apart distinct f in
        All-of_Elem _ cfg.containers (λ t m.
          let change = All-Elem _ cfg.containers t (make_plan-Change ps placed one f.planned) m in
          let stands = keep_all-StandsFor env.goarch cfg.containers ps one t in
          let shown =
            Change-IsShown env cfg images ps qs apart placed placed' f realizes
              (make_plan-Warranted env cfg cs images f.planned) t m change stands refl in
          Progress-step env.goarch (build_image_map images) bound t
            (All-Elem _ cfg.containers t ranked m) ps one
            (λ p k. IsPlaced-target env.goarch cfg.containers ps p t distinct_targets placed k m) n
            qs
            (λ p k. IsPlaced-target env.goarch cfg.containers qs p t distinct_targets placed' k m)
            change stands shown (All-Elem _ cfg.containers t progress m))

    -- The list is orderly, and the targets have come so far.
    abbrev Reached : ℕ → List ApiContainer → Type 0
    Reached n ds =
        (qs : List Placed) × (map (λ p. p.0) qs ≡ ds)
        × IsOrderly env.goarch cfg.containers qs
        × AllProgress n qs

    -- The first pass makes the list orderly.
    Passes-Reached :
        {cs : List ApiContainer} {n : ℕ} {ds : List ApiContainer}
        → Passes env cfg images cs (suc n) ds
        → DistinctIds cs
        → Reached n ds
    Passes-Reached (Passes.again {ds} {es} Passes.stop f) distinct =
        let (qs, listed, orderly) = Follows-IsOrderly env cfg images ds es apart distinct f in
        (qs, listed, orderly, All-of_Elem _ cfg.containers (λ t m. tt))
    Passes-Reached (Passes.again {ds} {es} (Passes.again {n} passes g) f) distinct =
        let (ps, was, orderly, progress) = Passes-Reached (Passes.again passes g) distinct in
        let distinct' = subst DistinctIds was orderly.2 in
        let (qs, is, orderly') = Follows-IsOrderly env cfg images ds es apart distinct' f in
        let f' =
          subst (λ xs. Follows env cfg images (map (λ p. p.0) ps) xs) (sym is)
            (subst (λ xs. Follows env cfg images xs es) (sym was) f) in
        (qs, is, orderly', Follows-Progress n ps qs orderly orderly' f' progress)

    Progress-IsSettled :
        (n : ℕ) (t : TargetContainer) (ps : List Placed)
        → bound + 1 < n
        → Progress env.goarch (build_image_map images) bound n t ps
        → IsSettled env.goarch (build_image_map images) ps t
    Progress-IsSettled zero t ps many g = absurd (omega arith)
    Progress-IsSettled (suc n) t ps many (inl settled) = settled
    Progress-IsSettled (suc n) t ps many (inr (p, _, _, _, _, room)) = absurd (omega arith)

  -- Where the lists follow the plans of the passes, the worker comes to rest.
  pub Passes-converge :
      (bound n : ℕ) (cs ds : List ApiContainer) (h : History) {list : List NetworkResource}
      → All (IsRanked env.goarch (build_image_map images) bound) cfg.containers
      → DistinctIds cs
      → Passes env cfg images cs n ds
      → bound + 2 < n
      → env.filter_parses ≡ true
      → env.delete_order [] ≡ []
      → env.start_order [] ≡ []
      → env.daemon.on_network_list h ≡ some list
      → All (IsPresent (add_networks [] list)) cfg.networks
      → env.daemon.on_container_list (Call.network_list ∷ h) ≡ some ds
      → All IsNamed ds
      → env.daemon.on_image_list (Call.container_list ∷ Call.network_list ∷ h) ≡ some images
      → (process_once env cfg h
          ≡ finished (Call.image_list ∷ Call.container_list ∷ Call.network_list ∷ h))
        × All (HasBest env.goarch cfg.containers (build_image_map images) ds) cfg.containers
  Passes-converge bound zero cs ds h ranked distinct passes many parses od os nets present ctrs
        named imgs =
      absurd (omega arith)
  Passes-converge bound (suc n) cs ds h ranked distinct passes many parses od os nets present ctrs
        named imgs =
      let (qs, listed, orderly, progress) = Passes-Reached bound ranked passes distinct in
      let settled : All (IsSettled env.goarch (build_image_map images) qs) cfg.containers =
        All-of_Elem _ cfg.containers (λ t m.
          Progress-IsSettled bound ranked n t qs (omega arith)
            (All-Elem _ cfg.containers t progress m)) in
      (
        process_once_quiet env cfg qs h parses od os nets present (rw listed ctrs) imgs
            (rw listed named) orderly.0 orderly.1 settled,
        subst
            (λ xs.
              All (HasBest env.goarch cfg.containers (build_image_map images) xs) cfg.containers)
            listed
            (All-of_Elem _ cfg.containers (λ t m.
              IsSettled-HasBest env.goarch cfg.containers (build_image_map images) qs orderly.0 t
                (FoldDistinct-DistinctTargets cfg.containers apart) m
                (All-Elem _ cfg.containers t settled m))),
      )
