-- ===== src/ContainerSync/Served.antt =====
-- What every plan brings about.
-- About pkg/containersync/worker.go.
use deviced.Base.{ℕ, List, [], ◌∷◌, some, Bytes, ◌≡◌, sym, ◌∙◌, inl, subst, All}
use deviced.Images.{ImageSummary, build_image_map}
use deviced.Docker.{ApiContainer}
use deviced.Config.Target.{TargetContainer}
use deviced.Config.Document.{DevicedConfig}
use deviced.ContainerSync.State.{Plan, empty_plan}
use deviced.ContainerSync.Match.{sync_containers}
use deviced.ContainerSync.MatchSteps.{
  IsNamed, AllListed, empty_plan-AllListed, sync_containers-Steps,
}
use deviced.ContainerSync.Handled.{DistinctIds}
use deviced.ContainerSync.Partition.{sync_containers_partition}
use deviced.ContainerSync.Choose.{decide_targets}
use deviced.ContainerSync.Panics.{DistinctTargets}
use deviced.ContainerSync.Warrants.{some-inj}
use deviced.ContainerSync.Pass.{Env, make_plan}
use deviced.ContainerSync.Realized.{Realizes}
use deviced.ContainerSync.Provided.{IsProvided, Listed, decide_targets-Realizes}

Listed-of_AllListed :
    (goarch : Bytes) (rand : ℕ → ℕ) (ctrs : List ApiContainer) (ts : List TargetContainer)
    (plan : Plan)
    → AllListed plan
    → Listed goarch rand ctrs ts plan
Listed-of_AllListed goarch rand ctrs [] plan all = tt
Listed-of_AllListed goarch rand ctrs (t ∷ ts) plan all =
    (all t.id, Listed-of_AllListed goarch rand ctrs ts plan all)

sync_containers-Realizes :
    (env : Env) (cfg : DevicedConfig) (ctrs : List ApiContainer)
    → All IsNamed ctrs
    → DistinctIds ctrs
    → (mid : Plan) × (sync_containers env.goarch cfg.containers ctrs empty_plan ≡ some mid)
      × AllListed mid
      × Realizes env.goarch env.rand ctrs mid
sync_containers-Realizes env cfg ctrs named di =
    let (mid, e, handled, spared, one) =
      sync_containers_partition env.goarch cfg.containers ctrs named di in
    let (same, q, _, all) =
      sync_containers-Steps env.goarch cfg.containers ctrs empty_plan named empty_plan-AllListed in
    let listed = subst AllListed (some-inj (sym q ∙ e)) all in
    (
      mid,
      e,
      listed,
      record {
        realized = λ k rc at. let (c, l) = listed k rc at in inl (c, l, spared k c (rc, at, l));
        one_key = one;
        handled = handled;
      },
    )

make_plan_of_loops :
    (env : Env) (cfg : DevicedConfig) (ctrs : List ApiContainer) (images : List ImageSummary)
    (mid plan : Plan)
    → sync_containers env.goarch cfg.containers ctrs empty_plan ≡ some mid
    → decide_targets env.goarch env.rand (build_image_map images) cfg.containers mid ≡ some plan
    → make_plan env cfg ctrs images ≡ some plan
unfolding make_plan
make_plan_of_loops env cfg ctrs images mid plan e p = rw (e, make_plan) p

-- If every listed container has a name, and no two of them and no two targets have one id, the loops make a plan, for every list of
-- images, and its map of containers by target is what the plan brings about. A container of the map is a
-- listed one that the plan does not delete, or the plan creates it; every listed container is in the
-- map or deleted, and it is in the map for one target at most; and every target has a container in
-- the map, or no tag of its image is available that it may use.
pub make_plan-Realizes :
    (env : Env) (cfg : DevicedConfig) (ctrs : List ApiContainer) (images : List ImageSummary)
    → All IsNamed ctrs
    → DistinctIds ctrs
    → DistinctTargets cfg.containers
    → (plan : Plan) × (make_plan env cfg ctrs images ≡ some plan)
      × Realizes env.goarch env.rand ctrs plan
      × All (IsProvided env.goarch env.rand ctrs (build_image_map images) plan) cfg.containers
make_plan-Realizes env cfg ctrs images named di dt =
    let (mid, e, listed, start) = sync_containers-Realizes env cfg ctrs named di in
    let (plan, p, r, _, served) =
      decide_targets-Realizes env.goarch env.rand ctrs (build_image_map images) cfg.containers mid
        dt (Listed-of_AllListed env.goarch env.rand ctrs cfg.containers mid listed) start in
    (plan, make_plan_of_loops env cfg ctrs images mid plan e p, r, served)
