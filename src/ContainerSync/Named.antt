-- ===== src/ContainerSync/Named.antt =====
-- Plans are made only of containers with names.
-- About pkg/containersync/worker.go.
use deviced.Base.{List, some, ◌≡◌, All, Option-cases, inl, inr}
use deviced.Images.{ImageSummary}
use deviced.Docker.{ApiContainer}
use deviced.Config.Document.{DevicedConfig}
use deviced.ContainerSync.State.{Plan, empty_plan}
use deviced.ContainerSync.Match.{sync_containers}
use deviced.ContainerSync.MatchSteps.{IsNamed, sync_containers-IsNamed}
use deviced.ContainerSync.Pass.{Env, make_plan}

pub make_plan-IsNamed :
    (env : Env) (cfg : DevicedConfig) (ctrs : List ApiContainer) (images : List ImageSummary)
    {plan : Plan}
    → make_plan env cfg ctrs images ≡ some plan
    → All IsNamed ctrs
unfolding make_plan
make_plan-IsNamed env cfg ctrs images e =
    elim (Option-cases (sync_containers env.goarch cfg.containers ctrs empty_plan)) [
      | inl n ↦ let x = (rw (n, make_plan) at e) in absurd (cc)
      | inr (mid, q) ↦ sync_containers-IsNamed env.goarch cfg.containers ctrs empty_plan q
    ]
