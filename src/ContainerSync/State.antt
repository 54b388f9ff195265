-- ===== src/ContainerSync/State.antt =====
-- pkg/state/state.go, and the maps that one pass of the container worker builds.
use deviced.Base.{ℕ, List, [], Option, none, some, Bool, true, false, Bytes, beq, ◌==◌, ◌&&◌}
use deviced.Docker.{ApiContainer, ContainerCreateConfig}
use deviced.Config.Target.{LifecycleHook}

pub record RunningContainer : Type 0 where
  pub deviced_id : Bytes
  pub image : Bytes
  pub image_tag : Bytes
  pub score : ℕ
  pub api_container : Option ApiContainer

-- `==` on the pointer `ApiContainer`. The pointers that the worker compares are nil or come from
-- the list of containers, where the id tells them apart.
abbrev pub same_api : Option ApiContainer → Option ApiContainer → Bool
same_api none none = true
same_api none (some b) = false
same_api (some a) none = false
same_api (some a) (some b) = beq a.id b.id

-- `==` on the struct.
abbrev pub same_container : RunningContainer → RunningContainer → Bool
same_container a b =
    beq a.deviced_id b.deviced_id
    && (beq a.image b.image
        && (beq a.image_tag b.image_tag
            && (a.score == b.score && same_api a.api_container b.api_container)))

-- The variables of `processOnce` that its loops fill.
pub record Plan : Type 0 where
  pub running : List (Bytes × RunningContainer)  -- devicedIdToContainer
  pub to_delete : List (Bytes × List LifecycleHook)  -- containersToDelete
  pub to_start : List (Bytes × Bool)  -- containersToStart
  pub to_create : List ContainerCreateConfig  -- containersToCreate

unfoldable pub empty_plan : Plan
empty_plan = record { running = []; to_delete = []; to_start = []; to_create = [] }
