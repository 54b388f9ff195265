-- ===== src/ContainerSync/Provenance.antt =====
-- What the requests of a pass are for.
-- About pkg/containersync/worker.go.
use deviced.Base.{
  List, [], ◌∷◌, some, Bool, false, not, ◌&&◌, Bytes, ◌≡◌, ◌⊎◌, inl, inr, Elem, All-Elem,
  All-of_Elem,
}
use deviced.Base.Assoc.{get_or}
use deviced.Images.{ImageSummary, build_image_map}
use deviced.Docker.{ApiContainer, ContainerCreateConfig, Call, History, Daemon}
use deviced.Docker.Made.{AreMadeBetween}
use deviced.Config.Target.{LifecycleHook}
use deviced.Config.Document.{DevicedConfig}
use deviced.ContainerSync.State.{Plan}
use deviced.ContainerSync.Networks.{process_networks}
use deviced.ContainerSync.Execute.{is_own}
use deviced.ContainerSync.Pass.{Env, history_of, make_plan, process_once}
use deviced.ContainerSync.Allowed.{AllowsRest, Deletable, Startable, AllowsPlan}
use deviced.ContainerSync.Requests.{process_once-All}
use deviced.ContainerSync.Warrants.{IsOf, IsWanted, Deleted, Started}
use deviced.ContainerSync.WarrantedPlan.{make_plan-Warranted}

-- Docker gave the id to a container that it created.
abbrev pub IsNew : Daemon → Bytes → Type 0
IsNew d id = (h : History) × (c : ContainerCreateConfig) × (d.on_container_create h c ≡ some id)

module _ (env : Env) (cfg : DevicedConfig) (ctrs : List ApiContainer)
    (images : List ImageSummary) where
  -- A container that the request stops, removes or runs a hook in is one of the listed; one that it
  -- starts is one of the listed or a new one; and one that it creates is wanted.
  abbrev pub HasReason : Call → Type 0
  HasReason (Call.container_stop cid) = IsOf ctrs cid
  HasReason (Call.container_remove cid) = IsOf ctrs cid
  HasReason (Call.exec_create cid cmd) = IsOf ctrs cid
  HasReason (Call.container_start id) = IsOf ctrs id ⊎ IsNew env.daemon id
  HasReason (Call.container_create c) =
      IsWanted env.goarch env.rand cfg.containers (build_image_map images) c
  HasReason Call.network_list = Unit
  HasReason (Call.network_create n c) = Unit
  HasReason (Call.network_inspect n) = Unit
  HasReason Call.container_list = Unit
  HasReason Call.image_list = Unit
  HasReason (Call.exec_attach n) = Unit
  HasReason (Call.image_pull r a) = Unit
  HasReason (Call.image_tag s t) = Unit
  HasReason (Call.registry_connect u e i) = Unit
  HasReason (Call.registry_tags u i) = Unit
  HasReason Call.wake_containers = Unit

  AllowsRest-HasReason : AllowsRest HasReason
  AllowsRest-HasReason = record {
    network_list = tt;
    network_create = λ n c. tt;
    network_inspect = λ n. tt;
    container_list = tt;
    image_list = tt;
    exec_attach = λ n. tt;
  }

  AllowsPlan-HasReason :
      ((m : List (Bytes × List LifecycleHook)) (e : Bytes × List LifecycleHook)
        → Elem e (env.delete_order m)
        → Elem e m)
      → ((m : List (Bytes × Bool)) (e : Bytes × Bool) → Elem e (env.start_order m) → Elem e m)
      → (plan : Plan) → make_plan env cfg ctrs images ≡ some plan
      → AllowsPlan HasReason env cfg plan
  AllowsPlan-HasReason deleting starting plan made =
      let w = make_plan-Warranted env cfg ctrs images made in
      let available = build_image_map images in
      record {
        deletes =
            All-of_Elem
              (λ (e : Bytes × List LifecycleHook).
                is_own env.reflection e.0 && not cfg.container_config.allow_self_delete ≡ false
                → Deletable HasReason e.0)
              (env.delete_order plan.to_delete)
              (λ e m free.
                let one : IsOf ctrs e.0 =
                  All-Elem (Deleted env.goarch env.rand cfg.containers available ctrs)
                    plan.to_delete e w.deletes (deleting plan.to_delete e m) in
                record { stop = one; remove = one; exec = λ cmd. one });
        creates = w.creates;
        starts = All-of_Elem (Startable HasReason) plan.to_start (λ e m. inl (
            All-Elem (Started env.goarch env.rand cfg.containers available ctrs) plan.to_start e
              w.starts m));
        created = λ h c id e. inr (h, c, e);
        ordered = λ m a.
            All-of_Elem (Startable HasReason) (env.start_order m)
              (λ e i. All-Elem (Startable HasReason) m e a (starting m e i));
      }

-- Docker's answer to the request for the containers in a pass that starts after `h`, and to the one for
-- the images; an empty list stands for an error.
abbrev pub listed_containers : Env → DevicedConfig → History → List ApiContainer
listed_containers env cfg h =
    get_or (env.daemon.on_container_list (process_networks env.daemon cfg.networks h).1) []

abbrev pub listed_images : Env → DevicedConfig → History → List ImageSummary
listed_images env cfg h =
    get_or
      (env.daemon.on_image_list
        (Call.container_list ∷ (process_networks env.daemon cfg.networks h).1))
      []

-- If the walks over the maps meet only entries of the maps, every request of a pass has a reason, whatever
-- Docker answers and also where the pass gives up or panics. The pass stops and removes only containers
-- that Docker has listed for it, and runs hooks only in these; it creates only containers of a
-- configured target and a listed tag of its image that the target may use; and it starts only listed
-- containers and new ones.
pub process_once-HasReason :
    (env : Env) (cfg : DevicedConfig) (h : History)
    → ((m : List (Bytes × List LifecycleHook)) (e : Bytes × List LifecycleHook)
        → Elem e (env.delete_order m)
        → Elem e m)
    → ((m : List (Bytes × Bool)) (e : Bytes × Bool) → Elem e (env.start_order m) → Elem e m)
    → AreMadeBetween
        (HasReason env cfg (listed_containers env cfg h) (listed_images env cfg h))
        h
        (history_of (process_once env cfg h))
process_once-HasReason env cfg h deleting starting =
    let ctrs = listed_containers env cfg h in
    let images = listed_images env cfg h in
    process_once-All (HasReason env cfg ctrs images) env cfg
      (AllowsRest-HasReason env cfg ctrs images) h
      (λ got plan answered made.
        AllowsPlan-HasReason env cfg ctrs images deleting starting plan (rw answered made))
