-- ===== src/ContainerSync/Answers.antt =====
-- What Docker lists after it has done what a pass has asked for.
-- About pkg/containersync/worker.go.
use deviced.Base.{
  List, [], ◌∷◌, some, false, not, ◌&&◌, Bytes, codes, ◌≡◌, ◌⊎◌, ap, All, All-of_Elem, Elem,
  Bool-cases, Option-cases, inl, inr,
}
use deviced.Base.Assoc.{lookup, lookup_or}
use deviced.Images.{ImageSummary}
use deviced.Docker.{ApiContainer, ContainerCreateConfig, Call, History}
use deviced.Docker.Made.{IsLater, IsMadeBetween}
use deviced.Config.Target.{LifecycleHook}
use deviced.Config.Document.{DevicedConfig}
use deviced.ContainerSync.State.{Plan}
use deviced.ContainerSync.Match.{deviced_id_label}
use deviced.ContainerSync.Networks.{process_networks}
use deviced.ContainerSync.Execute.{is_own}
use deviced.ContainerSync.Pass.{
  Env, finished, history_of, execute, make_plan, reconcile, list_and_reconcile, process_once,
}
use deviced.ContainerSync.Allowed.{AllowsRest, Deletable, Startable, AllowsPlan}
use deviced.ContainerSync.Handled.{DistinctIds}
use deviced.ContainerSync.Labels.{label_of}
use deviced.ContainerSync.Starts.{Elem-lookup}

-- The container was asked to stop and to be removed.
abbrev pub IsRemoved : Bytes → History → History → Type 0
IsRemoved cid h after =
    IsMadeBetween (Call.container_stop cid) h after
    × IsMadeBetween (Call.container_remove cid) h after

-- The pass that starts after `h`, with the containers `cs` and the images, ends with the requests
-- `after`, and Docker does what these ask: it then lists `ds`, under different ids. These are the
-- containers of `cs` that the pass has not stopped and removed, as they were, and one for each request
-- to create one: under the id that Docker answered, with the image and the label asked for, and running
-- if the pass has asked to start it.
pub record Answers (env : Env) (cfg : DevicedConfig) (images : List ImageSummary) (h : History)
    (cs : List ApiContainer) (after : History) (ds : List ApiContainer) : Type 0 where
  pub listed : env.daemon.on_container_list (process_networks env.daemon cfg.networks h).1 ≡ some cs
  pub imaged :
      env.daemon.on_image_list
        (Call.container_list ∷ (process_networks env.daemon cfg.networks h).1)
      ≡ some images
  pub ended : process_once env cfg h ≡ finished after
  pub distinct : DistinctIds ds
  pub left : All (λ c. IsRemoved c.id h after ⊎ Elem c ds) cs
  pub new : ContainerCreateConfig → ApiContainer
  pub answered :
      (m : ContainerCreateConfig) (k : History)
      → IsLater h k
      → IsLater (Call.container_create m ∷ k) after
      → env.daemon.on_container_create k m ≡ some (new m).id
  pub created :
      (m : ContainerCreateConfig)
      → IsMadeBetween (Call.container_create m) h after
      → Elem (new m) ds
        × ((new m).image ≡ m.config.image)
        × (lookup_or deviced_id_label [] (new m).labels ≡ label_of m)
  pub running :
      (m : ContainerCreateConfig)
      → IsMadeBetween (Call.container_create m) h after
      → IsMadeBetween (Call.container_start (new m).id) h after
      → (new m).state ≡ codes "running"
  pub known :
      All
        (λ d.
          (Elem d cs × ¬ IsRemoved d.id h after)
          ⊎ ((m : ContainerCreateConfig) × IsMadeBetween (Call.container_create m) h after
              × (d ≡ new m)))
        ds

-- A request to remove is for an entry of the plan, and so is a request to create.
abbrev pub IsPlanned : Plan → Call → Type 0
IsPlanned plan (Call.container_remove cid) =
    (hooks : List LifecycleHook) × (lookup cid plan.to_delete ≡ some hooks)
IsPlanned plan (Call.container_create m) = Elem m plan.to_create
IsPlanned plan _ = Unit

module _ (env : Env) (cfg : DevicedConfig)
    (deleting : (m : List (Bytes × List LifecycleHook)) (e : Bytes × List LifecycleHook)
      → Elem e (env.delete_order m)
      → Elem e m) where
  pub AllowsRest-IsPlanned : (plan : Plan) → AllowsRest (IsPlanned plan)
  AllowsRest-IsPlanned plan = record {
    network_list = tt;
    network_create = λ n c. tt;
    network_inspect = λ n. tt;
    container_list = tt;
    image_list = tt;
    exec_attach = λ n. tt;
  }

  pub AllowsPlan-IsPlanned : (plan : Plan) → AllowsPlan (IsPlanned plan) env cfg plan
  AllowsPlan-IsPlanned plan = record {
    deletes =
        All-of_Elem
          (λ (e : Bytes × List LifecycleHook).
            is_own env.reflection e.0 && not cfg.container_config.allow_self_delete ≡ false
            → Deletable (IsPlanned plan) e.0)
          (env.delete_order plan.to_delete)
          (λ e m free. record {
            stop = tt;
            remove = Elem-lookup e.0 plan.to_delete e.1 (deleting plan.to_delete e m);
            exec = λ cmd. tt;
          });
    creates = All-of_Elem (λ c. Elem c plan.to_create) plan.to_create (λ c m. m);
    starts = All-of_Elem (Startable (IsPlanned plan)) plan.to_start (λ e m. tt);
    created = λ h c id e. tt;
    ordered = λ m a. All-of_Elem (Startable (IsPlanned plan)) (env.start_order m) (λ e i. tt);
  }

-- A pass that ends with all its requests has made a plan, and carried it out.
pub process_once_finished :
    (env : Env) (cfg : DevicedConfig) (h after : History) (cs : List ApiContainer)
    (images : List ImageSummary)
    → env.daemon.on_container_list (process_networks env.daemon cfg.networks h).1 ≡ some cs
    → env.daemon.on_image_list
        (Call.container_list ∷ (process_networks env.daemon cfg.networks h).1)
      ≡ some images
    → process_once env cfg h ≡ finished after
    → (plan : Plan) × (make_plan env cfg cs images ≡ some plan)
      × (execute env cfg
            (process_networks env.daemon cfg.networks h).0
            plan
            (Call.image_list ∷ Call.container_list ∷ (process_networks env.daemon cfg.networks h).1)
          ≡ after)
unfolding process_once list_and_reconcile reconcile
process_once_finished env cfg h after cs images listed imaged ended =
    elim (Bool-cases env.filter_parses) [
      | inr n ↦ let x = (rw (n, list_and_reconcile) at ended) in absurd (cc)
      | inl y ↦ elim (Option-cases (make_plan env cfg cs images)) [
        | inl n ↦
            let x =
              (rw (y, listed, list_and_reconcile, imaged, reconcile, n, reconcile) at ended) in
            absurd (cc)
        | inr (plan, e) ↦
            let x =
              (rw (y, listed, list_and_reconcile, imaged, reconcile, e, reconcile) at ended) in
            (plan, e, ap history_of x)
      ]
    ]
