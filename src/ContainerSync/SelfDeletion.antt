-- ===== src/ContainerSync/SelfDeletion.antt =====
-- The requests of a pass and the container that the worker runs in.
-- About pkg/containersync/worker.go.
use deviced.Base.{
  List, some, true, false, not, ◌&&◌, Bytes, beq, ◌≡◌, ◌≢◌, arith, All-of_All, sym, eq→beq,
}
use deviced.Docker.{Call, History}
use deviced.Docker.Made.{AreMadeBetween}
use deviced.Config.Target.{LifecycleHook}
use deviced.Config.Document.{DevicedConfig}
use deviced.ContainerSync.State.{Plan}
use deviced.ContainerSync.Execute.{is_own}
use deviced.ContainerSync.Pass.{Env, history_of, process_once}
use deviced.ContainerSync.Allowed.{AllowsRest, Deletable, Startable, AllowsPlan}
use deviced.ContainerSync.Requests.{process_once-All}

-- The request neither stops nor removes `own`, and runs no hook in it.
abbrev pub Spares : Bytes → Call → Type 0
Spares own (Call.container_stop cid) = cid ≢ own
Spares own (Call.container_remove cid) = cid ≢ own
Spares own (Call.exec_create cid cmd) = cid ≢ own
Spares own Call.network_list = Unit
Spares own (Call.network_create n c) = Unit
Spares own (Call.network_inspect n) = Unit
Spares own Call.container_list = Unit
Spares own Call.image_list = Unit
Spares own (Call.exec_attach n) = Unit
Spares own (Call.container_create c) = Unit
Spares own (Call.container_start c) = Unit
Spares own (Call.image_pull r a) = Unit
Spares own (Call.image_tag s t) = Unit
Spares own (Call.registry_connect u e i) = Unit
Spares own (Call.registry_tags u i) = Unit
Spares own Call.wake_containers = Unit

module _ (own : Bytes) where
  pub AllowsRest-Spares : AllowsRest (Spares own)
  AllowsRest-Spares = record {
    network_list = tt;
    network_create = λ n c. tt;
    network_inspect = λ n. tt;
    container_list = tt;
    image_list = tt;
    exec_attach = λ n. tt;
  }

  Deletable-other : (cid : Bytes) → cid ≢ own → Deletable (Spares own) cid
  Deletable-other cid ne = record { stop = ne; remove = ne; exec = λ cmd. ne }

module _ (own : Bytes) (env : Env) (cfg : DevicedConfig) (located : env.reflection ≡ some own)
    (kept : cfg.container_config.allow_self_delete ≡ false) where
  other_container :
      (cid : Bytes)
      → is_own env.reflection cid && not cfg.container_config.allow_self_delete ≡ false
      → cid ≢ own
  unfolding is_own
  other_container cid e =
      let free : beq own cid && true ≡ false = (rw (located, kept) at e) in
      λ q. ground (arith, eq→beq own cid (sym q))

  AllowsPlan-Spares : (plan : Plan) → AllowsPlan (Spares own) env cfg plan
  AllowsPlan-Spares plan = record {
    deletes =
        All-of_All
          (λ (e : Bytes × List LifecycleHook).
            is_own env.reflection e.0 && not cfg.container_config.allow_self_delete ≡ false
            → Deletable (Spares own) e.0)
          (λ e free. Deletable-other own e.0 (other_container e.0 free))
          (env.delete_order plan.to_delete);
    creates = All-of_All (λ c. Spares own (Call.container_create c)) (λ c. tt) plan.to_create;
    starts = All-of_All (Startable (Spares own)) (λ e. tt) plan.to_start;
    created = λ h c id e. tt;
    ordered = λ m a. All-of_All (Startable (Spares own)) (λ e. tt) (env.start_order m);
  }

  -- If the worker knows its own container and may not delete itself, a pass makes no request that
  -- stops or removes this container or runs a hook in it: for every configuration, every answer of
  -- Docker and every order of the maps, and also where the pass gives up or panics.
  pub process_once-Spares :
      (h : History) → AreMadeBetween (Spares own) h (history_of (process_once env cfg h))
  process_once-Spares h =
      process_once-All (Spares own) env cfg (AllowsRest-Spares own) h
        (λ images plan i p. AllowsPlan-Spares plan)
