-- ===== src/ContainerSync/Obeyed.antt =====
-- A Docker that does what a pass asks for brings about the plan of the pass.
-- About pkg/containersync/worker.go.
use deviced.Base.{
  Bool, List, [], ◌∷◌, none, some, true, false, not, ◌&&◌, Bytes, is_empty, ◌≡◌, ◌⊎◌, refl, sym,
  ◌∙◌, subst, All, All-Elem, All-of_Elem, Elem, Option-cases, inl, inr,
}
use deviced.Base.Assoc.{lookup}
use deviced.Images.{ImageSummary, build_image_map}
use deviced.Docker.{ApiContainer, ContainerCreateConfig, Call, History}
use deviced.Docker.Made.{
  IsLater, IsLater-cons, IsMadeBetween, IsMadeBetween-earlier, AreMadeBetween,
}
use deviced.Config.Target.{LifecycleHook}
use deviced.Config.Document.{DevicedConfig}
use deviced.ContainerSync.State.{Plan}
use deviced.ContainerSync.Networks.{process_networks}
use deviced.ContainerSync.Choose.{create_config}
use deviced.ContainerSync.Execute.{has_network, is_own}
use deviced.ContainerSync.Pass.{Env, history_of, execute, make_plan}
use deviced.ContainerSync.Allowed.{AllowsPlan, process_networks-All}
use deviced.ContainerSync.Requests.{process_once-All}
use deviced.ContainerSync.Handled.{IsScheduled}
use deviced.ContainerSync.Warrants.{some-inj, IsWanted}
use deviced.ContainerSync.WarrantedPlan.{make_plan-Warranted}
use deviced.ContainerSync.Carried.{execute_creates, execute_deletes}
use deviced.ContainerSync.Starts.{lookup-Elem, AreMadeBetween-each, execute_starts, IsLater-trans}
use deviced.ContainerSync.Shown.{IsMade, Follows}
use deviced.ContainerSync.Answers.{
  IsRemoved, Answers, IsPlanned, AllowsRest-IsPlanned, AllowsPlan-IsPlanned, process_once_finished,
}

-- The worker's surroundings and the configuration, for a worker that is free to do what it plans: a walk
-- over a map meets the entries of the map, no container is protected, and no target has a network mode.
pub record IsFree (env : Env) (cfg : DevicedConfig) : Type 0 where
  pub deletes_only :
      (m : List (Bytes × List LifecycleHook)) (e : Bytes × List LifecycleHook)
      → Elem e (env.delete_order m)
      → Elem e m
  pub deletes_all :
      (m : List (Bytes × List LifecycleHook)) (e : Bytes × List LifecycleHook)
      → Elem e m
      → Elem e (env.delete_order m)
  pub starts_all :
      (m : List (Bytes × Bool)) (e : Bytes × Bool) → Elem e m → Elem e (env.start_order m)
  pub unprotected :
      (cid : Bytes)
      → is_own env.reflection cid && not cfg.container_config.allow_self_delete ≡ false
  pub modeless : All (λ t. is_empty t.docker_host_config.network_mode ≡ true) cfg.containers

module _ (env : Env) (cfg : DevicedConfig) (images : List ImageSummary) (free : IsFree env cfg)
    (h : History) (cs : List ApiContainer) (after : History) (ds : List ApiContainer)
    (a : Answers env cfg images h cs after ds) (plan : Plan)
    (planned : make_plan env cfg cs images ≡ some plan) where
  requests-IsPlanned : AreMadeBetween (IsPlanned plan) h after
  requests-IsPlanned =
      subst (λ o. AreMadeBetween (IsPlanned plan) h (history_of o)) a.ended
        (process_once-All (IsPlanned plan) env cfg
          (AllowsRest-IsPlanned env cfg free.deletes_only plan) h
          (λ got next answered k.
            let same : images ≡ got = some-inj (sym a.imaged ∙ answered) in
            let made : make_plan env cfg cs got ≡ some next = (rw a.listed at k) in
            subst (λ p. AllowsPlan (IsPlanned plan) env cfg p)
              (some-inj
                (sym planned ∙ subst (λ i. make_plan env cfg cs i ≡ some next) (sym same) made))
              (AllowsPlan-IsPlanned env cfg free.deletes_only plan)))

  removed-IsScheduled : (c : ApiContainer) → IsRemoved c.id h after → IsScheduled plan c
  removed-IsScheduled c (_, removed) =
      AreMadeBetween-each (IsPlanned plan) h after (Call.container_remove c.id) requests-IsPlanned
        removed

  created-Elem :
      (m : ContainerCreateConfig)
      → IsMadeBetween (Call.container_create m) h after
      → Elem m plan.to_create
  created-Elem m made =
      AreMadeBetween-each (IsPlanned plan) h after (Call.container_create m) requests-IsPlanned made

  created-has_network :
      (m : ContainerCreateConfig)
      → Elem m plan.to_create
      → has_network env.daemon env.network_name (process_networks env.daemon cfg.networks h).0 m
        ≡ true
  unfolding has_network create_config
  created-has_network m there =
      let (t, avail, n, among, _, _, e) =
        All-Elem (IsWanted env.goarch env.rand cfg.containers (build_image_map images))
          plan.to_create m (make_plan-Warranted env cfg cs images planned).creates there in
      rw
        (
          e,
          All-Elem (λ t. is_empty t.docker_host_config.network_mode ≡ true) cfg.containers t
              free.modeless among,
        )
        refl

  -- The history in front of the last three loops.
  abbrev before : History
  before = Call.image_list ∷ Call.container_list ∷ (process_networks env.daemon cfg.networks h).1

  before-IsLater : IsLater h before
  before-IsLater =
      let (made, e, _) =
        process_networks-All (IsPlanned plan) env.daemon
          (AllowsRest-IsPlanned env cfg free.deletes_only plan) h cfg.networks h ([], refl, tt) in
      IsLater-cons h _ _ (IsLater-cons h _ _ (made, e))

  module _
      (carried : execute env cfg (process_networks env.daemon cfg.networks h).0 plan before
        ≡ after) where
    done :
        (c : Call)
        → IsMadeBetween c before
            (execute env cfg (process_networks env.daemon cfg.networks h).0 plan before)
        → IsMadeBetween c h after
    done c made =
        IsMadeBetween-earlier c h before after before-IsLater
          (subst (λ k. IsMadeBetween c before k) carried made)

    kept-lookup : (d : ApiContainer) → ¬ IsRemoved d.id h after → lookup d.id plan.to_delete ≡ none
    kept-lookup d stays = elim (Option-cases (lookup d.id plan.to_delete)) [
      | inl n ↦ n
      | inr (hooks, e) ↦
          let (stopped, removed) =
            execute_deletes env cfg (process_networks env.daemon cfg.networks h).0 plan before d.id
              hooks (free.deletes_all plan.to_delete) (free.unprotected d.id)
              (lookup-Elem d.id plan.to_delete e) in
          absurd (
            stays
              (done (Call.container_stop d.id) stopped, done (Call.container_remove d.id) removed))
    ]

    planned-IsMade :
        (m : ContainerCreateConfig) → Elem m plan.to_create → Elem (a.new m) ds × IsMade m (a.new m)
    planned-IsMade m there =
        let nets = (process_networks env.daemon cfg.networks h).0 in
        let known = created-has_network m there in
        let asked =
          done (Call.container_create m) (execute_creates env cfg nets plan before m known there) in
        let started = done (Call.container_start (a.new m).id) (
          execute_starts env cfg nets plan before m (a.new m).id free.starts_all known
            (λ k from till.
              a.answered m k (IsLater-trans h before k before-IsLater from)
                (subst (λ l. IsLater (Call.container_create m ∷ k) l) carried till))
            there) in
        let (listed, image, label) = a.created m asked in
        (listed, record { image = image; label = label; state = a.running m asked started })

-- What Docker lists after it has done what the pass asks is what the plan of the pass brings about.
pub Answers-Follows :
    (env : Env) (cfg : DevicedConfig) (images : List ImageSummary) {h : History}
    {cs : List ApiContainer} {after : History} {ds : List ApiContainer}
    → IsFree env cfg
    → Answers env cfg images h cs after ds
    → Follows env cfg images cs ds
Answers-Follows env cfg images {h} {cs} {after} {ds} free a =
    let (plan, planned, carried) =
      process_once_finished env cfg h after cs images a.listed a.imaged a.ended in
    record {
      distinct = a.distinct;
      plan = plan;
      planned = planned;
      new = a.new;
      spared =
          All-of_Elem (λ c. IsScheduled plan c ⊎ Elem c ds) cs
            (λ c m. elim (All-Elem (λ c. IsRemoved c.id h after ⊎ Elem c ds) cs c a.left m) [
              | inl gone ↦
                  inl (removed-IsScheduled env cfg images free h cs after ds a plan planned c gone)
              | inr stays ↦ inr stays
            ]);
      made =
          All-of_Elem (λ m. Elem (a.new m) ds × IsMade m (a.new m)) plan.to_create
            (planned-IsMade env cfg images free h cs after ds a plan planned carried);
      known =
          All-of_Elem
            (λ d.
              (Elem d cs × (lookup d.id plan.to_delete ≡ none))
              ⊎ ((m : ContainerCreateConfig) × Elem m plan.to_create × (d ≡ a.new m)))
            ds
            (λ d m. elim (All-Elem _ ds d a.known m) [
              | inl (there, stays) ↦ inl (
                there,
                kept-lookup env cfg images free h cs after ds a plan planned carried d stays,
              )
              | inr (c, asked, e) ↦
                  inr (c, created-Elem env cfg images free h cs after ds a plan planned c asked, e)
            ]);
    }
