-- ===== src/ContainerSync/Partition.antt =====
-- Kept and scheduled containers in the loop over the containers.
-- About pkg/containersync/worker.go.
use deviced.Base.{
  List, [], ◌∷◌, Option, none, some, Bool, Bytes, ◌≡◌, ◌≢◌, refl, sym, ◌∙◌, inl, inr, subst, All,
}
use deviced.Base.Assoc.{lookup, insert}
use deviced.Docker.{ApiContainer}
use deviced.Config.Target.{TargetContainer, LifecycleHook}
use deviced.ContainerSync.State.{RunningContainer, Plan, empty_plan}
use deviced.ContainerSync.Match.{
  build_running_container, discard_container, keep_container, prefer_new, prefer_old,
  sync_containers,
}
use deviced.ContainerSync.MatchSteps.{
  Step, unmatched, dead, first, better, worse, Steps, done, round, empty_plan-AllListed,
  sync_containers-Steps, IsNamed,
}
use deviced.ContainerSync.Handled.{
  IsKeptIn, IsKept, IsHandled, DistinctIds, lookup-insert_ne, IsKept-insert, All-IsHandled,
}

-- What holds between two rounds, with the containers `rest` still to come.
pub record Apart (plan : Plan) (rest : List ApiContainer) : Type 0 where
  pub one_key :
      (k j : Bytes) (a b : ApiContainer) → IsKept plan k a → IsKept plan j b → a.id ≡ b.id → k ≡ j
  pub not_scheduled :
      (k : Bytes) (a : ApiContainer) → IsKept plan k a → lookup a.id plan.to_delete ≡ none
  pub fresh_deletes : All (λ c. lookup c.id plan.to_delete ≡ none) rest
  pub fresh_keeps : (k : Bytes) (a : ApiContainer) → IsKept plan k a → All (λ c. a.id ≢ c.id) rest

All-unscheduled-insert :
    (i : Bytes) (hooks : List LifecycleHook) (m : List (Bytes × List LifecycleHook))
    (rest : List ApiContainer)
    → All (λ d. i ≢ d.id) rest
    → All (λ d. lookup d.id m ≡ none) rest
    → All (λ d. lookup d.id (insert i hooks m) ≡ none) rest
All-unscheduled-insert i hooks m [] ne f = tt
All-unscheduled-insert i hooks m (c ∷ rest) (n, ne) (e, f) =
    (lookup-insert_ne i c.id hooks m n ∙ e, All-unscheduled-insert i hooks m rest ne f)

-- A round that schedules the container at hand.
module _ (ctr : ApiContainer) (rest : List ApiContainer) (plan : Plan)
    (apart : Apart plan (ctr ∷ rest)) (distinct : All (λ d. ctr.id ≢ d.id) rest) where
  schedule-Apart :
      (hooks : List LifecycleHook) (starts : List (Bytes × Bool))
      → Apart
          (record plan { to_delete = insert ctr.id hooks plan.to_delete; to_start = starts })
          rest
  schedule-Apart hooks starts = record {
    one_key = apart.one_key;
    not_scheduled = λ k a h.
        lookup-insert_ne ctr.id a.id hooks plan.to_delete (λ e. (apart.fresh_keeps k a h).0 (sym e))
        ∙ apart.not_scheduled k a h;
    fresh_deletes =
        All-unscheduled-insert ctr.id hooks plan.to_delete rest distinct apart.fresh_deletes.1;
    fresh_keeps = λ k a h. (apart.fresh_keeps k a h).1;
  }

  -- Rounds that make it the container of key `i`.
  module _ (i : Bytes) (rc : RunningContainer) (listed : rc.api_container ≡ some ctr) where
    one_key-insert :
        (k j : Bytes) (a b : ApiContainer)
        → IsKeptIn (insert i rc plan.running) k a
        → IsKeptIn (insert i rc plan.running) j b
        → a.id ≡ b.id
        → k ≡ j
    one_key-insert k j a b ka kb e = elim (IsKept-insert plan i rc ctr k a listed ka) [
      | inl (p, q) ↦ elim (IsKept-insert plan i rc ctr j b listed kb) [
        | inl (r, s) ↦ sym p ∙ r
        | inr (r, old) ↦ absurd ((apart.fresh_keeps j b old).0 (cc))
      ]
      | inr (p, old_a) ↦ elim (IsKept-insert plan i rc ctr j b listed kb) [
        | inl (r, s) ↦ absurd ((apart.fresh_keeps k a old_a).0 (cc))
        | inr (r, old_b) ↦ apart.one_key k j a b old_a old_b e
      ]
    ]

    fresh_keeps-insert :
        (k : Bytes) (a : ApiContainer)
        → IsKeptIn (insert i rc plan.running) k a
        → All (λ c. a.id ≢ c.id) rest
    fresh_keeps-insert k a ka = elim (IsKept-insert plan i rc ctr k a listed ka) [
      | inl (p, q) ↦ subst (λ x. All (λ c. x.id ≢ c.id) rest) q distinct
      | inr (p, old) ↦ (apart.fresh_keeps k a old).1
    ]

    keep-Apart : Apart (record plan { running = insert i rc plan.running }) rest
    keep-Apart = record {
      one_key = one_key-insert;
      not_scheduled = λ k a ka. elim (IsKept-insert plan i rc ctr k a listed ka) [
        | inl (p, q) ↦ subst (λ x. lookup x.id plan.to_delete ≡ none) q apart.fresh_deletes.0
        | inr (p, old) ↦ apart.not_scheduled k a old
      ];
      fresh_deletes = apart.fresh_deletes.1;
      fresh_keeps = fresh_keeps-insert;
    }

    replace-Apart :
        (api : ApiContainer) (hooks : List LifecycleHook) (starts : List (Bytes × Bool))
        → IsKept plan i api
        → Apart
            (record plan {
              running = insert i rc plan.running;
              to_delete = insert api.id hooks plan.to_delete;
              to_start = starts;
            })
            rest
    replace-Apart api hooks starts was = record {
      one_key = one_key-insert;
      not_scheduled = λ k a ka. elim (IsKept-insert plan i rc ctr k a listed ka) [
        | inl (p, q) ↦
            subst (λ x. lookup x.id (insert api.id hooks plan.to_delete) ≡ none) q
              (lookup-insert_ne api.id ctr.id hooks plan.to_delete (apart.fresh_keeps i api was).0
                ∙ apart.fresh_deletes.0)
        | inr (p, old) ↦
            lookup-insert_ne api.id a.id hooks plan.to_delete
              (λ e. p (apart.one_key i k api a was old e))
            ∙ apart.not_scheduled k a old
      ];
      fresh_deletes =
          All-unscheduled-insert api.id hooks plan.to_delete rest (apart.fresh_keeps i api was).1
            apart.fresh_deletes.1;
      fresh_keeps = fresh_keeps-insert;
    }

module _ (goarch : Bytes) (targets : List TargetContainer) where
  Step-Apart :
      {ctr : ApiContainer} {plan next : Plan} (rest : List ApiContainer)
      → Step goarch targets ctr plan next
      → Apart plan (ctr ∷ rest)
      → All (λ d. ctr.id ≢ d.id) rest
      → Apart next rest
  unfolding discard_container keep_container prefer_new prefer_old build_running_container
  Step-Apart {ctr} {plan} rest (unmatched _) h d = schedule-Apart ctr rest plan h d [] plan.to_start
  Step-Apart {ctr} {plan} rest (dead _ _ _) h d = schedule-Apart ctr rest plan h d [] plan.to_start
  Step-Apart {ctr} {plan} rest (first mt _ _) h d = keep-Apart ctr rest plan h d mt.id _ refl
  Step-Apart {ctr} {plan} rest (better mt val api _ v a _) h d =
      replace-Apart ctr rest plan h d mt.id _ refl api _ _ (val, v, a)
  Step-Apart {ctr} {plan} rest (worse mt val api _ _ _ _) h d = schedule-Apart ctr rest plan h d _ _

  Steps-Apart :
      {ctrs : List ApiContainer} {plan next : Plan}
      → Steps goarch targets ctrs plan next
      → DistinctIds ctrs
      → Apart plan ctrs
      → Apart next []
  Steps-Apart done d h = h
  Steps-Apart (round {ctrs} s ss) (d, ds) h = Steps-Apart ss ds (Step-Apart ctrs s h d)

  empty_plan-Apart : (ctrs : List ApiContainer) → Apart empty_plan ctrs
  unfolding empty_plan lookup
  empty_plan-Apart ctrs = record {
    one_key = λ k j a b (rc, h, l). absurd (cc);
    not_scheduled = λ k a (rc, h, l). absurd (cc);
    fresh_deletes = all_none ctrs;
    fresh_keeps = λ k a (rc, h, l). absurd (cc);
  }
    where
      all_none :
          (cs : List ApiContainer) → All (λ c. ◌≡◌ {A = Option (List LifecycleHook)} none none) cs
      all_none [] = tt
      all_none (c ∷ cs) = (refl, all_none cs)

  pub sync_containers_partition :
      (ctrs : List ApiContainer)
      → All IsNamed ctrs
      → DistinctIds ctrs
      → (plan : Plan) × (sync_containers goarch targets ctrs empty_plan ≡ some plan)
        × All (IsHandled plan) ctrs
        × ((k : Bytes) (a : ApiContainer) → IsKept plan k a → lookup a.id plan.to_delete ≡ none)
        × ((k j : Bytes) (a b : ApiContainer)
            → IsKept plan k a
            → IsKept plan j b
            → a.id ≡ b.id
            → k ≡ j)
  sync_containers_partition ctrs named d =
      let (plan, e, ss, _) =
        sync_containers-Steps goarch targets ctrs empty_plan named empty_plan-AllListed in
      let apart = Steps-Apart ss d (empty_plan-Apart ctrs) in
      (plan, e, All-IsHandled goarch targets ss, apart.not_scheduled, apart.one_key)
