-- ===== src/ContainerSync/Warrants.antt =====
-- Where the entries of a plan come from.
-- About pkg/containersync/worker.go.
use deviced.Base.{
  ℕ, ◌≤◌, List, [], ◌∷◌, some, Bool, true, Bytes, beq, ◌≡◌, ◌⊎◌, refl, inl, inr, subst, All, Any,
  Elem, All-append, Bool-cases, length,
}
use deviced.Base.Assoc.{lookup, lookup_or}
use deviced.Docker.{ApiContainer, ContainerCreateConfig}
use deviced.Config.Target.{TargetContainer, LifecycleHook, container_version_score}
use deviced.ContainerSync.State.{RunningContainer, Plan, empty_plan}
use deviced.ContainerSync.Match.{
  build_running_container, score_of, discard_container, keep_container, prefer_new, prefer_old,
}
use deviced.ContainerSync.MatchSteps.{
  Step, unmatched, dead, first, better, worse, Steps, done, round,
}
use deviced.ContainerSync.Choose.{score_limit, candidate, create_config, schedule_create}
use deviced.Base.Assoc.{All-insert}

-- One of the containers has the id.
abbrev pub IsOf : List ApiContainer → Bytes → Type 0
IsOf ctrs id = Any (λ c. c.id ≡ id) ctrs

-- The container is for one of the targets, of one of the available tags of its image, which the target
-- may use.
abbrev pub IsWanted :
    Bytes
    → (ℕ → ℕ)
    → List TargetContainer
    → List (Bytes × List Bytes)
    → ContainerCreateConfig
    → Type 0
IsWanted goarch rand targets available ctr =
    (t : TargetContainer) × (avail : Bytes) × (n : ℕ) × Elem t targets
    × Elem avail (lookup_or t.image [] available)
    × ((t.use_any_version ≡ true) ⊎ (container_version_score goarch t avail ≤ score_limit))
    × (ctr ≡ create_config goarch rand t (candidate goarch t avail) n)

pub some-inj : {V : Type 0} {v w : V} → some v ≡ some w → v ≡ w
some-inj e = cc

-- A value of a map satisfies what all of them do.
pub lookup-All :
    {V : Type 0} (P : V → Type 0) (k : Bytes) (m : List (Bytes × V)) {v : V}
    → lookup k m ≡ some v
    → All (λ (e : Bytes × V). P e.1) m
    → P v
unfolding lookup
lookup-All P k [] h a = absurd (cc)
lookup-All P k ((j, w) ∷ m) {v} h (p, a) = elim (Bool-cases (beq j k)) [
  | inl e ↦ let same : some w ≡ some v = (rw e at h) in subst P (some-inj same) p
  | inr e ↦ lookup-All P k m (rw e at h) a
]

module _ (goarch : Bytes) (rand : ℕ → ℕ) (targets : List TargetContainer)
    (available : List (Bytes × List Bytes)) (ctrs : List ApiContainer) where
  abbrev pub Backed : RunningContainer → Type 0
  Backed rc = (api : ApiContainer) → rc.api_container ≡ some api → IsOf ctrs api.id

  abbrev pub Deleted : Bytes × List LifecycleHook → Type 0
  Deleted e = IsOf ctrs e.0

  abbrev pub Started : Bytes × Bool → Type 0
  Started e = IsOf ctrs e.0

  abbrev pub Kept : Bytes × RunningContainer → Type 0
  Kept e = Backed e.1

  -- What is deleted or started is one of the containers, and what is created is wanted.
  pub record Warranted (plan : Plan) : Type 0 where
    pub deletes : All Deleted plan.to_delete
    pub starts : All Started plan.to_start
    pub backed : All Kept plan.running
    pub creates : All (IsWanted goarch rand targets available) plan.to_create

  pub empty_plan-Warranted : Warranted empty_plan
  unfolding empty_plan
  empty_plan-Warranted = record { deletes = tt; starts = tt; backed = tt; creates = tt }

  Backed-of :
      (rc : RunningContainer) (ctr : ApiContainer)
      → rc.api_container ≡ some ctr
      → IsOf ctrs ctr.id
      → Backed rc
  Backed-of rc ctr e m api f = let same : ctr ≡ api = cc in subst (λ a. IsOf ctrs a.id) same m

  Step-Warranted :
      {ctr : ApiContainer} {plan next : Plan}
      → Step goarch targets ctr plan next
      → IsOf ctrs ctr.id
      → Warranted plan
      → Warranted next
  unfolding discard_container keep_container prefer_new prefer_old build_running_container
  Step-Warranted {ctr} {plan} (unmatched _) m w = record {
    deletes = All-insert Deleted ctr.id [] plan.to_delete m w.deletes;
    starts = w.starts;
    backed = w.backed;
    creates = w.creates;
  }
  Step-Warranted {ctr} {plan} (dead _ _ _) m w = record {
    deletes = All-insert Deleted ctr.id [] plan.to_delete m w.deletes;
    starts = w.starts;
    backed = w.backed;
    creates = w.creates;
  }
  Step-Warranted {ctr} {plan} (first mt _ _) m w = record {
    deletes = w.deletes;
    starts = w.starts;
    backed =
        All-insert Kept mt.id _ plan.running
          (Backed-of (build_running_container ctr mt (score_of goarch ctr mt)) ctr refl m) w.backed;
    creates = w.creates;
  }
  Step-Warranted {ctr} {plan} (better mt val api _ v a _) m w = record {
    deletes =
        All-insert Deleted api.id mt.lifecycle_hooks.on_stop plan.to_delete
          (lookup-All Backed mt.id plan.running v w.backed api a) w.deletes;
    starts = All-insert Started ctr.id true plan.to_start m w.starts;
    backed =
        All-insert Kept mt.id _ plan.running
          (Backed-of (build_running_container ctr mt (score_of goarch ctr mt)) ctr refl m) w.backed;
    creates = w.creates;
  }
  Step-Warranted {ctr} {plan} (worse mt val api _ v a _) m w = record {
    deletes = All-insert Deleted ctr.id mt.lifecycle_hooks.on_stop plan.to_delete m w.deletes;
    starts =
        All-insert Started api.id true plan.to_start
          (lookup-All Backed mt.id plan.running v w.backed api a) w.starts;
    backed = w.backed;
    creates = w.creates;
  }

  pub Steps-Warranted :
      {cs : List ApiContainer} {plan next : Plan}
      → Steps goarch targets cs plan next
      → ((c : ApiContainer) → Elem c cs → IsOf ctrs c.id)
      → Warranted plan
      → Warranted next
  Steps-Warranted done sub w = w
  Steps-Warranted (round {ctr} s ss) sub w =
      Steps-Warranted ss (λ c m. sub c (inr m)) (Step-Warranted s (sub ctr (inl refl)) w)

  pub schedule_create-Warranted :
      (t : TargetContainer) (avail : Bytes) (plan : Plan)
      → Elem t targets
      → Elem avail (lookup_or t.image [] available)
      → (t.use_any_version ≡ true) ⊎ (container_version_score goarch t avail ≤ score_limit)
      → Warranted plan
      → Warranted (schedule_create goarch rand t (candidate goarch t avail) plan)
  unfolding schedule_create candidate
  schedule_create-Warranted t avail plan mt ma ok w = record {
    deletes = w.deletes;
    starts = w.starts;
    backed = All-insert Kept t.id (candidate goarch t avail) plan.running (λ api e. cc) w.backed;
    creates =
        All-append (IsWanted goarch rand targets available) plan.to_create _ w.creates
          ((t, avail, length plan.to_create, mt, ma, ok, refl), tt);
  }
