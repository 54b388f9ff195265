-- ===== src/ContainerSync/Changes.antt =====
-- What the loop over the targets makes of each target.
-- About pkg/containersync/worker.go.
use deviced.Base.{
  ℕ, ◌<◌, List, [], ◌∷◌, Bool, Option, none, some, true, false, Bytes, ◌≡◌, ◌≢◌, refl, sym, ◌∙◌,
  All, Elem, Option-cases, inl, inr, ◌⊎◌,
}
use deviced.Base.Assoc.{lookup, lookup_or, lookup-insert_self}
use deviced.Config.Target.{TargetContainer}
use deviced.ContainerSync.State.{RunningContainer, Plan}
use deviced.ContainerSync.Handled.{lookup-insert_ne}
use deviced.ContainerSync.Choose.{
  zero_container, is_acceptable, candidate, schedule_create, decide_missing, decide_target,
  decide_targets,
}
use deviced.ContainerSync.Selection.{
  IsUpgrade, replacement, decide_running_cases, decide_missing_cases,
}
use deviced.ContainerSync.Panics.{DistinctTargets, ListedFor}

module _ (goarch : Bytes) (available : List (Bytes × List Bytes)) where
  -- No available tag may take the place of the target's container, or of none.
  abbrev pub AllRefused : TargetContainer → Bool → RunningContainer → Type 0
  AllRefused t ok current =
      All (λ tag. is_acceptable goarch t ok current tag ≡ false) (lookup_or t.image [] available)

  -- The target's container before and after.
  pub data Change (t : TargetContainer)
      : Option RunningContainer → Option RunningContainer → Type 0 where
    kept :
        (rc : RunningContainer)
        → (rc.score ≡ 0) ⊎ AllRefused t true rc
        → Change t (some rc) (some rc)
    replaced :
        (rc : RunningContainer) (avail : Bytes)
        → Elem avail (lookup_or t.image [] available)
        → IsUpgrade goarch t rc avail
        → 0 < rc.score
        → Change t (some rc) (some (candidate goarch t avail))
    left_out : AllRefused t false zero_container → Change t none none
    created :
        (avail : Bytes)
        → Elem avail (lookup_or t.image [] available)
        → is_acceptable goarch t false zero_container avail ≡ true
        → Change t none (some (candidate goarch t avail))

  module _ (rand : ℕ → ℕ) where
    -- What a round does to the map of containers.
    abbrev Round : TargetContainer → Plan → Plan → Type 0
    Round t plan next =
        Change t (lookup t.id plan.running) (lookup t.id next.running)
        × ((k : Bytes) → t.id ≢ k → lookup k next.running ≡ lookup k plan.running)

    schedule_create-other :
        (t : TargetContainer) (avail k : Bytes) (plan : Plan)
        → t.id ≢ k
        → lookup k (schedule_create goarch rand t (candidate goarch t avail) plan).running
          ≡ lookup k plan.running
    unfolding schedule_create
    schedule_create-other t avail k plan n = lookup-insert_ne t.id k _ plan.running n

    schedule_create_self :
        (t : TargetContainer) (avail : Bytes) (plan : Plan)
        → lookup t.id (schedule_create goarch rand t (candidate goarch t avail) plan).running
          ≡ some (candidate goarch t avail)
    unfolding schedule_create
    schedule_create_self t avail plan = lookup-insert_self t.id _ plan.running

    decide_target-Round :
        (t : TargetContainer) (plan : Plan)
        → ListedFor (t ∷ []) plan
        → (next : Plan) × (decide_target goarch rand available t plan ≡ some next)
          × Round t plan next
    unfolding decide_target replacement
    decide_target-Round t plan (l, _) = elim (Option-cases (lookup t.id plan.running)) [
      | inl gone ↦ (
        decide_missing goarch rand available t plan,
        rw (gone, decide_target),
        elim (decide_missing_cases goarch rand t available plan) [
          | inl (e, unfit) ↦ rw (e, gone) (left_out unfit, λ k n. refl)
          | inr (avail, m, a, e) ↦
              rw (e, schedule_create_self, gone)
                (created avail m a, λ k n. schedule_create-other t avail k plan n)
        ],
      )
      | inr (current, at) ↦
          let (api, has) = l current at in
          elim (decide_running_cases goarch rand t available plan current api has) [
            | inl (e, s) ↦ (plan, rw (at, decide_target) e, rw at (kept current s, λ k n. refl))
            | inr (avail, m, up, pos, e) ↦ (
              replacement goarch rand t plan api avail,
              rw (at, decide_target) e,
              rw (schedule_create_self, at)
                  (replaced current avail m up pos, λ k n. schedule_create-other t avail k _ n),
            )
          ]
    ]

    -- The plan has for the targets what the plan `origin` has.
    abbrev pub Agrees : Plan → Plan → List TargetContainer → Type 0
    Agrees origin plan ts =
        All (λ (t : TargetContainer). lookup t.id plan.running ≡ lookup t.id origin.running) ts

    Agrees-after :
        (t : TargetContainer) (origin plan next : Plan) (ts : List TargetContainer)
        → ((k : Bytes) → t.id ≢ k → lookup k next.running ≡ lookup k plan.running)
        → All (λ u. t.id ≢ u.id) ts
        → Agrees origin plan ts
        → Agrees origin next ts
    Agrees-after t origin plan next [] same d a = tt
    Agrees-after t origin plan next (u ∷ us) same (n, d) (e, a) =
        (same u.id n ∙ e, Agrees-after t origin plan next us same d a)

    All-ne-sym :
        (k : Bytes) (ts : List TargetContainer)
        → All (λ (u : TargetContainer). k ≢ u.id) ts
        → All (λ (u : TargetContainer). u.id ≢ k) ts
    All-ne-sym k [] a = tt
    All-ne-sym k (u ∷ us) (n, a) = ((λ e. n (sym e)), All-ne-sym k us a)

    pub decide_targets-Change :
        (ts : List TargetContainer) (origin plan : Plan)
        → DistinctTargets ts
        → ListedFor ts origin
        → Agrees origin plan ts
        → (last : Plan) × (decide_targets goarch rand available ts plan ≡ some last)
          × All
              (λ (t : TargetContainer).
                Change t (lookup t.id origin.running) (lookup t.id last.running))
              ts
          × ((k : Bytes)
              → All (λ (t : TargetContainer). t.id ≢ k) ts
              → lookup k last.running ≡ lookup k plan.running)
    unfolding decide_targets
    decide_targets-Change [] origin plan d l a = (plan, refl, tt, λ k n. refl)
    decide_targets-Change (t ∷ ts) origin plan (d, ds) (l, ls) (e, a) =
        let (mid, p, (o, same)) = decide_target-Round t plan ((λ rc at. l rc (sym e ∙ at)), tt) in
        let (last, q, os, others) =
          decide_targets-Change ts origin mid ds ls (Agrees-after t origin plan mid ts same d a) in
        (
          last,
          rw (p, decide_targets) q,
          (rw (← e, others t.id (All-ne-sym t.id ts d)) o, os),
          λ k (n, ns). others k ns ∙ same k n,
        )
