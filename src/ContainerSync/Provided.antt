-- ===== src/ContainerSync/Provided.antt =====
-- What the loop over the targets brings about.
-- About pkg/containersync/worker.go.
use deviced.Base.{
  ℕ, List, [], ◌∷◌, none, some, false, Bytes, beq, beq→eq, eq→beq, ◌≡◌, ◌≢◌, ◌⊎◌, refl, sym, ◌∙◌,
  arith, inl, inr, All, Bool-cases, Option-cases,
}
use deviced.Base.Assoc.{lookup, lookup_or, insert, lookup-insert_self, lookup-insert-some}
use deviced.Docker.{ApiContainer}
use deviced.Config.Target.{TargetContainer, LifecycleHook}
use deviced.ContainerSync.State.{RunningContainer, Plan}
use deviced.ContainerSync.MatchSteps.{IsListed}
use deviced.ContainerSync.Handled.{lookup-insert_ne}
use deviced.ContainerSync.Choose.{
  is_acceptable, zero_container, candidate, schedule_create, decide_missing, decide_target,
  decide_targets,
}
use deviced.ContainerSync.Selection.{replacement, decide_running_cases, decide_missing_cases}
use deviced.ContainerSync.Panics.{DistinctTargets}
use deviced.ContainerSync.Realized.{Realizes, created_plan, created_plan-Realizes}

module _ (goarch : Bytes) (rand : ℕ → ℕ) (ctrs : List ApiContainer) where
  -- The tags that may be used for a target are not enough to give it a container.
  abbrev pub HasNone : List (Bytes × List Bytes) → TargetContainer → Type 0
  HasNone available t =
      All (λ y. is_acceptable goarch t false zero_container y ≡ false)
        (lookup_or t.image [] available)

  -- The target has a container in the plan's map, or no available tag may be used for it.
  abbrev pub IsProvided : List (Bytes × List Bytes) → Plan → TargetContainer → Type 0
  IsProvided available plan t =
      ((rc : RunningContainer) × (lookup t.id plan.running ≡ some rc)) ⊎ HasNone available t

  -- No entry of the map is dropped.
  abbrev Grows : Plan → Plan → Type 0
  Grows plan next =
      (k : Bytes)
      → (rc : RunningContainer) × (lookup k plan.running ≡ some rc)
      → (rc : RunningContainer) × (lookup k next.running ≡ some rc)

  -- The containers of the targets to come are listed ones.
  abbrev pub Listed : List TargetContainer → Plan → Type 0
  Listed ts plan =
      All
        (λ (t : TargetContainer).
          (rc : RunningContainer) → lookup t.id plan.running ≡ some rc → IsListed rc)
        ts

  Listed-insert :
      (t : TargetContainer) (rc : RunningContainer) (plan : Plan) (ts : List TargetContainer)
      → All (λ u. t.id ≢ u.id) ts
      → Listed ts plan
      → All
          (λ (u : TargetContainer).
            (r : RunningContainer)
            → lookup u.id (insert t.id rc plan.running) ≡ some r
            → IsListed r)
          ts
  Listed-insert t rc plan [] d l = tt
  Listed-insert t rc plan (u ∷ ts) (n, d) (l, ls) = (
    (λ r e. l r (sym (lookup-insert_ne t.id u.id rc plan.running n) ∙ e)),
    Listed-insert t rc plan ts d ls,
  )

  abbrev Ok : Plan → Type 0
  Ok plan = Realizes goarch rand ctrs plan

  module _ (available : List (Bytes × List Bytes)) where
    -- What a round of the loop over the targets keeps and adds.
    abbrev Round : TargetContainer → List TargetContainer → Plan → Plan → Type 0
    Round t ts plan next = Ok next × Grows plan next × Listed ts next × IsProvided available next t

    created-Round :
        (t : TargetContainer) (ts : List TargetContainer) (avail : Bytes) (plan : Plan)
        (deletes : List (Bytes × List LifecycleHook))
        → All (λ u. t.id ≢ u.id) ts
        → Listed ts plan
        → Ok (created_plan goarch rand ctrs t avail plan deletes)
        → Round t ts plan (created_plan goarch rand ctrs t avail plan deletes)
    unfolding schedule_create
    created-Round t ts avail plan deletes d l r = (
      r,
      λ k had. lookup-insert-some t.id k (candidate goarch t avail) plan.running had,
      Listed-insert t (candidate goarch t avail) plan ts d l,
      inl (_, lookup-insert_self t.id (candidate goarch t avail) plan.running),
    )

    replaced-Realizes :
        (t : TargetContainer) (avail : Bytes) (plan : Plan) (current : RunningContainer)
        (api : ApiContainer)
        → Ok plan
        → lookup t.id plan.running ≡ some current
        → current.api_container ≡ some api
        → Ok (
            created_plan goarch rand ctrs t avail plan
              (insert api.id t.lifecycle_hooks.on_stop plan.to_delete))
    replaced-Realizes t avail plan current api r at l =
        let hooks = t.lifecycle_hooks.on_stop in
        created_plan-Realizes goarch rand ctrs t avail plan (insert api.id hooks plan.to_delete) r
          (λ k c ne kept free.
            lookup-insert_ne api.id c.id hooks plan.to_delete
              (λ e. ne (r.one_key t.id k api c (current, at, l) kept e))
            ∙ free)
          (λ c h. elim h [
            | inl s ↦ inl (lookup-insert-some api.id c.id hooks plan.to_delete s)
            | inr (k, (rc, there, has)) ↦ elim (Bool-cases (beq t.id k)) [
              | inl e ↦
                  let same : api ≡ c = cc (beq→eq t.id k e) in
                  inl (hooks, rw (← same) (lookup-insert_self api.id hooks plan.to_delete))
              | inr n ↦ inr (k, (λ q. ground (arith, eq→beq t.id k q)), (rc, there, has))
            ]
          ])

    missing-Realizes :
        (t : TargetContainer) (avail : Bytes) (plan : Plan)
        → Ok plan
        → lookup t.id plan.running ≡ none
        → Ok (created_plan goarch rand ctrs t avail plan plan.to_delete)
    missing-Realizes t avail plan r gone =
        created_plan-Realizes goarch rand ctrs t avail plan plan.to_delete r
          (λ k c ne kept free. free)
          (λ c h. elim h [
            | inl s ↦ inl s
            | inr (k, (rc, there, has)) ↦ elim (Bool-cases (beq t.id k)) [
              | inl e ↦ absurd (cc (beq→eq t.id k e))
              | inr n ↦ inr (k, (λ q. ground (arith, eq→beq t.id k q)), (rc, there, has))
            ]
          ])

    decide_target-Round :
        (t : TargetContainer) (ts : List TargetContainer) (plan : Plan)
        → All (λ u. t.id ≢ u.id) ts
        → Listed (t ∷ ts) plan
        → Ok plan
        → (next : Plan) × (decide_target goarch rand available t plan ≡ some next)
          × Round t ts plan next
    unfolding decide_target
    decide_target-Round t ts plan d (l, ls) r = elim (Option-cases (lookup t.id plan.running)) [
      | inl gone ↦ (
        decide_missing goarch rand available t plan,
        rw (gone, decide_target),
        elim (decide_missing_cases goarch rand t available plan) [
          | inl (e, unfit) ↦ rw e (r, (λ k had. had), ls, inr unfit)
          | inr (avail, _, _, e) ↦ rw e (
              created-Round t ts avail plan plan.to_delete d ls
                (missing-Realizes t avail plan r gone))
        ],
      )
      | inr (current, at) ↦
          let (api, has) = l current at in
          elim (decide_running_cases goarch rand t available plan current api has) [
            | inl (e, _) ↦
                (plan, rw (at, decide_target) e, (r, (λ k had. had), ls, inl (current, at)))
            | inr (avail, _, _, _, e) ↦ (
              replacement goarch rand t plan api avail,
              rw (at, decide_target) e,
              unfold replacement in
                  created-Round t ts avail plan
                    (insert api.id t.lifecycle_hooks.on_stop plan.to_delete) d ls
                    (replaced-Realizes t avail plan current api r at has),
            )
          ]
    ]

    IsProvided-Grows :
        (t : TargetContainer) (plan next : Plan)
        → Grows plan next
        → IsProvided available plan t
        → IsProvided available next t
    IsProvided-Grows t plan next g (inl has) = inl (g t.id has)
    IsProvided-Grows t plan next g (inr unfit) = inr unfit

    pub decide_targets-Realizes :
        (ts : List TargetContainer) (plan : Plan)
        → DistinctTargets ts
        → Listed ts plan
        → Ok plan
        → (next : Plan) × (decide_targets goarch rand available ts plan ≡ some next)
          × Ok next
          × Grows plan next
          × All (IsProvided available next) ts
    unfolding decide_targets
    decide_targets-Realizes [] plan d l r = (plan, refl, r, (λ k had. had), tt)
    decide_targets-Realizes (t ∷ ts) plan (d, ds) l r =
        let (mid, e, (rm, gm, lm, served)) = decide_target-Round t ts plan d l r in
        let (next, q, rn, gn, all) = decide_targets-Realizes ts mid ds lm rm in
        (
          next,
          rw (e, decide_targets) q,
          rn,
          (λ k had. gn k (gm k had)),
          (IsProvided-Grows t mid next gn served, all),
        )
