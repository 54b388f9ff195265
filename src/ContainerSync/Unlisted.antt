-- ===== src/ContainerSync/Unlisted.antt =====
-- What the loop over the targets plans where no container is known.
-- About pkg/containersync/worker.go.
use deviced.Base.{
  ℕ, List, [], ◌∷◌, none, some, false, Bytes, length, ◌≡◌, ◌≢◌, ◌⊎◌, refl, ◌∙◌, inl, inr, All, Elem,
  Any-append_left, Any-append_right,
}
use deviced.Base.Assoc.{lookup, lookup_or}
use deviced.Docker.{ContainerCreateConfig}
use deviced.Config.Target.{TargetContainer}
use deviced.ContainerSync.State.{Plan}
use deviced.ContainerSync.Handled.{lookup-insert_ne}
use deviced.ContainerSync.Choose.{
  is_acceptable, zero_container, candidate, create_config, schedule_create, decide_target,
  decide_targets,
}
use deviced.ContainerSync.Selection.{decide_missing_cases}
use deviced.ContainerSync.Panics.{DistinctTargets}

module _ (goarch : Bytes) (rand : ℕ → ℕ) (available : List (Bytes × List Bytes)) where
  -- The plan creates a container for the target.
  abbrev pub IsRenewed : List ContainerCreateConfig → TargetContainer → Type 0
  IsRenewed creates t =
      (avail : Bytes) × (n : ℕ) × Elem avail (lookup_or t.image [] available)
      × Elem (create_config goarch rand t (candidate goarch t avail) n) creates

  -- No tag that is available may be used for the target.
  abbrev pub IsUnfit : TargetContainer → Type 0
  IsUnfit t =
      All (λ y. is_acceptable goarch t false zero_container y ≡ false)
        (lookup_or t.image [] available)

  -- Nothing is known of the targets.
  abbrev Unknown : List TargetContainer → Plan → Type 0
  Unknown ts plan = All (λ u. lookup u.id plan.running ≡ none) ts

  abbrev Keeps : Plan → Plan → Type 0
  Keeps plan next =
      (next.to_delete ≡ plan.to_delete)
      × ((c : ContainerCreateConfig) → Elem c plan.to_create → Elem c next.to_create)

  Unknown-schedule_create :
      (t : TargetContainer) (avail : Bytes) (plan : Plan) (ts : List TargetContainer)
      → All (λ u. t.id ≢ u.id) ts
      → Unknown ts plan
      → Unknown ts (schedule_create goarch rand t (candidate goarch t avail) plan)
  unfolding schedule_create
  Unknown-schedule_create t avail plan [] d l = tt
  Unknown-schedule_create t avail plan (u ∷ ts) (n, d) (l, ls) = (
    lookup-insert_ne t.id u.id (candidate goarch t avail) plan.running n ∙ l,
    Unknown-schedule_create t avail plan ts d ls,
  )

  decide_target-Unknown :
      (t : TargetContainer) (ts : List TargetContainer) (plan : Plan)
      → All (λ u. t.id ≢ u.id) ts
      → Unknown (t ∷ ts) plan
      → (next : Plan) × (decide_target goarch rand available t plan ≡ some next)
        × Keeps plan next
        × Unknown ts next
        × (IsUnfit t ⊎ IsRenewed next.to_create t)
  unfolding decide_target
  decide_target-Unknown t ts plan d (l, ls) =
      elim (decide_missing_cases goarch rand t available plan) [
        | inl (e, unfit) ↦ (plan, rw (l, decide_target, e) refl, (refl, λ c m. m), ls, inl unfit)
        | inr (avail, m, _, e) ↦ (
          schedule_create goarch rand t (candidate goarch t avail) plan,
          rw (l, decide_target, e) refl,
          unfold schedule_create in (refl, λ c k. Any-append_left (λ x. x ≡ c) plan.to_create _ k),
          Unknown-schedule_create t avail plan ts d ls,
          unfold schedule_create in
              inr (
                avail,
                length plan.to_create,
                m,
                Any-append_right
                    (λ x.
                      x
                      ≡ create_config goarch rand t (candidate goarch t avail)
                          (length plan.to_create))
                    plan.to_create _ (inl refl),
              ),
        )
      ]

  pub decide_targets-Unknown :
      (ts : List TargetContainer) (plan : Plan)
      → DistinctTargets ts
      → Unknown ts plan
      → (next : Plan) × (decide_targets goarch rand available ts plan ≡ some next)
        × Keeps plan next
        × All (λ t. IsUnfit t ⊎ IsRenewed next.to_create t) ts
  unfolding decide_targets
  decide_targets-Unknown [] plan d l = (plan, refl, (refl, λ c m. m), tt)
  decide_targets-Unknown (t ∷ ts) plan (d, ds) l =
      let (mid, e, (same, more), ls, first) = decide_target-Unknown t ts plan d l in
      let (next, q, (same', more'), rest) = decide_targets-Unknown ts mid ds ls in
      (
        next,
        rw (e, decide_targets) q,
        (same' ∙ same, λ c m. more' c (more c m)),
        (
          elim first [
            | inl unfit ↦ inl unfit
            | inr (avail, n, m, there) ↦ inr (avail, n, m, more' _ there)
          ],
          rest,
        ),
      )
