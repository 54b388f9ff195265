-- ===== src/ContainerSync/Realized.antt =====
-- What a plan brings about, and the plan that also creates a container.
-- About pkg/containersync/worker.go.
use deviced.Base.{
  ℕ, List, [], ◌∷◌, none, some, Bytes, eq→beq, ◌≡◌, ◌≢◌, ◌⊎◌, refl, ◌∙◌, arith, inl, inr, All, Elem,
  Any-append_left, Any-append_right, length,
}
use deviced.Base.Assoc.{lookup, lookup-insert_cases}
use deviced.Docker.{ApiContainer}
use deviced.Config.Target.{TargetContainer, LifecycleHook}
use deviced.ContainerSync.State.{RunningContainer, Plan}
use deviced.ContainerSync.Handled.{IsKept, IsHandled, lookup-insert_ne}
use deviced.ContainerSync.Choose.{candidate, create_config, schedule_create}

module _ (goarch : Bytes) (rand : ℕ → ℕ) (ctrs : List ApiContainer) where
  -- The plan creates a container for `rc`, the container of key `k`.
  abbrev pub IsCreated : Plan → Bytes → RunningContainer → Type 0
  IsCreated plan k rc =
      (t : TargetContainer) × (n : ℕ) × (t.id ≡ k)
      × Elem (create_config goarch rand t rc n) plan.to_create

  -- What the map of the targets' containers says is what the plan brings about: a container of the
  -- map is a listed one that is not deleted, or it is created; a listed container that is in the map
  -- for two keys is in it for one; and a listed container is in the map, or it is deleted.
  pub record Realizes (plan : Plan) : Type 0 where
    pub realized :
        (k : Bytes) (rc : RunningContainer)
        → lookup k plan.running ≡ some rc
        → ((c : ApiContainer) × (rc.api_container ≡ some c) × (lookup c.id plan.to_delete ≡ none))
          ⊎ ((rc.api_container ≡ none) × IsCreated plan k rc)
    pub one_key :
        (k j : Bytes) (a b : ApiContainer) → IsKept plan k a → IsKept plan j b → a.id ≡ b.id → k ≡ j
    pub handled : All (IsHandled plan) ctrs

  -- The plan that creates a container for `t`, and deletes those of `deletes`.
  module _ (t : TargetContainer) (avail : Bytes) (plan : Plan)
      (deletes : List (Bytes × List LifecycleHook)) where
    abbrev pub created_plan : Plan
    created_plan =
        schedule_create goarch rand t (candidate goarch t avail)
          (record plan { to_delete = deletes })

    IsKept-before :
        (k : Bytes) (a : ApiContainer) → IsKept created_plan k a → (t.id ≢ k) × IsKept plan k a
    unfolding schedule_create candidate
    IsKept-before k a (rc, at, l) =
        elim (lookup-insert_cases t.id k (candidate goarch t avail) plan.running at) [
          | inl (_, e) ↦ absurd (cc)
          | inr (n, old) ↦ ((λ e. ground (arith, eq→beq t.id k e)), (rc, old, l))
        ]

    IsKept-after :
        (k : Bytes) (a : ApiContainer) → t.id ≢ k → IsKept plan k a → IsKept created_plan k a
    unfolding schedule_create
    IsKept-after k a n (rc, at, l) =
        (rc, lookup-insert_ne t.id k (candidate goarch t avail) plan.running n ∙ at, l)

    IsHandled-after :
        (cs : List ApiContainer)
        → ((c : ApiContainer)
            → IsHandled plan c
            → ((hooks : List LifecycleHook) × (lookup c.id deletes ≡ some hooks))
              ⊎ ((k : Bytes) × (t.id ≢ k) × IsKept plan k c))
        → All (IsHandled plan) cs
        → All (IsHandled created_plan) cs
    unfolding schedule_create
    IsHandled-after [] f a = tt
    IsHandled-after (c ∷ cs) f (h, a) = (
      elim (f c h) [ inl s ↦ inl s | inr (k, n, kept) ↦ inr (k, IsKept-after k c n kept) ],
      IsHandled-after cs f a,
    )

    pub created_plan-Realizes :
        Realizes plan
        → ((k : Bytes) (c : ApiContainer)
            → t.id ≢ k
            → IsKept plan k c
            → lookup c.id plan.to_delete ≡ none
            → lookup c.id deletes ≡ none)
        → ((c : ApiContainer)
            → IsHandled plan c
            → ((hooks : List LifecycleHook) × (lookup c.id deletes ≡ some hooks))
              ⊎ ((k : Bytes) × (t.id ≢ k) × IsKept plan k c))
        → Realizes created_plan
    unfolding schedule_create candidate
    created_plan-Realizes r spared moved = record {
      realized = λ k rc at.
          elim (lookup-insert_cases t.id k (candidate goarch t avail) plan.running at) [
            | inl (e, same) ↦
                let cfg =
                  create_config goarch rand t (candidate goarch t avail) (length plan.to_create) in
                rw (← same) (
                  inr (
                    refl,
                    (
                      t,
                      length plan.to_create,
                      e,
                      Any-append_right (λ x. x ≡ cfg) plan.to_create (cfg ∷ []) (inl refl),
                    ),
                  ))
            | inr (n, old) ↦
                let ne : t.id ≢ k = λ e. ground (arith, eq→beq t.id k e) in
                elim (r.realized k rc old) [
                  | inl (c, l, free) ↦ inl (c, l, spared k c ne (rc, old, l) free)
                  | inr (nil, (u, m, e, made)) ↦ inr (
                    nil,
                    (
                      u,
                      m,
                      e,
                      Any-append_left (λ x. x ≡ create_config goarch rand u rc m) plan.to_create _
                          made,
                    ),
                  )
                ]
          ];
      one_key =
          λ k j a b ka kb e. r.one_key k j a b (IsKept-before k a ka).1 (IsKept-before j b kb).1 e;
      handled = IsHandled-after ctrs moved r.handled;
    }
