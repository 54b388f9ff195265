-- ===== src/ContainerSync/Handled.antt =====
-- Kept and scheduled containers, round by round.
-- About pkg/containersync/worker.go.
use deviced.Base.{
  List, [], ◌∷◌, some, Bytes, beq, beq→eq, eq→beq, ◌≡◌, ◌≢◌, ◌⊎◌, refl, ◌∙◌, arith, Bool-cases, inl,
  inr, All,
}
use deviced.Base.Assoc.{
  lookup, insert, lookup-insert, lookup-insert_self, lookup-insert-some, lookup-insert_cases,
}
use deviced.Docker.{ApiContainer}
use deviced.Config.Target.{TargetContainer, LifecycleHook}
use deviced.ContainerSync.State.{RunningContainer, Plan}
use deviced.ContainerSync.Match.{
  build_running_container, discard_container, keep_container, prefer_new, prefer_old,
}
use deviced.ContainerSync.MatchSteps.{
  Step, unmatched, dead, first, better, worse, Steps, done, round,
}

-- `a` is the container of key `k`.
abbrev pub IsKeptIn : List (Bytes × RunningContainer) → Bytes → ApiContainer → Type 0
IsKeptIn running k a =
    (rc : RunningContainer) × (lookup k running ≡ some rc) × (rc.api_container ≡ some a)

abbrev pub IsKept : Plan → Bytes → ApiContainer → Type 0
IsKept plan k a = IsKeptIn plan.running k a

abbrev pub IsScheduled : Plan → ApiContainer → Type 0
IsScheduled plan a = (hooks : List LifecycleHook) × (lookup a.id plan.to_delete ≡ some hooks)

abbrev pub IsHandled : Plan → ApiContainer → Type 0
IsHandled plan a = IsScheduled plan a ⊎ ((k : Bytes) × IsKept plan k a)

-- No two of the containers have one id.
abbrev pub DistinctIds : List ApiContainer → Type 0
DistinctIds [] = Unit
DistinctIds (c ∷ cs) = All (λ d. c.id ≢ d.id) cs × DistinctIds cs

pub lookup-insert_ne :
    {V : Type 0} (k j : Bytes) (v : V) (m : List (Bytes × V))
    → k ≢ j
    → lookup j (insert k v m) ≡ lookup j m
lookup-insert_ne k j v m ne = elim (Bool-cases (beq k j)) [
  | inl e ↦ absurd (ne (beq→eq k j e))
  | inr e ↦ rw (lookup-insert, e)
]

-- An update of `running` at `k` by the container `ctr`.
pub IsKept-insert :
    (plan : Plan) (k : Bytes) (rc : RunningContainer) (ctr : ApiContainer) (j : Bytes)
    (a : ApiContainer)
    → rc.api_container ≡ some ctr
    → IsKeptIn (insert k rc plan.running) j a
    → ((k ≡ j) × (ctr ≡ a)) ⊎ ((k ≢ j) × IsKept plan j a)
IsKept-insert plan k rc ctr j a e (r, at, l) = elim (lookup-insert_cases k j rc plan.running at) [
  | inl (q, p) ↦ inl (q, cc)
  | inr (q, p) ↦ inr (λ s. ground (arith, eq→beq k j s), (r, p, l))
]

module _ (goarch : Bytes) (targets : List TargetContainer) where
  IsHandled-new :
      {ctr : ApiContainer} {plan next : Plan}
      → Step goarch targets ctr plan next
      → IsHandled next ctr
  unfolding discard_container keep_container prefer_new prefer_old build_running_container
  IsHandled-new {ctr} {plan} (unmatched _) = inl ([], lookup-insert_self ctr.id [] plan.to_delete)
  IsHandled-new {ctr} {plan} (dead _ _ _) = inl ([], lookup-insert_self ctr.id [] plan.to_delete)
  IsHandled-new {ctr} {plan} (first mt _ _) =
      inr (mt.id, (_, lookup-insert_self mt.id _ plan.running, refl))
  IsHandled-new {ctr} {plan} (better mt val api _ _ _ _) =
      inr (mt.id, (_, lookup-insert_self mt.id _ plan.running, refl))
  IsHandled-new {ctr} {plan} (worse mt val api _ _ _ _) =
      inl (_, lookup-insert_self ctr.id mt.lifecycle_hooks.on_stop plan.to_delete)

  pub kept-insert :
      (plan : Plan) (mt : TargetContainer) (rc : RunningContainer) (c : ApiContainer) (k : Bytes)
      → mt.id ≢ k
      → IsKept plan k c
      → IsKeptIn (insert mt.id rc plan.running) k c
  kept-insert plan mt rc c k ne (r, at, l) =
      (r, lookup-insert_ne mt.id k rc plan.running ne ∙ at, l)

  IsHandled-old :
      {ctr : ApiContainer} {plan next : Plan} (c : ApiContainer)
      → Step goarch targets ctr plan next
      → IsHandled plan c
      → IsHandled next c
  unfolding discard_container keep_container prefer_new prefer_old
  IsHandled-old {ctr} {plan} c (unmatched _) (inl s) =
      inl (lookup-insert-some ctr.id c.id [] plan.to_delete s)
  IsHandled-old {ctr} {plan} c (unmatched _) (inr s) = inr s
  IsHandled-old {ctr} {plan} c (dead _ _ _) (inl s) =
      inl (lookup-insert-some ctr.id c.id [] plan.to_delete s)
  IsHandled-old {ctr} {plan} c (dead _ _ _) (inr s) = inr s
  IsHandled-old {ctr} {plan} c (first mt _ n) (inl s) = inl s
  IsHandled-old {ctr} {plan} c (first mt _ n) (inr (k, (r, at, l))) =
      elim (Bool-cases (beq mt.id k)) [
        | inl e ↦ absurd (ground (arith, beq→eq mt.id k e))
        | inr e ↦
            inr (k, kept-insert plan mt _ c k (λ q. ground (arith, eq→beq mt.id k q)) (r, at, l))
      ]
  IsHandled-old {ctr} {plan} c (better mt val api _ v a _) (inl s) =
      inl (lookup-insert-some api.id c.id mt.lifecycle_hooks.on_stop plan.to_delete s)
  IsHandled-old {ctr} {plan} c (better mt val api _ v a _) (inr (k, (r, at, l))) =
      elim (Bool-cases (beq mt.id k)) [
        | inl e ↦
            let same : api ≡ c = cc (beq→eq mt.id k e) in
            inl (
              mt.lifecycle_hooks.on_stop,
              rw (← same) (lookup-insert_self api.id mt.lifecycle_hooks.on_stop plan.to_delete),
            )
        | inr e ↦
            inr (k, kept-insert plan mt _ c k (λ q. ground (arith, eq→beq mt.id k q)) (r, at, l))
      ]
  IsHandled-old {ctr} {plan} c (worse mt val api _ _ _ _) (inl s) =
      inl (lookup-insert-some ctr.id c.id mt.lifecycle_hooks.on_stop plan.to_delete s)
  IsHandled-old {ctr} {plan} c (worse mt val api _ _ _ _) (inr s) = inr s

  IsHandled-Steps :
      {ctrs : List ApiContainer} {plan next : Plan} (c : ApiContainer)
      → Steps goarch targets ctrs plan next
      → IsHandled plan c
      → IsHandled next c
  IsHandled-Steps c done h = h
  IsHandled-Steps c (round s ss) h = IsHandled-Steps c ss (IsHandled-old c s h)

  pub All-IsHandled :
      {ctrs : List ApiContainer} {plan next : Plan}
      → Steps goarch targets ctrs plan next
      → All (IsHandled next) ctrs
  All-IsHandled done = tt
  All-IsHandled (round {ctr = c} s ss) = (IsHandled-Steps c ss (IsHandled-new s), All-IsHandled ss)
