-- ===== src/ContainerSync/MatchSteps.antt =====
-- One round of the loop over the containers, as a relation: what it may do to the plan.
-- About pkg/containersync/worker.go.
use deviced.Base.{
  List, [], ◌∷◌, All, none, some, true, false, Bytes, ltb, ◌≡◌, refl, Bool-cases, Option-cases, inl,
  inr, subst,
}
use deviced.Base.Assoc.{lookup, insert, lookup-insert_cases}
use deviced.Docker.{ApiContainer}
use deviced.Config.Target.{TargetContainer}
use deviced.ContainerSync.State.{RunningContainer, Plan, empty_plan}
use deviced.ContainerSync.Match.{
  build_running_container, matching_target, discard_container, score_of, keep_container, prefer_new,
  prefer_old, other_score, choose_container, is_dead, sync_container, sync_containers, has_name,
}

-- The container has an entry of Docker's list behind it.
abbrev pub IsListed : RunningContainer → Type 0
IsListed rc = (api : ApiContainer) × (rc.api_container ≡ some api)

-- Every container that is kept has one.
abbrev pub AllListed : Plan → Type 0
AllListed plan = (k : Bytes) (rc : RunningContainer) → lookup k plan.running ≡ some rc → IsListed rc

-- The container has a name.
abbrev pub IsNamed : ApiContainer → Type 0
IsNamed ctr = has_name ctr ≡ true

module _ (goarch : Bytes) (targets : List TargetContainer) where
  pub data Step (ctr : ApiContainer) (plan : Plan) : Plan → Type 0 where
    unmatched : matching_target ctr targets ≡ none → Step ctr plan (discard_container ctr plan)
    dead :
        (mt : TargetContainer)
        → matching_target ctr targets ≡ some mt
        → is_dead ctr mt ≡ true
        → Step ctr plan (discard_container ctr plan)
    first :
        (mt : TargetContainer)
        → matching_target ctr targets ≡ some mt
        → lookup mt.id plan.running ≡ none
        → Step ctr plan (keep_container goarch ctr mt plan)
    better :
        (mt : TargetContainer) (val : RunningContainer) (api : ApiContainer)
        → matching_target ctr targets ≡ some mt
        → lookup mt.id plan.running ≡ some val
        → val.api_container ≡ some api
        → ltb (score_of goarch ctr mt) (other_score goarch mt val) ≡ true
        → Step ctr plan (prefer_new goarch ctr mt api plan)
    worse :
        (mt : TargetContainer) (val : RunningContainer) (api : ApiContainer)
        → matching_target ctr targets ≡ some mt
        → lookup mt.id plan.running ≡ some val
        → val.api_container ≡ some api
        → ltb (score_of goarch ctr mt) (other_score goarch mt val) ≡ false
        → Step ctr plan (prefer_old goarch ctr mt api plan)

  -- A round that starts with listed containers does not panic, and is such a step.
  pub sync_container-Step :
      (ctr : ApiContainer) (plan : Plan)
      → AllListed plan
      → (next : Plan) × (sync_container goarch targets ctr plan ≡ some next) × Step ctr plan next
  unfolding sync_container choose_container
  sync_container-Step ctr plan all = elim (Option-cases (matching_target ctr targets)) [
    | inl e ↦ (discard_container ctr plan, rw (e, sync_container), unmatched e)
    | inr (mt, e) ↦ elim (Bool-cases (is_dead ctr mt)) [
      | inl t ↦ (discard_container ctr plan, rw (e, sync_container, t), dead mt e t)
      | inr f ↦ elim (Option-cases (lookup mt.id plan.running)) [
        | inl n ↦ (
          keep_container goarch ctr mt plan,
          rw (e, sync_container, f, n, sync_container),
          first mt e n,
        )
        | inr (val, v) ↦
            let (api, a) = all mt.id val v in
            elim (Bool-cases (ltb (score_of goarch ctr mt) (other_score goarch mt val))) [
              | inl b ↦ (
                prefer_new goarch ctr mt api plan,
                rw (e, sync_container, f, v, sync_container, a, choose_container, b),
                better mt val api e v a b,
              )
              | inr w ↦ (
                prefer_old goarch ctr mt api plan,
                rw (e, sync_container, f, v, sync_container, a, choose_container, w),
                worse mt val api e v a w,
              )
            ]
      ]
    ]
  ]

  insert-AllListed :
      (i : Bytes) (v : RunningContainer) (m : List (Bytes × RunningContainer))
      → IsListed v
      → ((k : Bytes) (rc : RunningContainer) → lookup k m ≡ some rc → IsListed rc)
      → (k : Bytes) (rc : RunningContainer) → lookup k (insert i v m) ≡ some rc
      → IsListed rc
  insert-AllListed i v m listed all k rc h = elim (lookup-insert_cases i k v m h) [
    | inl (_, e) ↦ subst IsListed e listed
    | inr (_, e) ↦ all k rc e
  ]

  pub Step-AllListed :
      {ctr : ApiContainer} {plan next : Plan} → Step ctr plan next → AllListed plan → AllListed next
  unfolding discard_container keep_container prefer_new prefer_old build_running_container
  Step-AllListed (unmatched _) all = all
  Step-AllListed (dead _ _ _) all = all
  Step-AllListed {ctr} {plan} (first mt _ _) all =
      insert-AllListed mt.id _ plan.running (ctr, refl) all
  Step-AllListed {ctr} {plan} (better mt val api _ _ _ _) all =
      insert-AllListed mt.id _ plan.running (ctr, refl) all
  Step-AllListed (worse _ _ _ _ _ _ _) all = all

  -- The loop, as its rounds.
  pub data Steps : List ApiContainer → Plan → Plan → Type 0 where
    done : {plan : Plan} → Steps [] plan plan
    round :
        {ctr : ApiContainer} {ctrs : List ApiContainer} {plan mid next : Plan}
        → Step ctr plan mid
        → Steps ctrs mid next
        → Steps (ctr ∷ ctrs) plan next

  -- The loop does not panic, and is made of such rounds.
  pub sync_containers-Steps :
      (ctrs : List ApiContainer) (plan : Plan)
      → All IsNamed ctrs
      → AllListed plan
      → (next : Plan) × (sync_containers goarch targets ctrs plan ≡ some next)
        × Steps ctrs plan next
        × AllListed next
  unfolding sync_containers
  sync_containers-Steps [] plan named all = (plan, refl, done, all)
  sync_containers-Steps (ctr ∷ ctrs) plan (n, named) all =
      let (mid, e, s) = sync_container-Step ctr plan all in
      let (next, q, ss, l) = sync_containers-Steps ctrs mid named (Step-AllListed s all) in
      (next, rw (n, e, sync_containers) q, round s ss, l)

-- The loop gets to its end only if every container has a name.
pub sync_containers-IsNamed :
    (goarch : Bytes) (targets : List TargetContainer) (ctrs : List ApiContainer) (plan : Plan)
    {next : Plan}
    → sync_containers goarch targets ctrs plan ≡ some next
    → All IsNamed ctrs
unfolding sync_containers
sync_containers-IsNamed goarch targets [] plan e = tt
sync_containers-IsNamed goarch targets (ctr ∷ ctrs) plan e = elim (Bool-cases (has_name ctr)) [
  | inr n ↦ let x = (rw (n, sync_containers) at e) in absurd (cc)
  | inl y ↦ elim (Option-cases (sync_container goarch targets ctr plan)) [
    | inl n ↦ let x = (rw (y, n, sync_containers) at e) in absurd (cc)
    | inr (mid, q) ↦
        (y, sync_containers-IsNamed goarch targets ctrs mid (rw (y, q, sync_containers) at e))
  ]
]

pub empty_plan-AllListed : AllListed empty_plan
unfolding empty_plan lookup
empty_plan-AllListed k rc h = cc
