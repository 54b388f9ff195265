-- ===== src/ContainerSync/TidyPlan.antt =====
-- Plans are tidy: each target gets one new container at most, in a place of its own.
-- About pkg/containersync/worker.go.
use deviced.Base.{
  ℕ, List, [], ◌∷◌, none, some, Bytes, ◌≡◌, ◌≢◌, refl, sym, ap, ◌∙◌, subst, All, All-append, beq,
  length, Bool-cases, Option-cases, inl, inr,
}
use deviced.Base.Assoc.{lookup, insert, lookup-insert, lookup-insert_self, lookup-insert_cases}
use deviced.Images.{ImageSummary, build_image_map}
use deviced.Docker.{ApiContainer, ContainerCreateConfig}
use deviced.Config.Target.{TargetContainer}
use deviced.Config.Document.{DevicedConfig}
use deviced.ContainerSync.State.{RunningContainer, Plan, empty_plan}
use deviced.ContainerSync.MatchSteps.{IsListed, empty_plan-AllListed, sync_containers-Steps}
use deviced.ContainerSync.Choose.{
  candidate, create_config, schedule_create, decide_target, decide_targets,
}
use deviced.ContainerSync.Selection.{replacement, decide_running_cases, decide_missing_cases}
use deviced.ContainerSync.Panics.{
  DistinctTargets, ListedFor, ListedFor-of_AllListed, decide_target_total,
}
use deviced.ContainerSync.Warrants.{some-inj}
use deviced.ContainerSync.Pass.{Env, make_plan}
use deviced.ContainerSync.Labels.{label_of, OneLabelEach-append, create_config-label}
use deviced.ContainerSync.Named.{make_plan-IsNamed}
use deviced.ContainerSync.Tidy.{
  IsTidy, IsTidy-of_IsUnmade, sync_containers-IsUnmade, empty_plan-IsUnmade,
}

module _ (goarch : Bytes) (rand : ℕ → ℕ) (targets : List TargetContainer) where
  abbrev IsWellKept : Plan → Type 0
  IsWellKept plan = IsTidy goarch rand targets plan

  -- No container has been created for a target yet that has a listed one, or none.
  fresh_ne :
      (t : TargetContainer) (plan : Plan) (ms : List ContainerCreateConfig)
      → ((rc : RunningContainer) → lookup t.id plan.running ≡ some rc → IsListed rc)
      → All
          (λ m.
            (rc : RunningContainer) × (lookup (label_of m) plan.running ≡ some rc)
            × (rc.api_container ≡ none))
          ms
      → All (λ m. label_of m ≢ t.id) ms
  fresh_ne t plan [] l a = tt
  fresh_ne t plan (m ∷ ms) l ((rc, at, nil), a) =
      ((λ e. let (api, has) = l rc (rw e at at) in absurd (cc)), fresh_ne t plan ms l a)

  fresh_insert :
      (t : TargetContainer) (avail : Bytes) (plan : Plan) (ms : List ContainerCreateConfig)
      → All
          (λ m.
            (rc : RunningContainer) × (lookup (label_of m) plan.running ≡ some rc)
            × (rc.api_container ≡ none))
          ms
      → All
          (λ m.
            (rc : RunningContainer) × (lookup
                (label_of m)
                (insert t.id (candidate goarch t avail) plan.running)
              ≡ some rc)
            × (rc.api_container ≡ none))
          ms
  unfolding candidate
  fresh_insert t avail plan [] a = tt
  fresh_insert t avail plan (m ∷ ms) ((rc, at, nil), a) = (
    elim (Bool-cases (beq t.id (label_of m))) [
      | inl y ↦ (candidate goarch t avail, rw (lookup-insert, y), refl)
      | inr n ↦ (rc, rw (lookup-insert, n) at, nil)
    ],
    fresh_insert t avail plan ms a,
  )

  schedule_create-IsTidy :
      (t : TargetContainer) (avail : Bytes) (plan : Plan)
      → ((rc : RunningContainer) → lookup t.id plan.running ≡ some rc → IsListed rc)
      → IsWellKept plan
      → IsWellKept (schedule_create goarch rand t (candidate goarch t avail) plan)
  unfolding schedule_create candidate
  schedule_create-IsTidy t avail plan l tidy =
      let m = create_config goarch rand t (candidate goarch t avail) (length plan.to_create) in
      let label =
        create_config-label goarch rand t (candidate goarch t avail) (length plan.to_create) in
      record {
        belong = λ k rc c at has.
            elim (lookup-insert_cases t.id k (candidate goarch t avail) plan.running at) [
              | inl (e, same) ↦ absurd (cc (ap (λ r. r.api_container) same))
              | inr (_, old) ↦ tidy.belong k rc c old has
            ];
        fresh =
            All-append _ plan.to_create (m ∷ [])
              (fresh_insert t avail plan plan.to_create tidy.fresh)
              (
                (
                  candidate goarch t avail,
                  rw label (lookup-insert_self t.id (candidate goarch t avail) plan.running),
                  refl,
                ),
                tt,
              );
        single =
            OneLabelEach-append plan.to_create m tidy.single
              (rw label (fresh_ne t plan plan.to_create l tidy.fresh));
      }

  module _ (available : List (Bytes × List Bytes)) where
    decide_target-IsTidy :
        (t : TargetContainer) (plan : Plan) {next : Plan}
        → ((rc : RunningContainer) → lookup t.id plan.running ≡ some rc → IsListed rc)
        → decide_target goarch rand available t plan ≡ some next
        → IsWellKept plan
        → IsWellKept next
    unfolding decide_target replacement
    decide_target-IsTidy t plan l e tidy = elim (Option-cases (lookup t.id plan.running)) [
      | inl gone ↦ elim (decide_missing_cases goarch rand t available plan) [
        | inl (q, _) ↦ subst IsWellKept (some-inj (rw (gone, decide_target, q) at e)) tidy
        | inr (avail, _, _, q) ↦
            subst IsWellKept (some-inj (rw (gone, decide_target, q) at e))
              (schedule_create-IsTidy t avail plan l tidy)
      ]
      | inr (current, at) ↦
          let (api, has) = l current at in
          let e' = (rw (at, decide_target) at e) in
          elim (decide_running_cases goarch rand t available plan current api has) [
            | inl (q, _) ↦ subst IsWellKept (some-inj (sym q ∙ e')) tidy
            | inr (avail, _, _, _, q) ↦ subst IsWellKept (some-inj (sym q ∙ e')) (
                schedule_create-IsTidy t avail
                  (record plan {
                    to_delete = insert api.id t.lifecycle_hooks.on_stop plan.to_delete;
                  })
                  l (record { belong = tidy.belong; fresh = tidy.fresh; single = tidy.single }))
          ]
    ]

    decide_targets-IsTidy :
        (ts : List TargetContainer) (plan : Plan) {last : Plan}
        → DistinctTargets ts
        → ListedFor ts plan
        → decide_targets goarch rand available ts plan ≡ some last
        → IsWellKept plan
        → IsWellKept last
    unfolding decide_targets
    decide_targets-IsTidy [] plan d l e tidy = subst IsWellKept (some-inj e) tidy
    decide_targets-IsTidy (t ∷ ts) plan (n, d) l e tidy =
        let (mid, p, later) = decide_target_total goarch rand available t plan ts n l in
        decide_targets-IsTidy ts mid d later (rw (p, decide_targets) at e)
          (decide_target-IsTidy t plan l.0 p tidy)

-- In every plan that is made, a listed container stands in the map for its target and is not dead,
-- and a new container is the only one for its target, in whose place in the map no listed one stands.
pub make_plan-IsTidy :
    (env : Env) (cfg : DevicedConfig) (ctrs : List ApiContainer) (images : List ImageSummary)
    {plan : Plan}
    → DistinctTargets cfg.containers
    → make_plan env cfg ctrs images ≡ some plan
    → IsTidy env.goarch env.rand cfg.containers plan
unfolding make_plan
make_plan-IsTidy env cfg ctrs images d e =
    let (mid, q, _, all) =
      sync_containers-Steps env.goarch cfg.containers ctrs empty_plan
        (make_plan-IsNamed env cfg ctrs images e) empty_plan-AllListed in
    let unmade =
      sync_containers-IsUnmade env.goarch env.rand cfg.containers ctrs empty_plan q
        (empty_plan-IsUnmade env.goarch env.rand cfg.containers) in
    decide_targets-IsTidy env.goarch env.rand cfg.containers (build_image_map images) cfg.containers
      mid d (ListedFor-of_AllListed cfg.containers mid all) (rw (q, make_plan) at e)
      (IsTidy-of_IsUnmade env.goarch env.rand cfg.containers mid unmade)
