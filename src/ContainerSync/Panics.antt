-- ===== src/ContainerSync/Panics.antt =====
-- When a pass reads no nil pointer.
-- About pkg/containersync/worker.go.
use deviced.Base.{ℕ, List, [], ◌∷◌, some, Bytes, ◌≡◌, ◌≢◌, refl, All, Option-cases, inl, inr}
use deviced.Base.Assoc.{lookup, lookup-insert_cases}
use deviced.Images.{ImageSummary, build_image_map}
use deviced.Docker.{ApiContainer}
use deviced.Config.Target.{TargetContainer}
use deviced.Config.Document.{DevicedConfig}
use deviced.ContainerSync.State.{RunningContainer, Plan, empty_plan}
use deviced.ContainerSync.MatchSteps.{
  IsListed, AllListed, empty_plan-AllListed, sync_containers-Steps, IsNamed,
}
use deviced.ContainerSync.Choose.{schedule_create, decide_missing, decide_target, decide_targets}
use deviced.ContainerSync.Selection.{replacement, decide_running_cases, decide_missing_cases}
use deviced.ContainerSync.Pass.{Env, make_plan}

-- No two targets have one id.
abbrev pub DistinctTargets : List TargetContainer → Type 0
DistinctTargets [] = Unit
DistinctTargets (t ∷ ts) = All (λ u. t.id ≢ u.id) ts × DistinctTargets ts

-- The containers of the targets still to come are listed.
abbrev pub ListedFor : List TargetContainer → Plan → Type 0
ListedFor targets plan =
    All
      (λ (t : TargetContainer).
        (rc : RunningContainer) → lookup t.id plan.running ≡ some rc → IsListed rc)
      targets

pub ListedFor-of_AllListed :
    (targets : List TargetContainer) (plan : Plan) → AllListed plan → ListedFor targets plan
ListedFor-of_AllListed [] plan all = tt
ListedFor-of_AllListed (t ∷ ts) plan all = (all t.id, ListedFor-of_AllListed ts plan all)

module _ (goarch : Bytes) (rand : ℕ → ℕ) where
  schedule_create-ListedFor :
      (t : TargetContainer) (selected : RunningContainer) (plan : Plan)
      (targets : List TargetContainer)
      → All (λ u. t.id ≢ u.id) targets
      → ListedFor targets plan
      → ListedFor targets (schedule_create goarch rand t selected plan)
  unfolding schedule_create
  schedule_create-ListedFor t selected plan [] d l = tt
  schedule_create-ListedFor t selected plan (u ∷ targets) (n, d) (l, ls) = (
    λ rc h. elim (lookup-insert_cases t.id u.id selected plan.running h) [
      | inl (e, _) ↦ absurd (n e)
      | inr (_, e) ↦ l rc e
    ],
    schedule_create-ListedFor t selected plan targets d ls,
  )

  pub decide_target_total :
      (available : List (Bytes × List Bytes)) (t : TargetContainer) (plan : Plan)
      (targets : List TargetContainer)
      → All (λ u. t.id ≢ u.id) targets
      → ListedFor (t ∷ targets) plan
      → (next : Plan) × (decide_target goarch rand available t plan ≡ some next)
        × ListedFor targets next
  unfolding decide_target
  decide_target_total available t plan targets d (l, ls) =
      elim (Option-cases (lookup t.id plan.running)) [
        | inl n ↦ (decide_missing goarch rand available t plan, rw (n, decide_target), missing)
        | inr (current, at) ↦
            let (api, listed) = l current at in
            elim (decide_running_cases goarch rand t available plan current api listed) [
              | inl (e, _) ↦ (plan, rw (at, decide_target) e, ls)
              | inr (avail, _, _, _, e) ↦ (
                replacement goarch rand t plan api avail,
                rw (at, decide_target) e,
                unfold replacement in schedule_create-ListedFor t _ _ targets d ls,
              )
            ]
      ]
    where
      missing : ListedFor targets (decide_missing goarch rand available t plan)
      missing = elim (decide_missing_cases goarch rand t available plan) [
        | inl (e, _) ↦ rw e ls
        | inr (avail, _, _, e) ↦ rw e (schedule_create-ListedFor t _ plan targets d ls)
      ]

  decide_targets_total :
      (available : List (Bytes × List Bytes)) (targets : List TargetContainer) (plan : Plan)
      → DistinctTargets targets
      → ListedFor targets plan
      → (next : Plan) × (decide_targets goarch rand available targets plan ≡ some next)
  unfolding decide_targets
  decide_targets_total available [] plan d l = (plan, refl)
  decide_targets_total available (t ∷ ts) plan (d, ds) l =
      let (mid, e, l') = decide_target_total available t plan ts d l in
      let (next, q) = decide_targets_total available ts mid ds l' in
      (next, rw (e, decide_targets) q)

-- If every listed container has a name, no target is null and no two targets have one id, the two
-- loops that make the plan end without a panic, for every list of such containers and of images.
pub make_plan_total :
    (env : Env) (cfg : DevicedConfig) (ctrs : List ApiContainer) (images : List ImageSummary)
    → All IsNamed ctrs
    → DistinctTargets cfg.containers
    → (plan : Plan) × (make_plan env cfg ctrs images ≡ some plan)
unfolding make_plan
make_plan_total env cfg ctrs images named d =
    let (mid, e, _, all) =
      sync_containers-Steps env.goarch cfg.containers ctrs empty_plan named empty_plan-AllListed in
    let (plan, q) =
      decide_targets_total env.goarch env.rand (build_image_map images) cfg.containers mid d
        (ListedFor-of_AllListed cfg.containers mid all) in
    (plan, rw (e, make_plan) q)
