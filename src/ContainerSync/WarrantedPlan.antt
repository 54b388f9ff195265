-- ===== src/ContainerSync/WarrantedPlan.antt =====
-- Where the entries of every plan come from.
-- About pkg/containersync/worker.go.
use deviced.Base.{
  ℕ, ◌≤◌, List, [], ◌∷◌, none, some, Bool, true, false, Bytes, ◌≡◌, ◌⊎◌, refl, sym, ap, ◌∙◌, arith,
  inl, inr, subst, Elem, Bool-cases, Option-cases, ◌==◌, length,
}
use deviced.Base.Assoc.{lookup, lookup_or, insert}
use deviced.Images.{ImageSummary, build_image_map}
use deviced.Docker.{ApiContainer}
use deviced.Config.Target.{TargetContainer, container_version_score}
use deviced.Config.Document.{DevicedConfig}
use deviced.ContainerSync.Named.{make_plan-IsNamed}
use deviced.ContainerSync.State.{RunningContainer, Plan, empty_plan, same_container}
use deviced.ContainerSync.MatchSteps.{empty_plan-AllListed, sync_containers-Steps}
use deviced.ContainerSync.Choose.{
  score_limit, is_acceptable, zero_container, select_image, settle_running, replace_container,
  decide_running, decide_missing, decide_target, decide_targets,
}
use deviced.ContainerSync.Selection.{replacement, decide_running_cases, decide_missing_cases}
use deviced.ContainerSync.Pass.{Env, make_plan}
use deviced.Base.Assoc.{All-insert}
use deviced.ContainerSync.Warrants.{
  IsOf, Backed, Deleted, Warranted, lookup-All, some-inj, empty_plan-Warranted, Steps-Warranted,
  schedule_create-Warranted,
}

module _ (goarch : Bytes) (rand : ℕ → ℕ) (targets : List TargetContainer)
    (available : List (Bytes × List Bytes)) (ctrs : List ApiContainer) where
  abbrev Ok : Plan → Type 0
  Ok plan = Warranted goarch rand targets available ctrs plan

  -- Without a container behind it the target keeps its plan, or the code panics.
  decide_running_nil :
      (t : TargetContainer) (current : RunningContainer) (plan : Plan)
      → current.api_container ≡ none
      → (decide_running goarch rand available t current plan ≡ some plan)
        ⊎ (decide_running goarch rand available t current plan ≡ none)
  unfolding decide_running settle_running replace_container
  decide_running_nil t current plan nil =
      let images = lookup_or t.image [] available in
      let selected = (select_image goarch t true current images current false).0 in
      elim (Bool-cases (current.score == 0)) [
        | inl z ↦ inl (rw z)
        | inr z ↦ elim (Bool-cases (length images == 0)) [
          | inl l ↦ inl (rw (z, l))
          | inr l ↦ elim (Bool-cases (same_container current selected)) [
            | inl y ↦ inl (rw (z, l, y))
            | inr n ↦ inr (rw (z, l, n, nil, replace_container))
          ]
        ]
      ]

  allowed_tag :
      (t : TargetContainer) (ok : Bool) (current : RunningContainer) (avail : Bytes)
      → is_acceptable goarch t ok current avail ≡ true
      → (t.use_any_version ≡ true) ⊎ (container_version_score goarch t avail ≤ score_limit)
  unfolding is_acceptable
  allowed_tag t ok current avail h = ground arith

  decide_running-Warranted :
      (t : TargetContainer) (current : RunningContainer) (plan : Plan) {next : Plan}
      → Elem t targets
      → Backed goarch rand targets available ctrs current
      → Ok plan
      → decide_running goarch rand available t current plan ≡ some next
      → Ok next
  unfolding replacement
  decide_running-Warranted t current plan {next} mt back w e =
      elim (Option-cases current.api_container) [
        | inl nil ↦ elim (decide_running_nil t current plan nil) [
          | inl q ↦ subst Ok (some-inj (sym q ∙ e)) w
          | inr q ↦ absurd (cc)
        ]
        | inr (api, l) ↦ elim (decide_running_cases goarch rand t available plan current api l) [
          | inl (q, _) ↦ subst Ok (some-inj (sym q ∙ e)) w
          | inr (avail, m, up, _, q) ↦ subst Ok (some-inj (sym q ∙ e)) (
              schedule_create-Warranted goarch rand targets available ctrs t avail
                (record plan { to_delete = insert api.id t.lifecycle_hooks.on_stop plan.to_delete })
                mt m up.2
                (record {
                  deletes =
                      All-insert (Deleted goarch rand targets available ctrs) api.id
                        t.lifecycle_hooks.on_stop plan.to_delete (back api l) w.deletes;
                  starts = w.starts;
                  backed = w.backed;
                  creates = w.creates;
                }))
        ]
      ]

  decide_missing-Warranted :
      (t : TargetContainer) (plan : Plan)
      → Elem t targets
      → Ok plan
      → Ok (decide_missing goarch rand available t plan)
  decide_missing-Warranted t plan mt w = elim (decide_missing_cases goarch rand t available plan) [
    | inl (q, _) ↦ rw q w
    | inr (avail, m, ok, q) ↦ rw q (
        schedule_create-Warranted goarch rand targets available ctrs t avail plan mt m
          (allowed_tag t false zero_container avail ok) w)
  ]

  decide_target-Warranted :
      (t : TargetContainer) (plan : Plan) {next : Plan}
      → Elem t targets
      → Ok plan
      → decide_target goarch rand available t plan ≡ some next
      → Ok next
  unfolding decide_target
  decide_target-Warranted t plan {next} mt w e = elim (Option-cases (lookup t.id plan.running)) [
    | inl n ↦
        subst Ok (some-inj (rw (n, decide_target) at e)) (decide_missing-Warranted t plan mt w)
    | inr (current, at) ↦
        decide_running-Warranted t current plan mt
          (lookup-All (Backed goarch rand targets available ctrs) t.id plan.running at w.backed) w
          (rw (at, decide_target) at e)
  ]

  decide_targets-Warranted :
      (ts : List TargetContainer) (plan : Plan) {next : Plan}
      → ((t : TargetContainer) → Elem t ts → Elem t targets)
      → Ok plan
      → decide_targets goarch rand available ts plan ≡ some next
      → Ok next
  unfolding decide_targets
  decide_targets-Warranted [] plan sub w e = subst Ok (some-inj e) w
  decide_targets-Warranted (t ∷ ts) plan sub w e =
      elim (Option-cases (decide_target goarch rand available t plan)) [
        | inl n ↦ let x = (rw (n, decide_targets) at e) in absurd (cc)
        | inr (mid, q) ↦
            decide_targets-Warranted ts mid (λ u m. sub u (inr m))
              (decide_target-Warranted t plan (sub t (inl refl)) w q) (rw (q, decide_targets) at e)
      ]

Elem-IsOf : (ctrs : List ApiContainer) (c : ApiContainer) → Elem c ctrs → IsOf ctrs c.id
Elem-IsOf [] c m = elim m [ ]
Elem-IsOf (d ∷ ctrs) c (inl e) = inl (ap (λ (a : ApiContainer). a.id) e)
Elem-IsOf (d ∷ ctrs) c (inr m) = inr (Elem-IsOf ctrs c m)

-- Every plan that is made deletes and starts only containers of the list, and creates only containers
-- of a target and an available tag of its image that the target may use.
pub make_plan-Warranted :
    (env : Env) (cfg : DevicedConfig) (ctrs : List ApiContainer) (images : List ImageSummary)
    {plan : Plan}
    → make_plan env cfg ctrs images ≡ some plan
    → Warranted env.goarch env.rand cfg.containers (build_image_map images) ctrs plan
unfolding make_plan
make_plan-Warranted env cfg ctrs images e =
    let available = build_image_map images in
    let (mid, q, ss, _) =
      sync_containers-Steps env.goarch cfg.containers ctrs empty_plan
        (make_plan-IsNamed env cfg ctrs images e) empty_plan-AllListed in
    decide_targets-Warranted env.goarch env.rand cfg.containers available ctrs cfg.containers mid
      (λ t m. m)
      (Steps-Warranted env.goarch env.rand cfg.containers available ctrs ss (Elem-IsOf ctrs)
        (empty_plan-Warranted env.goarch env.rand cfg.containers available ctrs))
      (rw (q, make_plan) at e)
