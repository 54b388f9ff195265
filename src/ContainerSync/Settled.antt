-- ===== src/ContainerSync/Settled.antt =====
-- The loop over the targets where each has what it can get.
-- About pkg/containersync/worker.go.
use deviced.Base.{
  ℕ, List, [], ◌∷◌, All-Elem, none, some, true, false, Bytes, ◌≡◌, ◌≢◌, ◌⊎◌, refl, ◌∙◌, arith, All,
  Elem, Bool-cases, inl, inr, ◌==◌, length,
}
use deviced.Base.Assoc.{lookup, lookup_or}
use deviced.Config.Target.{TargetContainer}
use deviced.ContainerSync.State.{RunningContainer, Plan, empty_plan}
use deviced.ContainerSync.Match.{build_running_container, score_of}
use deviced.ContainerSync.Choose.{
  zero_container, is_acceptable, settle_running, settle_missing, decide_running, decide_missing,
  decide_target, decide_targets,
}
use deviced.ContainerSync.Selection.{select_image_rest, same_container_refl}
use deviced.ContainerSync.Placed.{
  Placed, OneEach, keep_all, keep_all-lookup_other, Stored, keep_all-Stored,
}

-- A pass has nothing to do for a target: it has a container of score 0 or one for which no available tag
-- is acceptable, or it has none and no available tag is acceptable.
module _ (goarch : Bytes) (available : List (Bytes × List Bytes)) (ps : List Placed) where
  abbrev pub IsSettled : TargetContainer → Type 0
  IsSettled t =
      ((p : Placed) × Elem p ps
        × (p.1.id ≡ t.id)
        × ((score_of goarch p.0 p.1 ≡ 0)
            ⊎ All
                (λ tag.
                  is_acceptable goarch t true
                    (build_running_container p.0 p.1 (score_of goarch p.0 p.1)) tag
                  ≡ false)
                (lookup_or t.image [] available)))
      ⊎ (All (λ (p : Placed). p.1.id ≢ t.id) ps
          × All (λ tag. is_acceptable goarch t false zero_container tag ≡ false)
              (lookup_or t.image [] available))

pub lookup-empty_plan : (k : Bytes) → lookup k empty_plan.running ≡ none
unfolding empty_plan lookup
lookup-empty_plan k = refl

pub All-lookup-empty_plan :
    (ps : List Placed) → All (λ (p : Placed). lookup p.1.id empty_plan.running ≡ none) ps
All-lookup-empty_plan [] = tt
All-lookup-empty_plan (p ∷ ps) = (lookup-empty_plan p.1.id, All-lookup-empty_plan ps)

module _ (goarch : Bytes) (rand : ℕ → ℕ) (available : List (Bytes × List Bytes)) where
  decide_running_quiet :
      (t : TargetContainer) (current : RunningContainer) (plan : Plan)
      → (current.score ≡ 0)
        ⊎ All
            (λ tag. is_acceptable goarch t true current tag ≡ false)
            (lookup_or t.image [] available)
      → decide_running goarch rand available t current plan ≡ some plan
  unfolding decide_running settle_running
  decide_running_quiet t current plan h = elim (Bool-cases (current.score == 0)) [
    | inl z ↦ rw z refl
    | inr z ↦ elim h [
      | inl e ↦ absurd (ground arith)
      | inr none_taken ↦ elim (Bool-cases (length (lookup_or t.image [] available) == 0)) [
        | inl l ↦ rw (z, l) refl
        | inr l ↦
            rw
              (
                z,
                l,
                select_image_rest goarch t true current (lookup_or t.image [] available) current
                    false none_taken,
                same_container_refl goarch rand t current,
              )
              refl
      ]
    ]
  ]

  decide_missing_quiet :
      (t : TargetContainer) (plan : Plan)
      → All
          (λ tag. is_acceptable goarch t false zero_container tag ≡ false)
          (lookup_or t.image [] available)
      → decide_missing goarch rand available t plan ≡ plan
  unfolding decide_missing settle_missing
  decide_missing_quiet t plan h = elim (Bool-cases (length (lookup_or t.image [] available) == 0)) [
    | inl l ↦ rw l refl
    | inr l ↦
        rw
          (
            l,
            select_image_rest goarch t false zero_container (lookup_or t.image [] available)
                zero_container false h,
          )
          refl
  ]

  pub decide_targets_quiet :
      (targets whole : List TargetContainer) (ps : List Placed)
      → OneEach ps
      → All (IsSettled goarch available ps) targets
      → let plan = keep_all goarch whole ps empty_plan in
        decide_targets goarch rand available targets plan ≡ some plan
  unfolding decide_targets decide_target
  decide_targets_quiet [] whole ps d h = refl
  decide_targets_quiet (t ∷ ts) whole ps d (inl (p, m, e, s), h) =
      let plan = keep_all goarch whole ps empty_plan in
      let stored =
        All-Elem (Stored goarch whole plan) ps p (keep_all-Stored goarch whole ps empty_plan d) m in
      rw
        (
          ← e,
          stored,
          decide_running_quiet t (build_running_container p.0 p.1 (score_of goarch p.0 p.1)) plan
              (unfold build_running_container in s),
          decide_targets,
        )
        (decide_targets_quiet ts whole ps d h)
  decide_targets_quiet (t ∷ ts) whole ps d (inr (n, s), h) =
      let plan = keep_all goarch whole ps empty_plan in
      let missing =
        keep_all-lookup_other goarch whole t.id ps empty_plan n ∙ lookup-empty_plan t.id in
      rw (missing, decide_missing_quiet t plan s, decide_targets)
        (decide_targets_quiet ts whole ps d h)
