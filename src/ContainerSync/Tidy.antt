-- ===== src/ContainerSync/Tidy.antt =====
-- The map of containers by target holds what belongs there.
-- About pkg/containersync/worker.go.
use deviced.Base.{
  ℕ, List, [], ◌∷◌, none, some, false, Bytes, ltb, ◌≡◌, refl, ap, ◌∙◌, subst, All, Bool-cases,
  Option-cases, inl, inr,
}
use deviced.Base.Assoc.{lookup, insert, lookup-insert_cases}
use deviced.Docker.{ApiContainer}
use deviced.Config.Target.{TargetContainer}
use deviced.ContainerSync.State.{RunningContainer, Plan, empty_plan}
use deviced.ContainerSync.Match.{
  build_running_container, matching_target, discard_container, is_dead, score_of, keep_container,
  prefer_new, prefer_old, other_score, choose_container, sync_container, sync_containers, has_name,
}
use deviced.ContainerSync.Warrants.{some-inj}
use deviced.ContainerSync.Labels.{label_of, OneLabelEach}

module _ (goarch : Bytes) (rand : ℕ → ℕ) (targets : List TargetContainer) where
  -- The listed container belongs to the target with the id, and is not dead.
  abbrev pub Belongs : Bytes → ApiContainer → Type 0
  Belongs k c =
      (mt : TargetContainer) × (mt.id ≡ k)
      × (matching_target c targets ≡ some mt)
      × (is_dead c mt ≡ false)

  abbrev AllBelong : Plan → Type 0
  AllBelong plan =
      (k : Bytes) (rc : RunningContainer) (c : ApiContainer)
      → lookup k plan.running ≡ some rc
      → rc.api_container ≡ some c
      → Belongs k c

  pub record IsTidy (plan : Plan) : Type 0 where
    pub belong : AllBelong plan
    pub fresh :
        All
          (λ m.
            (rc : RunningContainer) × (lookup (label_of m) plan.running ≡ some rc)
            × (rc.api_container ≡ none))
          plan.to_create
    pub single : OneLabelEach plan.to_create

  AllBelong-insert :
      (ctr : ApiContainer) (mt : TargetContainer) (plan : Plan)
      → matching_target ctr targets ≡ some mt
      → is_dead ctr mt ≡ false
      → AllBelong plan
      → (k : Bytes) (rc : RunningContainer) (c : ApiContainer)
      → lookup k
          (insert mt.id (build_running_container ctr mt (score_of goarch ctr mt)) plan.running)
        ≡ some rc
      → rc.api_container ≡ some c
      → Belongs k c
  unfolding build_running_container
  AllBelong-insert ctr mt plan found alive all k rc c at has =
      elim (lookup-insert_cases mt.id k _ plan.running at) [
        | inl (e, same) ↦
            let is_ctr : ctr ≡ c = some-inj (ap (λ r. r.api_container) same ∙ has) in
            (
              mt,
              e,
              subst (λ x. matching_target x targets ≡ some mt) is_ctr found,
              subst (λ x. is_dead x mt ≡ false) is_ctr alive,
            )
        | inr (_, old) ↦ all k rc c old has
      ]

  -- Nothing is created yet.
  abbrev IsUnmade : Plan → Type 0
  IsUnmade plan = AllBelong plan × (plan.to_create ≡ [])

  sync_container-IsUnmade :
      (ctr : ApiContainer) (plan : Plan) {next : Plan}
      → sync_container goarch targets ctr plan ≡ some next
      → IsUnmade plan
      → IsUnmade next
  unfolding sync_container choose_container discard_container keep_container prefer_new prefer_old
  sync_container-IsUnmade ctr plan {next} e (all, none_made) =
      elim (Option-cases (matching_target ctr targets)) [
        | inl n ↦ subst IsUnmade (some-inj (rw (n, sync_container) at e)) (all, none_made)
        | inr (mt, found) ↦ elim (Bool-cases (is_dead ctr mt)) [
          | inl dead ↦
              subst IsUnmade (some-inj (rw (found, dead, sync_container) at e)) (all, none_made)
          | inr alive ↦
              let inserted = AllBelong-insert ctr mt plan found alive all in
              elim (Option-cases (lookup mt.id plan.running)) [
                | inl first ↦
                    subst IsUnmade (some-inj (rw (found, alive, first, sync_container) at e))
                      (inserted, none_made)
                | inr (val, at) ↦ elim (Option-cases val.api_container) [
                  | inl nil ↦
                      let x = (rw (found, alive, at, sync_container, nil, choose_container) at e) in
                      absurd (cc)
                  | inr (api, has) ↦
                      elim (Bool-cases (ltb (score_of goarch ctr mt) (other_score goarch mt val))) [
                        | inl y ↦
                            subst IsUnmade
                              (some-inj (
                                rw (found, alive, at, sync_container, has, choose_container, y) at
                                  e))
                              (inserted, none_made)
                        | inr n ↦
                            subst IsUnmade
                              (some-inj (
                                rw (found, alive, at, sync_container, has, choose_container, n) at
                                  e))
                              (all, none_made)
                      ]
                ]
              ]
        ]
      ]

  pub sync_containers-IsUnmade :
      (ctrs : List ApiContainer) (plan : Plan) {next : Plan}
      → sync_containers goarch targets ctrs plan ≡ some next
      → IsUnmade plan
      → IsUnmade next
  unfolding sync_containers
  sync_containers-IsUnmade [] plan e u = subst IsUnmade (some-inj e) u
  sync_containers-IsUnmade (ctr ∷ ctrs) plan e u = elim (Bool-cases (has_name ctr)) [
    | inr z ↦ let x = (rw (z, sync_containers) at e) in absurd (cc)
    | inl y ↦ elim (Option-cases (sync_container goarch targets ctr plan)) [
      | inl n ↦ let x = (rw (y, n, sync_containers) at e) in absurd (cc)
      | inr (mid, q) ↦
          sync_containers-IsUnmade ctrs mid (rw (y, q, sync_containers) at e)
            (sync_container-IsUnmade ctr plan q u)
    ]
  ]

  pub IsTidy-of_IsUnmade : (plan : Plan) → IsUnmade plan → IsTidy plan
  IsTidy-of_IsUnmade plan (all, none_made) = record {
    belong = all;
    fresh = rw none_made tt;
    single = rw none_made tt;
  }

pub empty_plan-IsUnmade :
    (goarch : Bytes) (rand : ℕ → ℕ) (targets : List TargetContainer)
    → IsUnmade goarch rand targets empty_plan
unfolding empty_plan lookup
empty_plan-IsUnmade goarch rand targets = ((λ k rc c at has. absurd (cc)), refl)
