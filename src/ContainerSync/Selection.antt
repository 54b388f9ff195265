-- ===== src/ContainerSync/Selection.antt =====
-- Which image the second loop of `processOnce` takes for a target, and when it replaces a container.
-- About pkg/containersync/worker.go.
use deviced.Base.{
  ℕ, ◌≤◌, ◌<◌, List, [], ◌∷◌, ◌++◌, some, Bool, true, false, Bytes, beq_refl, beq→eq, eq→beq, ◌≡◌,
  ◌≢◌, ◌⊎◌, refl, arith, Bool-cases, Option-cases, inl, inr, All, Elem, ◌==◌, length,
}
use deviced.Base.Assoc.{lookup_or, insert}
use deviced.Docker.{ApiContainer}
use deviced.Config.Target.{TargetContainer, container_version_score}
use deviced.ContainerSync.State.{RunningContainer, Plan, same_container}
use deviced.ContainerSync.Choose.{
  score_limit, is_acceptable, candidate, select_image, schedule_create, replace_container,
  settle_running, decide_running, decide_missing, zero_container, settle_missing,
}

module _ (goarch : Bytes) (tctr : TargetContainer) (ok : Bool) (current : RunningContainer) where
  pub select_image_rest :
      (ys : List Bytes) (selected : RunningContainer) (okn : Bool)
      → All (λ y. is_acceptable goarch tctr ok current y ≡ false) ys
      → select_image goarch tctr ok current ys selected okn ≡ (selected, okn)
  unfolding select_image
  select_image_rest [] selected okn h = refl
  select_image_rest (y ∷ ys) selected okn (n, h) = rw n (select_image_rest ys selected okn h)

  -- The loop over the available images ends with the last acceptable tag in Docker's order. Whatever
  -- came before it is dropped, also where its score was better.
  pub select_image_last :
      (xs ys : List Bytes) (avail : Bytes) (selected : RunningContainer) (okn : Bool)
      → is_acceptable goarch tctr ok current avail ≡ true
      → All (λ y. is_acceptable goarch tctr ok current y ≡ false) ys
      → select_image goarch tctr ok current (xs ++ (avail ∷ ys)) selected okn
        ≡ (candidate goarch tctr avail, true)
  unfolding select_image
  select_image_last [] ys avail selected okn a h =
      rw (a, select_image) (select_image_rest ys (candidate goarch tctr avail) true h)
  select_image_last (x ∷ xs) ys avail selected okn a h = select_image_last xs ys avail _ _ a h

  select_image_cases :
      (xs : List Bytes) (selected : RunningContainer) (okn : Bool)
      → ((select_image goarch tctr ok current xs selected okn ≡ (selected, okn))
          × All (λ y. is_acceptable goarch tctr ok current y ≡ false) xs)
        ⊎ ((avail : Bytes) × Elem avail xs
            × (is_acceptable goarch tctr ok current avail ≡ true)
            × (select_image goarch tctr ok current xs selected okn
                ≡ (candidate goarch tctr avail, true)))
  unfolding select_image
  select_image_cases [] selected okn = inl (refl, tt)
  select_image_cases (x ∷ xs) selected okn =
      elim (Bool-cases (is_acceptable goarch tctr ok current x)) [
        | inl a ↦ elim (select_image_cases xs (candidate goarch tctr x) true) [
          | inl (e, _) ↦ inr (x, inl refl, a, rw a e)
          | inr (y, m, b, e) ↦ inr (y, inr m, b, rw a e)
        ]
        | inr n ↦ elim (select_image_cases xs selected okn) [
          | inl (e, rest) ↦ inl (rw n e, (n, rest))
          | inr (y, m, b, e) ↦ inr (y, inr m, b, rw n e)
        ]
      ]

-- What an acceptable tag is for a target with a container.
abbrev pub IsUpgrade : Bytes → TargetContainer → RunningContainer → Bytes → Type 0
IsUpgrade goarch tctr current avail =
    (container_version_score goarch tctr avail ≤ current.score)
    × (avail ≢ current.image_tag)
    × ((tctr.use_any_version ≡ true) ⊎ (container_version_score goarch tctr avail ≤ score_limit))

module _ (goarch : Bytes) (rand : ℕ → ℕ) (tctr : TargetContainer) where
  is_acceptable-IsUpgrade :
      (current : RunningContainer) (avail : Bytes)
      → is_acceptable goarch tctr true current avail ≡ true
      → IsUpgrade goarch tctr current avail
  unfolding is_acceptable
  is_acceptable-IsUpgrade current avail h =
      (ground arith, λ e. ground (arith, eq→beq avail current.image_tag e), ground arith)

  pub same_container_refl : (rc : RunningContainer) → same_container rc rc ≡ true
  same_container_refl rc = elim (Option-cases rc.api_container) [
    | inl e ↦ ground (arith, beq_refl rc.deviced_id, beq_refl rc.image, beq_refl rc.image_tag)
    | inr (a, e) ↦
        ground
          (arith, beq_refl rc.deviced_id, beq_refl rc.image, beq_refl rc.image_tag, beq_refl a.id)
  ]

  same_container_tag :
      (a b : RunningContainer) → b.image_tag ≢ a.image_tag → same_container a b ≡ false
  same_container_tag a b ne = ground (arith, beq→eq a.image_tag b.image_tag)

  All-of_none :
      (ok : Bool) (current : RunningContainer) (xs : List Bytes)
      → (length xs == 0) ≡ true
      → All (λ y. is_acceptable goarch tctr ok current y ≡ false) xs
  All-of_none ok current [] h = tt
  All-of_none ok current (x ∷ xs) h = absurd (ground arith)

  -- The plan of a target whose container `api` is replaced by a new one with the tag `avail`.
  unfoldable pub replacement : Plan → ApiContainer → Bytes → Plan
  replacement plan api avail =
      schedule_create goarch rand tctr (candidate goarch tctr avail)
        (record plan { to_delete = insert api.id tctr.lifecycle_hooks.on_stop plan.to_delete })

  -- A target that has a container keeps it, with nothing scheduled, and then its score is 0 or no
  -- available tag is acceptable; or it is replaced: then its score was not 0, the container is scheduled for deletion with the target's stop hooks, and one new
  -- container is scheduled, whose tag is available, is another one, is scored no worse, and is
  -- allowed for the target.
  pub decide_running_cases :
      (available : List (Bytes × List Bytes)) (plan : Plan) (current : RunningContainer)
      (api : ApiContainer)
      → current.api_container ≡ some api
      → ((decide_running goarch rand available tctr current plan ≡ some plan)
          × ((current.score ≡ 0)
              ⊎ All
                  (λ y. is_acceptable goarch tctr true current y ≡ false)
                  (lookup_or tctr.image [] available)))
        ⊎ ((avail : Bytes) × Elem avail (lookup_or tctr.image [] available)
            × IsUpgrade goarch tctr current avail
            × (0 < current.score)
            × (decide_running goarch rand available tctr current plan
                ≡ some (replacement plan api avail)))
  unfolding decide_running settle_running replace_container replacement
  decide_running_cases available plan current api listed =
      let images = lookup_or tctr.image [] available in
      elim (Bool-cases (current.score == 0)) [
        | inl z ↦ inl (rw z, inl (ground arith))
        | inr z ↦ elim (Bool-cases (length images == 0)) [
          | inl l ↦ inl (rw (z, l), inr (All-of_none true current images l))
          | inr l ↦ elim (select_image_cases goarch tctr true current images current false) [
            | inl (e, rest) ↦ inl (rw (z, l, e, same_container_refl current), inr rest)
            | inr (avail, m, a, e) ↦
                let up = is_acceptable-IsUpgrade current avail a in
                inr (
                  avail,
                  m,
                  up,
                  ground arith,
                  rw (
                    z,
                    l,
                    e,
                    same_container_tag current (candidate goarch tctr avail)
                        (unfold candidate in up.1),
                    listed,
                    replace_container,
                    e,
                  ),
                )
          ]
        ]
      ]

  -- A target without a container gets one from an available tag that is allowed for it, or nothing is
  -- scheduled, and then no available tag is allowed.
  pub decide_missing_cases :
      (available : List (Bytes × List Bytes)) (plan : Plan)
      → ((decide_missing goarch rand available tctr plan ≡ plan)
          × All
              (λ y. is_acceptable goarch tctr false zero_container y ≡ false)
              (lookup_or tctr.image [] available))
        ⊎ ((avail : Bytes) × Elem avail (lookup_or tctr.image [] available)
            × (is_acceptable goarch tctr false zero_container avail ≡ true)
            × (decide_missing goarch rand available tctr plan
                ≡ schedule_create goarch rand tctr (candidate goarch tctr avail) plan))
  unfolding decide_missing settle_missing
  decide_missing_cases available plan =
      let images = lookup_or tctr.image [] available in
      elim (Bool-cases (length images == 0)) [
        | inl l ↦ inl (rw l, All-of_none false zero_container images l)
        | inr l ↦
            elim (select_image_cases goarch tctr false zero_container images zero_container false) [
              | inl (e, rest) ↦ inl (rw (l, e), rest)
              | inr (avail, m, a, e) ↦ inr (avail, m, a, rw (l, e))
            ]
      ]
