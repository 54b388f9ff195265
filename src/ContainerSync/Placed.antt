-- ===== src/ContainerSync/Placed.antt =====
-- The loop over the containers where each has a target of its own.
-- About pkg/containersync/worker.go.
use deviced.Base.{List, [], ◌∷◌, map, none, some, false, Bytes, ◌≡◌, ◌≢◌, refl, sym, ◌∙◌, All}
use deviced.Base.Assoc.{lookup, lookup-insert_self}
use deviced.Docker.{ApiContainer}
use deviced.Config.Target.{TargetContainer}
use deviced.ContainerSync.MatchSteps.{IsNamed}
use deviced.ContainerSync.State.{Plan}
use deviced.ContainerSync.Match.{
  build_running_container, matching_target, is_dead, score_of, keep_container, sync_container,
  sync_containers,
}
use deviced.ContainerSync.Handled.{lookup-insert_ne}

-- A container, and the target that it runs for.
abbrev pub Placed : Type 0
Placed = ApiContainer × TargetContainer

abbrev pub OneEach : List Placed → Type 0
OneEach [] = Unit
OneEach ((c, mt) ∷ ps) = All (λ (p : Placed). mt.id ≢ p.1.id) ps × OneEach ps

module _ (goarch : Bytes) (targets : List TargetContainer) where
  -- The container is the target's, and is no dead one.
  abbrev pub IsPlaced : Placed → Type 0
  IsPlaced (c, mt) = (matching_target c targets ≡ some mt) × (is_dead c mt ≡ false)

  abbrev pub keep_all : List Placed → Plan → Plan
  keep_all [] plan = plan
  keep_all ((c, mt) ∷ ps) plan = keep_all ps (keep_container goarch c mt plan)

  All-absent-keep :
      (c : ApiContainer) (mt : TargetContainer) (ps : List Placed) (plan : Plan)
      → All (λ (p : Placed). mt.id ≢ p.1.id) ps
      → All (λ (p : Placed). lookup p.1.id plan.running ≡ none) ps
      → All (λ (p : Placed). lookup p.1.id (keep_container goarch c mt plan).running ≡ none) ps
  unfolding keep_container
  All-absent-keep c mt [] plan d f = tt
  All-absent-keep c mt ((e, u) ∷ ps) plan (n, d) (f, fs) =
      (lookup-insert_ne mt.id u.id _ plan.running n ∙ f, All-absent-keep c mt ps plan d fs)

  pub sync_containers-keep_all :
      (ps : List Placed) (plan : Plan)
      → All IsNamed (map (λ p. p.0) ps)
      → All IsPlaced ps
      → OneEach ps
      → All (λ (p : Placed). lookup p.1.id plan.running ≡ none) ps
      → sync_containers goarch targets (map (λ p. p.0) ps) plan ≡ some (keep_all ps plan)
  unfolding sync_containers sync_container
  sync_containers-keep_all [] plan named h d f = refl
  sync_containers-keep_all ((c, mt) ∷ ps) plan (y, named) ((m, l), h) (n, d) (f, fs) =
      let rest =
        sync_containers-keep_all ps (keep_container goarch c mt plan) named h d
          (All-absent-keep c mt ps plan n fs) in
      rw (y, m, l, f, sync_containers) rest

  pub keep_all-lookup_other :
      (k : Bytes) (ps : List Placed) (plan : Plan)
      → All (λ (p : Placed). p.1.id ≢ k) ps
      → lookup k (keep_all ps plan).running ≡ lookup k plan.running
  unfolding keep_container
  keep_all-lookup_other k [] plan n = refl
  keep_all-lookup_other k ((c, mt) ∷ ps) plan (n, ns) =
      keep_all-lookup_other k ps (keep_container goarch c mt plan) ns
      ∙ lookup-insert_ne mt.id k _ plan.running n

  -- What the loop over the containers stores for the target of `p`.
  abbrev pub Stored : Plan → Placed → Type 0
  Stored plan (c, mt) =
      lookup mt.id plan.running ≡ some (build_running_container c mt (score_of goarch c mt))

  All-other :
      (mt : TargetContainer) (ps : List Placed)
      → All (λ (p : Placed). mt.id ≢ p.1.id) ps
      → All (λ (p : Placed). p.1.id ≢ mt.id) ps
  All-other mt [] d = tt
  All-other mt (p ∷ ps) (n, d) = ((λ e. n (sym e)), All-other mt ps d)

  pub keep_all-Stored :
      (ps : List Placed) (plan : Plan) → OneEach ps → All (Stored (keep_all ps plan)) ps
  unfolding keep_container
  keep_all-Stored [] plan d = tt
  keep_all-Stored ((c, mt) ∷ ps) plan (n, d) =
      let next = keep_container goarch c mt plan in
      (
        keep_all-lookup_other mt.id ps next (All-other mt ps n)
            ∙ lookup-insert_self mt.id _ plan.running,
        keep_all-Stored ps next d,
      )

  -- The plan has nothing to do.
  abbrev pub Idle : Plan → Type 0
  Idle plan = (plan.to_delete ≡ []) × (plan.to_start ≡ []) × (plan.to_create ≡ [])

  pub keep_all-Idle : (ps : List Placed) (plan : Plan) → Idle plan → Idle (keep_all ps plan)
  unfolding keep_container
  keep_all-Idle [] plan i = i
  keep_all-Idle ((c, mt) ∷ ps) plan i = keep_all-Idle ps (keep_container goarch c mt plan) i
