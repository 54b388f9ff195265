-- ===== src/ContainerSync/Orderly.antt =====
-- After a pass every listed container has a target of its own.
-- About pkg/containersync/worker.go.
use deviced.Base.{
  List, [], ◌∷◌, map, some, false, Bytes, ◌≡◌, ◌≢◌, refl, sym, ap, ◌∙◌, subst, All, All-Elem, Elem,
  inl, inr, ◌⊎◌,
}
use deviced.Images.{ImageSummary, build_image_map}
use deviced.Docker.{ApiContainer, ContainerCreateConfig}
use deviced.Config.Target.{TargetContainer}
use deviced.Config.Document.{DevicedConfig}
use deviced.ContainerSync.Named.{make_plan-IsNamed}
use deviced.ContainerSync.Match.{matching_target, is_dead}
use deviced.ContainerSync.Choose.{candidate}
use deviced.ContainerSync.Pass.{Env}
use deviced.ContainerSync.Handled.{DistinctIds, IsKept, IsHandled}
use deviced.ContainerSync.Placed.{Placed, OneEach, IsPlaced}
use deviced.ContainerSync.Realized.{Realizes}
use deviced.ContainerSync.Warrants.{IsWanted, some-inj}
use deviced.ContainerSync.WarrantedPlan.{make_plan-Warranted}
use deviced.ContainerSync.Served.{make_plan-Realizes}
use deviced.ContainerSync.Labels.{label_of, create_config-label, OneLabelEach-unique}
use deviced.ContainerSync.TidyPlan.{make_plan-IsTidy}
use deviced.ContainerSync.Shown.{
  IsMade, Follows, FoldDistinct, FoldDistinct-DistinctTargets, matching_target_label,
}

-- Every container has a target of its own and is not dead, and the ids differ.
abbrev pub IsOrderly : Bytes → List TargetContainer → List Placed → Type 0
IsOrderly goarch targets ps =
    All (IsPlaced goarch targets) ps × OneEach ps × DistinctIds (map (λ p. p.0) ps)

module _ (env : Env) (cfg : DevicedConfig) (images : List ImageSummary) (cs ds : List ApiContainer)
    (apart : FoldDistinct cfg.containers) (distinct : DistinctIds cs)
    (f : Follows env cfg images cs ds) where
  -- The plan of the pass brings about its map of containers.
  pub Follows-Realizes : Realizes env.goarch env.rand cs f.plan
  Follows-Realizes =
      let (plan, e, realizes, _) =
        make_plan-Realizes env cfg cs images (make_plan-IsNamed env cfg cs images f.planned)
          distinct (FoldDistinct-DistinctTargets cfg.containers apart) in
      subst (λ p. Realizes env.goarch env.rand cs p) (some-inj (sym e ∙ f.planned)) realizes

  -- The listed container is the target's in the map, or the new one of the target.
  abbrev IsPlaceOf : ApiContainer → TargetContainer → Type 0
  IsPlaceOf d t =
      (matching_target d cfg.containers ≡ some t)
      × (is_dead d t ≡ false)
      × (IsKept f.plan t.id d
          ⊎ ((m : ContainerCreateConfig) × Elem m f.plan.to_create
              × (d ≡ f.new m)
              × (label_of m ≡ t.id)))

  made_place :
      (m : ContainerCreateConfig)
      → Elem m f.plan.to_create
      → (t : TargetContainer) × IsPlaceOf (f.new m) t
  unfolding is_dead
  made_place m mm =
      let (t, avail, n, mt, _, _, same) =
        All-Elem (IsWanted env.goarch env.rand cfg.containers (build_image_map images))
          f.plan.to_create m (make_plan-Warranted env cfg cs images f.planned).creates mm in
      let (_, made) =
        All-Elem (λ o. Elem (f.new o) ds × IsMade o (f.new o)) f.plan.to_create m f.made mm in
      let label : label_of m ≡ t.id =
        ap label_of same
        ∙ create_config-label env.goarch env.rand t (candidate env.goarch t avail) n in
      (
        t,
        (
          matching_target_label (f.new m) cfg.containers t apart mt (made.label ∙ label),
          rw made.state refl,
          inr (m, mm, refl, label),
        ),
      )

  place : (d : ApiContainer) → Elem d ds → (t : TargetContainer) × IsPlaceOf d t
  place d m = elim (All-Elem _ ds d f.known m) [
    | inl (mc, free) ↦ elim (All-Elem (IsHandled f.plan) cs d Follows-Realizes.handled mc) [
      | inl (hooks, gone) ↦ absurd (cc)
      | inr (k, (rc, at, has)) ↦
          let tidy =
            make_plan-IsTidy env cfg cs images (FoldDistinct-DistinctTargets cfg.containers apart)
              f.planned in
          let (t, e, found, alive) = tidy.belong k rc d at has in
          (t, (found, alive, inl (rc, rw e at, has)))
    ]
    | inr (c, mm, e) ↦ subst (λ x. (t : TargetContainer) × IsPlaceOf x t) (sym e) (made_place c mm)
  ]

  same_place :
      (d e : ApiContainer) (t u : TargetContainer)
      → IsPlaceOf d t
      → IsPlaceOf e u
      → t.id ≡ u.id
      → d ≡ e
  same_place d e t u (_, _, a) (_, _, b) same =
      let tidy =
        make_plan-IsTidy env cfg cs images (FoldDistinct-DistinctTargets cfg.containers apart)
          f.planned in
      elim a [
        | inl (rc, at, has) ↦ elim b [
          | inl (rd, bt, bs) ↦ cc
          | inr (m, mm, en, label) ↦
              let (rd, bt, nil) = All-Elem _ f.plan.to_create m tidy.fresh mm in absurd (cc)
        ]
        | inr (m, mm, dn, label) ↦
            let (rc, at, nil) = All-Elem _ f.plan.to_create m tidy.fresh mm in
            elim b [
              | inl (rd, bt, bs) ↦ absurd (cc)
              | inr (n, mn, en, label') ↦
                  let alike =
                    OneLabelEach-unique f.plan.to_create m n tidy.single mm mn
                      (label ∙ same ∙ sym label') in
                  cc
            ]
      ]

  -- The listed containers with their targets.
  attach : (es : List ApiContainer) → ((d : ApiContainer) → Elem d es → Elem d ds) → List Placed
  attach [] sub = []
  attach (d ∷ es) sub = (d, (place d (sub d (inl refl))).0) ∷ attach es (λ e m. sub e (inr m))

  attach-map :
      (es : List ApiContainer) (sub : (d : ApiContainer) → Elem d es → Elem d ds)
      → map (λ p. p.0) (attach es sub) ≡ es
  unfolding attach
  attach-map [] sub = refl
  attach-map (d ∷ es) sub = ap (λ xs. d ∷ xs) (attach-map es (λ e m. sub e (inr m)))

  attach-IsPlaced :
      (es : List ApiContainer) (sub : (d : ApiContainer) → Elem d es → Elem d ds)
      → All (IsPlaced env.goarch cfg.containers) (attach es sub)
  unfolding attach
  attach-IsPlaced [] sub = tt
  attach-IsPlaced (d ∷ es) sub =
      let (t, (found, alive, _)) = place d (sub d (inl refl)) in
      ((found, alive), attach-IsPlaced es (λ e m. sub e (inr m)))

  attach-apart :
      (d : ApiContainer) (t : TargetContainer) (es : List ApiContainer)
      (sub : (e : ApiContainer) → Elem e es → Elem e ds)
      → IsPlaceOf d t
      → All (λ (e : ApiContainer). d.id ≢ e.id) es
      → All (λ (p : Placed). t.id ≢ p.1.id) (attach es sub)
  unfolding attach
  attach-apart d t [] sub pd a = tt
  attach-apart d t (e ∷ es) sub pd (n, a) =
      let (u, pe) = place e (sub e (inl refl)) in
      (
        (λ same. n (ap (λ (c : ApiContainer). c.id) (same_place d e t u pd pe same))),
        attach-apart d t es (λ x m. sub x (inr m)) pd a,
      )

  attach-OneEach :
      (es : List ApiContainer) (sub : (d : ApiContainer) → Elem d es → Elem d ds)
      → DistinctIds es
      → OneEach (attach es sub)
  unfolding attach
  attach-OneEach [] sub d = tt
  attach-OneEach (d ∷ es) sub (n, rest) =
      let (t, pd) = place d (sub d (inl refl)) in
      (
        attach-apart d t es (λ e m. sub e (inr m)) pd n,
        attach-OneEach es (λ e m. sub e (inr m)) rest,
      )

  -- The list after a pass is orderly, whatever there was before.
  pub Follows-IsOrderly :
      (qs : List Placed) × (map (λ p. p.0) qs ≡ ds) × IsOrderly env.goarch cfg.containers qs
  Follows-IsOrderly =
      let qs = attach ds (λ d m. m) in
      let listed = attach-map ds (λ d m. m) in
      (
        qs,
        listed,
        (
          attach-IsPlaced ds (λ d m. m),
          attach-OneEach ds (λ d m. m) f.distinct,
          subst DistinctIds (sym listed) f.distinct,
        ),
      )
