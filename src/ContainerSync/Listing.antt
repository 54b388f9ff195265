-- ===== src/ContainerSync/Listing.antt =====
-- The list after a pass shows for each target what the pass has made of it.
-- About pkg/containersync/worker.go.
use deviced.Base.{
  ℕ, false, subst, List, [], ◌∷◌, map, Option, none, some, Bytes, ◌≡◌, ◌≢◌, refl, sym, ap, ◌∙◌, All,
  All-Elem, All-of_Elem, Elem, inl, inr,
}
use deviced.Base.Assoc.{lookup, lookup_or, lookup-insert_self}
use deviced.Images.{ImageSummary, build_image_map, parse_image_and_tag}
use deviced.Images.Laws.{parse_image_and_tag-join}
use deviced.Images.Plain.{build_image_map-Lacks}
use deviced.Docker.{ApiContainer}
use deviced.Config.Target.{TargetContainer}
use deviced.Config.Document.{DevicedConfig}
use deviced.ContainerSync.State.{RunningContainer}
use deviced.ContainerSync.Match.{build_running_container, matching_target, deviced_id_label}
use deviced.ContainerSync.Choose.{zero_container, is_acceptable, candidate, create_config}
use deviced.ContainerSync.Pass.{Env}
use deviced.ContainerSync.Placed.{Placed, IsPlaced}
use deviced.ContainerSync.Changes.{Change}
use deviced.ContainerSync.Realized.{Realizes}
use deviced.ContainerSync.Warrants.{IsWanted, Warranted, some-inj}
use deviced.ContainerSync.Progress.{IsUsable, allowed-IsUsable}
use deviced.ContainerSync.Shown.{
  tag_of, IsShown, StandsFor, IsMade, Follows, FoldDistinct, matching_target_label,
  DistinctTargets-unique, FoldDistinct-DistinctTargets,
}

pub map-Elem : (ps : List Placed) (p : Placed) → Elem p ps → Elem p.0 (map (λ q. q.0) ps)
map-Elem [] p m = elim m [ ]
map-Elem (q ∷ ps) p (inl e) = inl (ap (λ (x : Placed). x.0) e)
map-Elem (q ∷ ps) p (inr m) = inr (map-Elem ps p m)

pub Elem-map :
    (ps : List Placed) (c : ApiContainer)
    → Elem c (map (λ q. q.0) ps)
    → (p : Placed) × Elem p ps × (p.0 ≡ c)
Elem-map [] c m = elim m [ ]
Elem-map (q ∷ ps) c (inl e) = (q, inl refl, e)
Elem-map (q ∷ ps) c (inr m) = let (p, there, e) = Elem-map ps c m in (p, inr there, e)

module _ (env : Env) (cfg : DevicedConfig) (images : List ImageSummary) (ps qs : List Placed)
    (apart : FoldDistinct cfg.containers) (before : All (IsPlaced env.goarch cfg.containers) ps)
    (after : All (IsPlaced env.goarch cfg.containers) qs)
    (f : Follows env cfg images (map (λ p. p.0) ps) (map (λ p. p.0) qs)) where
  -- A listed container that was made for a target and a tag of it has both.
  made_for :
      (u t : TargetContainer) (avail : Bytes) (n : ℕ) (q : Placed)
      → u.id ≡ t.id
      → Elem t cfg.containers
      → Elem avail (lookup_or t.image [] (build_image_map images))
      → Elem q qs
      → IsMade (create_config env.goarch env.rand u (candidate env.goarch t avail) n) q.0
      → (q.1 ≡ t) × (tag_of q ≡ avail)
  unfolding create_config candidate lookup_or
  made_for u t avail n q e mt ma mq made =
      let (found, _) = All-Elem (IsPlaced env.goarch cfg.containers) qs q after mq in
      let label : lookup_or deviced_id_label [] q.0.labels ≡ t.id =
        made.label ∙ rw (lookup-insert_self deviced_id_label u.id u.docker_config.labels) e in
      let (hi, ht) = build_image_map-Lacks images t.image avail ma in
      (
        some-inj (sym found ∙ matching_target_label q.0 cfg.containers t apart mt label),
        ap (λ i. (parse_image_and_tag i).1) made.image
            ∙ ap (λ r. r.1) (parse_image_and_tag-join t.image avail hi ht),
      )

  module _ (realizes : Realizes env.goarch env.rand (map (λ p. p.0) ps) f.plan)
      (warranted : Warranted env.goarch env.rand cfg.containers
        (build_image_map images)
        (map (λ p. p.0) ps)
        f.plan)
      (t : TargetContainer) (mt : Elem t cfg.containers) where
    IsShown-kept :
        (rc : RunningContainer)
        → StandsFor env.goarch (some rc) t ps
        → lookup t.id f.plan.running ≡ some rc
        → IsShown (some rc) t qs
    unfolding build_running_container
    IsShown-kept rc (p, m, e, stands) at = elim (realizes.realized t.id rc at) [
      | inl (c, has, free) ↦ elim (All-Elem _ (map (λ x. x.0) ps) p.0 f.spared (map-Elem ps p m)) [
        | inl (hooks, gone) ↦
            let same : p.0 ≡ c = some-inj (ap (λ r. r.api_container) stands ∙ has) in
            let kept : lookup p.0.id f.plan.to_delete ≡ none = rw same free in absurd (cc)
        | inr there ↦
            let (q, mq, same) = Elem-map qs p.0 there in
            let (was, _) = All-Elem (IsPlaced env.goarch cfg.containers) ps p before m in
            let (is, _) = All-Elem (IsPlaced env.goarch cfg.containers) qs q after mq in
            let target : q.1 ≡ p.1 =
              some-inj (sym is ∙ ap (λ c. matching_target c cfg.containers) same ∙ was) in
            (
              q,
              mq,
              ap (λ (v : TargetContainer). v.id) target ∙ e,
              ap (λ (c : ApiContainer). (parse_image_and_tag c.image).1) same
                  ∙ ap (λ r. r.image_tag) stands,
            )
      ]
      | inr (nil, _) ↦
          let has : rc.api_container ≡ some p.0 = ap (λ r. r.api_container) (sym stands) in
          absurd (cc)
    ]

    IsShown-made :
        (avail : Bytes)
        → Elem avail (lookup_or t.image [] (build_image_map images))
        → lookup t.id f.plan.running ≡ some (candidate env.goarch t avail)
        → IsShown (some (candidate env.goarch t avail)) t qs
    unfolding candidate
    IsShown-made avail a at = elim (realizes.realized t.id (candidate env.goarch t avail) at) [
      | inl (c, has, _) ↦ absurd (cc)
      | inr (_, (u, n, e, there)) ↦
          let m = create_config env.goarch env.rand u (candidate env.goarch t avail) n in
          let (listed, made) =
            All-Elem (λ o. Elem (f.new o) (map (λ x. x.0) qs) × IsMade o (f.new o)) f.plan.to_create
              m f.made there in
          let (q, mq, same) = Elem-map qs (f.new m) listed in
          let (target, tagged) =
            made_for u t avail n q e mt a mq (subst (IsMade m) (sym same) made) in
          (q, mq, ap (λ (v : TargetContainer). v.id) target, tagged)
    ]

    IsShown-none :
        All
          (λ tag. (is_acceptable env.goarch t false zero_container tag) ≡ false)
          (lookup_or t.image [] (build_image_map images))
        → StandsFor env.goarch none t ps
        → IsShown none t qs
    IsShown-none refused gone =
        All-of_Elem (λ (q : Placed). q.1.id ≢ t.id) qs
          (λ q m e. elim (All-Elem _ (map (λ x. x.0) qs) q.0 f.known (map-Elem qs q m)) [
            | inl (there, _) ↦
                let (p, mp, same) = Elem-map ps q.0 there in
                let (was, _) = All-Elem (IsPlaced env.goarch cfg.containers) ps p before mp in
                let (is, _) = All-Elem (IsPlaced env.goarch cfg.containers) qs q after m in
                let target : p.1 ≡ q.1 =
                  some-inj (sym was ∙ ap (λ c. matching_target c cfg.containers) same ∙ is) in
                All-Elem (λ (x : Placed). x.1.id ≢ t.id) ps p gone mp
                  (ap (λ (v : TargetContainer). v.id) target ∙ e)
            | inr (c, mc, is_new) ↦
                let (_, made) =
                  All-Elem (λ o. Elem (f.new o) (map (λ x. x.0) qs) × IsMade o (f.new o))
                    f.plan.to_create c f.made mc in
                let (u, avail, n, mu, ma, free, same) =
                  All-Elem (IsWanted env.goarch env.rand cfg.containers (build_image_map images))
                    f.plan.to_create c warranted.creates mc in
                let (target, _) =
                  made_for u u avail n q refl mu ma m
                    (subst (λ o. IsMade o q.0) same (subst (IsMade c) (sym is_new) made)) in
                let alike =
                  DistinctTargets-unique cfg.containers u t
                    (FoldDistinct-DistinctTargets cfg.containers apart) mu mt
                    (ap (λ (v : TargetContainer). v.id) (sym target) ∙ e) in
                let there =
                  subst (λ v. Elem avail (lookup_or v.image [] (build_image_map images))) alike
                    ma in
                let usable =
                  subst (λ v. IsUsable env.goarch (build_image_map images) v avail) alike
                    (allowed-IsUsable env.goarch (build_image_map images) u avail free) in
                let no =
                  All-Elem _ (lookup_or t.image [] (build_image_map images)) avail refused there in
                absurd (cc)
          ])

    pub Change-IsShown :
        {before after : Option RunningContainer}
        → Change env.goarch (build_image_map images) t before after
        → StandsFor env.goarch before t ps
        → lookup t.id f.plan.running ≡ after
        → IsShown after t qs
    Change-IsShown (Change.kept rc _) stands at = IsShown-kept rc stands at
    Change-IsShown (Change.replaced rc avail a _ _) stands at = IsShown-made avail a at
    Change-IsShown (Change.left_out refused) gone at = IsShown-none refused gone
    Change-IsShown (Change.created avail a _) gone at = IsShown-made avail a at
