-- ===== src/ContainerSync/Best.antt =====
-- A settled target runs the best tag that it can have.
-- About pkg/containersync/worker.go.
use deviced.Base.{
  ◌≤◌, List, [], map, some, true, false, beq, beq→eq, Bytes, ◌≡◌, ◌≢◌, sym, ap, ◌∙◌, arith, All,
  All-Elem, All-of_Elem, Elem, inl, inr, ◌⊎◌, Bool-cases,
}
use deviced.Base.Assoc.{lookup_or}
use deviced.Docker.{ApiContainer}
use deviced.Config.Target.{TargetContainer, container_version_score}
use deviced.ContainerSync.State.{RunningContainer}
use deviced.ContainerSync.Match.{matching_target, score_of}
use deviced.ContainerSync.Choose.{zero_container, is_acceptable}
use deviced.ContainerSync.Placed.{Placed, IsPlaced}
use deviced.ContainerSync.Settled.{IsSettled}
use deviced.ContainerSync.Changes.{AllRefused}
use deviced.ContainerSync.Panics.{DistinctTargets}
use deviced.ContainerSync.Shown.{tag_of, IsPlaced-target}
use deviced.ContainerSync.Listing.{map-Elem, Elem-map}
use deviced.ContainerSync.Warrants.{some-inj}
use deviced.ContainerSync.Progress.{
  container_of, container_of-score, container_of-tag, score_of-tag,
}

module _ (goarch : Bytes) (targets : List TargetContainer) (available : List (Bytes × List Bytes))
    (ds : List ApiContainer) where
  -- A container of the target is listed, and no available tag that the target may use has a better score
  -- than its tag; or none is listed, and no available tag may be used.
  abbrev pub HasBest : TargetContainer → Type 0
  HasBest t =
      ((c : ApiContainer) × Elem c ds
        × (matching_target c targets ≡ some t)
        × All
            (λ tag.
              (is_acceptable goarch t false zero_container tag ≡ false)
              ⊎ (score_of goarch c t ≤ container_version_score goarch t tag))
            (lookup_or t.image [] available))
      ⊎ (All (λ c. matching_target c targets ≢ some t) ds
          × AllRefused goarch available t false zero_container)

module _ (goarch : Bytes) where
  -- A tag is refused because it may not be used, is the current one, or has a worse score.
  refused_cases :
      (t : TargetContainer) (rc : RunningContainer) (tag : Bytes)
      → is_acceptable goarch t true rc tag ≡ false
      → (is_acceptable goarch t false zero_container tag ≡ false)
        ⊎ ((tag ≡ rc.image_tag) ⊎ (rc.score ≤ container_version_score goarch t tag))
  unfolding is_acceptable
  refused_cases t rc tag h = elim (Bool-cases (beq tag rc.image_tag)) [
    | inl y ↦ inr (inl (beq→eq tag rc.image_tag y))
    | inr n ↦ ground arith
  ]

module _ (goarch : Bytes) (targets : List TargetContainer) (available : List (Bytes × List Bytes))
    (qs : List Placed) (placed : All (IsPlaced goarch targets) qs) (t : TargetContainer) where
  -- The tag is none that is better than the container's.
  abbrev IsNoBetter : Placed → Bytes → Type 0
  IsNoBetter p tag =
      (is_acceptable goarch t false zero_container tag ≡ false)
      ⊎ (score_of goarch p.0 t ≤ container_version_score goarch t tag)

  refused-IsNoBetter :
      (p : Placed) (tag : Bytes)
      → p.1 ≡ t
      → is_acceptable goarch t true (container_of goarch available p) tag ≡ false
      → IsNoBetter p tag
  refused-IsNoBetter p tag same left_out =
      let score : score_of goarch p.0 t ≡ container_version_score goarch t (tag_of p) =
        ap (score_of goarch p.0) (sym same)
        ∙ score_of-tag goarch available p
        ∙ ap (λ u. container_version_score goarch u (tag_of p)) same in
      let of_container : (container_of goarch available p).score ≡ score_of goarch p.0 t =
        container_of-score goarch available p
        ∙ sym (score_of-tag goarch available p)
        ∙ ap (score_of goarch p.0) same in
      elim (refused_cases goarch t (container_of goarch available p) tag left_out) [
        | inl unfit ↦ inl unfit
        | inr left ↦ elim left [
          | inl current ↦
              let tie : container_version_score goarch t tag ≡ score_of goarch p.0 t =
                ap (container_version_score goarch t)
                  (current ∙ container_of-tag goarch available p)
                ∙ sym score in
              inr (omega arith)
          | inr worse ↦ inr (omega arith)
        ]
      ]

  pub IsSettled-HasBest :
      DistinctTargets targets
      → Elem t targets
      → IsSettled goarch available qs t
      → HasBest goarch targets available (map (λ p. p.0) qs) t
  IsSettled-HasBest distinct mt (inl (p, m, e, settled)) =
      let same = IsPlaced-target goarch targets qs p t distinct placed m mt e in
      let (found, _) = All-Elem (IsPlaced goarch targets) qs p placed m in
      inl (
        p.0,
        map-Elem qs p m,
        found ∙ ap some same,
        All-of_Elem (IsNoBetter p) (lookup_or t.image [] available) (λ tag a. elim settled [
          | inl z ↦
              let best : score_of goarch p.0 t ≡ 0 = ap (score_of goarch p.0) (sym same) ∙ z in
              inr (omega arith)
          | inr refused ↦ refused-IsNoBetter p tag same (
              All-Elem
                (λ x. is_acceptable goarch t true (container_of goarch available p) x ≡ false)
                (lookup_or t.image [] available) tag refused a)
        ]),
      )
  IsSettled-HasBest distinct mt (inr (gone, refused)) = inr (
    All-of_Elem (λ c. matching_target c targets ≢ some t) (map (λ p. p.0) qs)
        (λ c mc found.
          let (p, m, is) = Elem-map qs c mc in
          let (was, _) = All-Elem (IsPlaced goarch targets) qs p placed m in
          let same : p.1 ≡ t =
            some-inj (sym was ∙ ap (λ x. matching_target x targets) is ∙ found) in
          All-Elem (λ (q : Placed). q.1.id ≢ t.id) qs p gone m
            (ap (λ (v : TargetContainer). v.id) same)),
    refused,
  )
