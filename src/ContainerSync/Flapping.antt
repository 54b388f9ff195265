-- ===== src/ContainerSync/Flapping.antt =====
-- Targets with two tags of one score.
-- About pkg/containersync/worker.go.
use deviced.Base.{
  ℕ, ◌≤◌, ◌<◌, List, [], some, true, false, Bytes, beq, beq→eq, ◌≡◌, ◌≢◌, ◌⊎◌, ◌∙◌, sym, arith, inl,
  inr, All, Elem, All-Elem, Bool-cases,
}
use deviced.Base.Assoc.{lookup_or}
use deviced.Docker.{ApiContainer}
use deviced.Config.Target.{TargetContainer, container_version_score}
use deviced.ContainerSync.State.{RunningContainer, Plan}
use deviced.ContainerSync.Choose.{score_limit, is_acceptable, decide_running}
use deviced.ContainerSync.Selection.{replacement, decide_running_cases}

module _ (goarch : Bytes) (tctr : TargetContainer) (available : List (Bytes × List Bytes)) where
  -- Two tags have the best score of the available ones, it is not 0, and the target may use it.
  pub record HasTwins (s : ℕ) (a b : Bytes) : Type 0 where
    pub apart : a ≢ b
    pub first_there : Elem a (lookup_or tctr.image [] available)
    pub second_there : Elem b (lookup_or tctr.image [] available)
    pub first_score : container_version_score goarch tctr a ≡ s
    pub second_score : container_version_score goarch tctr b ≡ s
    pub best :
        All (λ t. s ≤ container_version_score goarch tctr t) (lookup_or tctr.image [] available)
    pub positive : 0 < s
    pub allowed : (tctr.use_any_version ≡ true) ⊎ (s ≤ score_limit)

  acceptable_twin :
      (s : ℕ) (t : Bytes) (current : RunningContainer)
      → container_version_score goarch tctr t ≡ s
      → s ≤ current.score
      → (tctr.use_any_version ≡ true) ⊎ (s ≤ score_limit)
      → beq t current.image_tag ≡ false
      → is_acceptable goarch tctr true current t ≡ true
  unfolding is_acceptable
  acceptable_twin s t current scored le allowed differs = ground arith

  -- Of two tags one is acceptable.
  some_acceptable :
      (s : ℕ) (a b : Bytes) (current : RunningContainer)
      → HasTwins s a b
      → s ≤ current.score
      → (t : Bytes) × Elem t (lookup_or tctr.image [] available)
        × (is_acceptable goarch tctr true current t ≡ true)
  some_acceptable s a b current twins le = elim (Bool-cases (beq a current.image_tag)) [
    | inr n ↦
        (a, twins.first_there, acceptable_twin s a current twins.first_score le twins.allowed n)
    | inl y ↦ elim (Bool-cases (beq b current.image_tag)) [
      | inr n ↦
          (b, twins.second_there, acceptable_twin s b current twins.second_score le twins.allowed n)
      | inl z ↦
          absurd (twins.apart (beq→eq a current.image_tag y ∙ sym (beq→eq b current.image_tag z)))
    ]
  ]

  -- If two available tags of a target have one score, which is not 0, which the target may use, and
  -- which no available tag betters, then the worker replaces every container of the target that has this
  -- score or a worse one; and the tag that it takes has this score or a worse one, so that the
  -- next pass replaces the new container as well.
  pub twins_never_settle :
      (rand : ℕ → ℕ) (s : ℕ) (a b : Bytes) (current : RunningContainer) (api : ApiContainer)
      (plan : Plan)
      → HasTwins s a b
      → s ≤ current.score
      → current.api_container ≡ some api
      → (avail : Bytes) × Elem avail (lookup_or tctr.image [] available)
        × (avail ≢ current.image_tag)
        × (s ≤ container_version_score goarch tctr avail)
        × (decide_running goarch rand available tctr current plan
            ≡ some (replacement goarch rand tctr plan api avail))
  twins_never_settle rand s a b current api plan twins le listed =
      let images = lookup_or tctr.image [] available in
      let (t, there, taken) = some_acceptable s a b current twins le in
      elim (decide_running_cases goarch rand tctr available plan current api listed) [
        | inl (_, inl z) ↦ absurd (ground (arith, twins.positive))
        | inl (_, inr left) ↦
            let no =
              All-Elem (λ y. is_acceptable goarch tctr true current y ≡ false) images t left
                there in
            absurd (cc)
        | inr (avail, m, up, _, e) ↦
            let worse =
              All-Elem (λ t. s ≤ container_version_score goarch tctr t) images avail twins.best m in
            (avail, m, up.1, worse, e)
      ]
