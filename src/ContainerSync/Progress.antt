-- ===== src/ContainerSync/Progress.antt =====
-- How far a target has come after some passes with the same images.
-- About pkg/containersync/worker.go.
use deviced.Base.{
  ℕ, zero, suc, ◌+◌, ◌≤◌, ◌<◌, List, [], ◌∷◌, Option, true, false, Bytes, beq→eq, ◌≡◌, ◌≢◌, refl,
  sym, ap, ◌∙◌, arith, Bool-cases, ◌==◌, All, All-Elem, Elem, inl, inr, ◌⊎◌,
}
use deviced.Base.Assoc.{lookup_or}
use deviced.Config.Target.{TargetContainer, container_version_score}
use deviced.ContainerSync.State.{RunningContainer}
use deviced.ContainerSync.Match.{build_running_container, score_of}
use deviced.ContainerSync.Choose.{score_limit, zero_container, is_acceptable, candidate}
use deviced.ContainerSync.Selection.{IsUpgrade}
use deviced.ContainerSync.Placed.{Placed, OneEach}
use deviced.ContainerSync.Settled.{IsSettled}
use deviced.ContainerSync.Changes.{Change}
use deviced.ContainerSync.Shown.{tag_of, IsShown, StandsFor, OneEach-unique}

module _ (goarch : Bytes) (available : List (Bytes × List Bytes)) where
  -- The tag may be used for a target without a container.
  abbrev pub IsUsable : TargetContainer → Bytes → Type 0
  IsUsable t tag = is_acceptable goarch t false zero_container tag ≡ true

  -- No two usable tags of the target have one score, and no score is above the bound.
  pub record IsRanked (bound : ℕ) (t : TargetContainer) : Type 0 where
    pub apart :
        (a b : Bytes)
        → Elem a (lookup_or t.image [] available)
        → Elem b (lookup_or t.image [] available)
        → IsUsable t a
        → IsUsable t b
        → container_version_score goarch t a ≡ container_version_score goarch t b
        → a ≡ b
    pub bounded :
        (a : Bytes)
        → Elem a (lookup_or t.image [] available)
        → IsUsable t a
        → container_version_score goarch t a ≤ bound

  pub allowed-IsUsable :
      (t : TargetContainer) (tag : Bytes)
      → (t.use_any_version ≡ true) ⊎ (container_version_score goarch t tag ≤ score_limit)
      → IsUsable t tag
  unfolding is_acceptable
  allowed-IsUsable t tag free = ground arith

  IsUpgrade-acceptable :
      (t : TargetContainer) (rc : RunningContainer) (tag : Bytes)
      → IsUpgrade goarch t rc tag
      → is_acceptable goarch t true rc tag ≡ true
  unfolding is_acceptable
  IsUpgrade-acceptable t rc tag (le, ne, free) = ground (arith, beq→eq tag rc.image_tag)

  -- The current container matters by its tag and its score.
  AllRefused-same :
      (t : TargetContainer) (a b : RunningContainer) (tags : List Bytes)
      → a.image_tag ≡ b.image_tag
      → a.score ≡ b.score
      → All (λ tag. is_acceptable goarch t true a tag ≡ false) tags
      → All (λ tag. is_acceptable goarch t true b tag ≡ false) tags
  unfolding is_acceptable
  AllRefused-same t a b [] e s r = tt
  AllRefused-same t a b (tag ∷ tags) e s (n, r) =
      (rw (← e, ← s) n, AllRefused-same t a b tags e s r)

  -- The container of `p`, which runs for the target of `p`.
  abbrev pub container_of : Placed → RunningContainer
  container_of p = build_running_container p.0 p.1 (score_of goarch p.0 p.1)

  pub container_of-tag : (p : Placed) → (container_of p).image_tag ≡ tag_of p
  unfolding build_running_container
  container_of-tag p = refl

  pub container_of-score :
      (p : Placed) → (container_of p).score ≡ container_version_score goarch p.1 (tag_of p)
  unfolding build_running_container score_of
  container_of-score p = refl

  pub score_of-tag :
      (p : Placed) → score_of goarch p.0 p.1 ≡ container_version_score goarch p.1 (tag_of p)
  unfolding score_of
  score_of-tag p = refl

  module _ (bound : ℕ) where
    -- After `n` passes with a result: the target is settled, or it has a usable tag whose score leaves
    -- room for as many better ones.
    abbrev pub Progress : ℕ → TargetContainer → List Placed → Type 0
    Progress zero t ps = Unit
    Progress (suc n) t ps =
        IsSettled goarch available ps t
        ⊎ ((p : Placed) × Elem p ps
            × (p.1.id ≡ t.id)
            × Elem (tag_of p) (lookup_or t.image [] available)
            × IsUsable t (tag_of p)
            × (container_version_score goarch t (tag_of p) + n ≤ bound))

    module _ (t : TargetContainer) (ranked : IsRanked bound t) (qs : List Placed) (one : OneEach qs)
        (same : (p : Placed) → Elem p qs → p.1.id ≡ t.id → p.1 ≡ t) where
      -- A container that is replaced leaves room for its successor.
      room_replaced :
          (n : ℕ) (p : Placed) (avail : Bytes)
          → Elem p qs
          → p.1.id ≡ t.id
          → Elem avail (lookup_or t.image [] available)
          → IsUpgrade goarch t (container_of p) avail
          → 0 < (container_of p).score
          → Progress n t qs
          → container_version_score goarch t avail + n ≤ bound
      room_replaced zero p avail m e a up pos g =
          let fits = ranked.bounded avail a (allowed-IsUsable t avail up.2) in omega arith
      room_replaced (suc n) p avail m e a up pos (inl (inl (q, k, f, inl z))) =
          let twin = OneEach-unique qs p q one m k (e ∙ sym f) in
          let none_left : (container_of p).score ≡ 0 =
            rw (container_of-score p, ← score_of-tag p, twin) z in
          absurd (omega arith)
      room_replaced (suc n) p avail m e a up pos (inl (inl (q, k, f, inr refused))) =
          let twin = OneEach-unique qs p q one m k (e ∙ sym f) in
          let no =
            All-Elem (λ tag. is_acceptable goarch t true (container_of q) tag ≡ false)
              (lookup_or t.image [] available) avail refused a in
          let yes = IsUpgrade-acceptable t (container_of p) avail up in absurd (cc)
      room_replaced (suc n) p avail m e a up pos (inl (inr (gone, _))) =
          absurd (All-Elem (λ (q : Placed). q.1.id ≢ t.id) qs p gone m e)
      room_replaced (suc n) p avail m e a up pos (inr (q, k, f, there, usable, room)) =
          let twin = OneEach-unique qs p q one m k (e ∙ sym f) in
          let scored : (container_of p).score ≡ container_version_score goarch t (tag_of p) =
            container_of-score p
            ∙ ap (λ u. container_version_score goarch u (tag_of p)) (same p m e) in
          let (le, ne, _) = up in
          let usable_avail = allowed-IsUsable t avail up.2 in
          let old : container_version_score goarch t (tag_of q)
              ≡ container_version_score goarch t (tag_of p) =
            ap (λ x. container_version_score goarch t (tag_of x)) (sym twin) in
          elim (Bool-cases (
            container_version_score goarch t avail
            == container_version_score goarch t (tag_of q))) [
              | inl tie ↦
                  let twins : avail ≡ tag_of q =
                    ranked.apart avail (tag_of q) a there usable_avail usable (ground arith) in
                  absurd (ne (twins ∙ ap tag_of (sym twin) ∙ sym (container_of-tag p)))
              | inr differ ↦ ground arith
            ]

      -- So does a target without a container that gets one.
      room_created :
          (n : ℕ) (avail : Bytes)
          → All (λ (q : Placed). q.1.id ≢ t.id) qs
          → Elem avail (lookup_or t.image [] available)
          → IsUsable t avail
          → Progress n t qs
          → container_version_score goarch t avail + n ≤ bound
      room_created zero avail gone a usable g =
          let fits = ranked.bounded avail a usable in omega arith
      room_created (suc n) avail gone a usable (inl (inl (q, k, f, _))) =
          absurd (All-Elem (λ (q : Placed). q.1.id ≢ t.id) qs q gone k f)
      room_created (suc n) avail gone a usable (inl (inr (_, refused))) =
          let no =
            All-Elem (λ tag. is_acceptable goarch t false zero_container tag ≡ false)
              (lookup_or t.image [] available) avail refused a in
          absurd (cc)
      room_created (suc n) avail gone a usable (inr (q, k, f, _, _, _)) =
          absurd (All-Elem (λ (q : Placed). q.1.id ≢ t.id) qs q gone k f)

      -- A pass takes every target one step on.
      pub Progress-step :
          (n : ℕ) (rs : List Placed) {before after : Option RunningContainer}
          → ((p : Placed) → Elem p rs → p.1.id ≡ t.id → p.1 ≡ t)
          → Change goarch available t before after
          → StandsFor goarch before t qs
          → IsShown after t rs
          → Progress n t qs
          → Progress (suc n) t rs
      unfolding candidate
      Progress-step n rs same' (Change.kept rc settled) (q, k, f, stands) (p, m, e, tagged) g =
          let alike : rc.image_tag ≡ (container_of p).image_tag =
            sym tagged ∙ sym (container_of-tag p) in
          let scored : rc.score ≡ (container_of p).score =
            ap (λ c. c.score) (sym stands)
            ∙ container_of-score q
            ∙ ap (λ u. container_version_score goarch u (tag_of q)) (same q k f)
            ∙ ap (container_version_score goarch t)
                (sym (container_of-tag q) ∙ ap (λ c. c.image_tag) stands ∙ sym tagged)
            ∙ ap (λ u. container_version_score goarch u (tag_of p)) (sym (same' p m e))
            ∙ sym (container_of-score p) in
          inl (
            inl (
              p,
              m,
              e,
              elim settled [
                | inl z ↦ inl (score_of-tag p ∙ sym (container_of-score p) ∙ sym scored ∙ z)
                | inr refused ↦ inr (
                    AllRefused-same t rc (container_of p) (lookup_or t.image [] available) alike
                      scored refused)
              ],
            ))
      Progress-step n rs same' (Change.replaced rc avail a up pos) (q, k, f, stands)
            (p, m, e, tagged) g =
          let moved = room_replaced n q avail k f a (rw stands up) (rw stands pos) g in
          inr (p, m, e, rw tagged a, rw tagged (allowed-IsUsable t avail up.2), rw tagged moved)
      Progress-step n rs same' (Change.left_out refused) gone shown g = inl (inr (shown, refused))
      Progress-step n rs same' (Change.created avail a usable) gone (p, m, e, tagged) g =
          let moved = room_created n avail gone a usable g in
          inr (p, m, e, rw tagged a, rw tagged usable, rw tagged moved)
