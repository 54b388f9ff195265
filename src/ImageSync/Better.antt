-- ===== src/ImageSync/Better.antt =====
-- The tags that the image worker asks for, and the local ones.
-- About pkg/imagesync/worker.go.
use deviced.Base.{
  ℕ, zero, suc, ◌≤◌, ◌<◌, List, [], ◌∷◌, some, true, false, Bytes, is_empty, ltb, length, take,
  get_elem?, ◌≡◌, ◌≢◌, ◌⊎◌, refl, sym, ap₂, arith, Bool-cases, inl, inr, All, Elem, All-Elem, subst,
}
use deviced.Arch.{append_arch_tag_suffix}
use deviced.Config.Target.{TargetContainer, container_version_score, max_uint16}
use deviced.Config.Target.Score.{Differs, FirstAt, container_version_score_first}
use deviced.ImageSync.Needed.{best_available, slice_to, tags_to_fetch}

module _ (goarch : Bytes) (ctr : TargetContainer) where
  -- What the loop over the available tags has found: nothing below the bound, or a tag with the score.
  abbrev IsBest : List Bytes → Bytes → ℕ → Bytes × ℕ → Type 0
  IsBest tags best score r =
      All (λ t. r.1 ≤ container_version_score goarch ctr t) tags
      × (r.1 ≤ score)
      × (((r.0 ≡ best) × (r.1 ≡ score))
          ⊎ (Elem r.0 tags × (container_version_score goarch ctr r.0 ≡ r.1) × (r.1 < score)))

  best_available_lower :
      (t : Bytes) (tags : List Bytes) (best : Bytes) (score : ℕ)
      → ltb (container_version_score goarch ctr t) score ≡ true
      → best_available goarch ctr (t ∷ tags) best score
        ≡ best_available goarch ctr tags t (container_version_score goarch ctr t)
  unfolding best_available
  best_available_lower t tags best score l = ap₂ (best_available goarch ctr tags) (rw l) (rw l)

  pub best_available_same :
      (t : Bytes) (tags : List Bytes) (best : Bytes) (score : ℕ)
      → ltb (container_version_score goarch ctr t) score ≡ false
      → best_available goarch ctr (t ∷ tags) best score ≡ best_available goarch ctr tags best score
  unfolding best_available
  best_available_same t tags best score n = ap₂ (best_available goarch ctr tags) (rw n) (rw n)

  best_available-IsBest :
      (tags : List Bytes) (best : Bytes) (score : ℕ)
      → IsBest tags best score (best_available goarch ctr tags best score)
  best_available-IsBest [] best score = unfold best_available in (tt, omega arith, inl (refl, refl))
  best_available-IsBest (t ∷ tags) best score =
      let s = container_version_score goarch ctr t in
      elim (Bool-cases (ltb s score)) [
        | inl l ↦
            let (all, le, how) = best_available-IsBest tags t s in
            subst (IsBest (t ∷ tags) best score) (sym (best_available_lower t tags best score l)) (
              (le, all),
              ground arith,
              inr (elim how [
                | inl (e, q) ↦ (inl (sym e), cc, ground arith)
                | inr (m, q, lt) ↦ (inr m, q, ground arith)
              ]),
            )
        | inr n ↦
            let (all, le, how) = best_available-IsBest tags best score in
            subst (IsBest (t ∷ tags) best score) (sym (best_available_same t tags best score n)) (
              (ground arith, all),
              le,
              elim how [ inl p ↦ inl p | inr (m, q, lt) ↦ inr (inr m, q, lt) ],
            )
      ]

  All-take-le :
      (P : Bytes → Type 0) (n m : ℕ) (vs : List Bytes)
      → n ≤ m
      → All P (take m vs)
      → All P (take n vs)
  All-take-le P zero m vs h a = tt
  All-take-le P (suc n) zero vs h a = absurd (omega arith)
  All-take-le P (suc n) (suc m) [] h a = tt
  All-take-le P (suc n) (suc m) (v ∷ vs) h (p, a) = (p, All-take-le P n m vs (omega arith) a)

  All-take : (P : Bytes → Type 0) (n : ℕ) (vs : List Bytes) → All P vs → All P (take n vs)
  All-take P zero vs a = tt
  All-take P (suc n) [] a = tt
  All-take P (suc n) (v ∷ vs) (p, a) = (p, All-take P n vs a)

  get_elem?-lt : (vs : List Bytes) (i : ℕ) {v : Bytes} → get_elem? vs i ≡ some v → i < length vs
  get_elem?-lt [] i h = cc
  get_elem?-lt (v ∷ vs) zero h = omega arith
  get_elem?-lt (v ∷ vs) (suc i) h = omega (arith, get_elem?-lt vs i h)

  -- A tag whose score is `n` or more equals none of the first `n` versions.
  take-Differs :
      (n : ℕ) (t : Bytes)
      → n ≤ container_version_score goarch ctr t
      → All (Differs t) (take n (append_arch_tag_suffix goarch ctr.versions))
  take-Differs n t le = elim (container_version_score_first goarch ctr t) [
    | inl (v, _, _, before) ↦
        All-take-le (Differs t) n _ (append_arch_tag_suffix goarch ctr.versions) le before
    | inr (_, none_of) ↦ All-take (Differs t) n (append_arch_tag_suffix goarch ctr.versions) none_of
  ]

  All-take-Differs :
      (n : ℕ) (locals : List Bytes)
      → All (λ t. n ≤ container_version_score goarch ctr t) locals
      → All (λ t. All (Differs t) (take n (append_arch_tag_suffix goarch ctr.versions))) locals
  All-take-Differs n [] a = tt
  All-take-Differs n (t ∷ locals) (le, a) = (take-Differs n t le, All-take-Differs n locals a)

  -- The score 65535 means that no version matches, if the target has no more versions than that.
  All-versions-Differs :
      (locals : List Bytes)
      → length (append_arch_tag_suffix goarch ctr.versions) ≤ max_uint16
      → All (λ t. max_uint16 ≤ container_version_score goarch ctr t) locals
      → All (λ t. All (Differs t) (append_arch_tag_suffix goarch ctr.versions)) locals
  All-versions-Differs [] few a = tt
  All-versions-Differs (t ∷ locals) few (le, a) = (
    elim (container_version_score_first goarch ctr t) [
      | inl (v, at, _, _) ↦ absurd (
          omega (
            arith,
            get_elem?-lt (append_arch_tag_suffix goarch ctr.versions)
                (container_version_score goarch ctr t) at,
          ))
      | inr (_, none_of) ↦ none_of
    ],
    All-versions-Differs locals few a,
  )

  version_at :
      (b : Bytes) (s : ℕ)
      → container_version_score goarch ctr b ≡ s
      → s < max_uint16
      → FirstAt b (append_arch_tag_suffix goarch ctr.versions) s
        × (s < length (append_arch_tag_suffix goarch ctr.versions))
  version_at b s e lt = elim (container_version_score_first goarch ctr b) [
    | inl first ↦
        let versions = append_arch_tag_suffix goarch ctr.versions in
        subst (λ i. FirstAt b versions i × (i < length versions)) e
          (first, get_elem?-lt versions (container_version_score goarch ctr b) first.1)
    | inr (q, _) ↦ absurd (omega arith)
  ]

  is_empty-false : (b : Bytes) → b ≢ [] → is_empty b ≡ false
  is_empty-false [] n = absurd (n refl)
  is_empty-false (c ∷ b) n = refl

  leb_false : (a b : ℕ) → b < a → ltb a b ≡ false
  leb_false a b h = ground arith

  -- The worker asks for tags without a slice out of bounds, if the target has 65535 versions at
  -- most and no local tag is empty. What it asks for is the versions in front of the best local tag,
  -- or all of them if no local tag is a version; and no local tag equals one of them, case aside.
  pub tags_to_fetch_better :
      (locals : List Bytes)
      → length (append_arch_tag_suffix goarch ctr.versions) ≤ max_uint16
      → All (λ t. t ≢ []) locals
      → let versions = append_arch_tag_suffix goarch ctr.versions in
        let best = best_available goarch ctr locals [] max_uint16 in
        (tags : List Bytes) × (tags_to_fetch goarch ctr best ≡ some tags)
        × All (λ t. All (Differs t) tags) locals
        × ((tags ≡ versions)
            ⊎ (Elem best.0 locals × FirstAt best.0 versions best.1 × (tags ≡ take best.1 versions)))
  tags_to_fetch_better locals few named =
      let versions = append_arch_tag_suffix goarch ctr.versions in
      let best = best_available goarch ctr locals [] max_uint16 in
      let (all, le, how) = best_available-IsBest locals [] max_uint16 in
      elim how [
        | inl (e, q) ↦ (
          versions,
          unfold tags_to_fetch in rw e,
          All-versions-Differs locals few (rw q at all),
          inl refl,
        )
        | inr (m, q, lt) ↦
            let (at, fits) = version_at best.0 best.1 q lt in
            (
              take best.1 versions,
              unfold tags_to_fetch slice_to in
                  rw (
                    is_empty-false best.0 (All-Elem (λ t. t ≢ []) locals best.0 named m),
                    leb_false (length versions) best.1 fits,
                  ),
              All-take-Differs best.1 locals all,
              inr (m, at, refl),
            )
      ]
