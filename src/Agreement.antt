-- ===== src/Agreement.antt =====
-- What the image worker pulls, and what the container worker then runs.
-- About pkg/imagesync/worker.go and pkg/containersync/worker.go.
use deviced.Base.{
  ℕ, zero, suc, ◌≤◌, ◌<◌, List, [], ◌∷◌, some, true, false, Bytes, ltb, length, take, get_elem?,
  ◌≡◌, ◌≢◌, ◌⊎◌, refl, sym, ◌∙◌, ap, arith, Bool-cases, inl, inr, All, Elem, All-Elem, subst,
  beq→eq,
}
use deviced.Base.Assoc.{lookup_or}
use deviced.Arch.{append_arch_tag_suffix}
use deviced.Docker.{ApiContainer}
use deviced.Config.Target.{TargetContainer, container_version_score, max_uint16}
use deviced.Config.Target.Score.{Differs, container_version_score_first, container_version_score-le}
use deviced.ImageSync.Needed.{best_available, tags_to_fetch}
use deviced.ImageSync.Better.{tags_to_fetch_better}
use deviced.ContainerSync.State.{RunningContainer, Plan}
use deviced.ContainerSync.Choose.{score_limit, is_acceptable, decide_running}
use deviced.ContainerSync.Selection.{IsUpgrade, replacement, decide_running_cases}

-- The position of an element of a prefix.
Elem-take :
    (n : ℕ) (vs : List Bytes) (t : Bytes)
    → Elem t (take n vs)
    → (j : ℕ) × (j < n) × (j < length vs) × (get_elem? vs j ≡ some t)
Elem-take zero vs t m = elim m [ ]
Elem-take (suc n) [] t m = elim m [ ]
Elem-take (suc n) (v ∷ vs) t (inl e) = (0, omega arith, omega arith, ap some e)
Elem-take (suc n) (v ∷ vs) t (inr m) =
    let (j, a, b, at) = Elem-take n vs t m in (suc j, omega arith, omega arith, at)

All-take-get :
    (P : Bytes → Type 0) (n i : ℕ) (vs : List Bytes) {v : Bytes}
    → All P (take n vs)
    → i < n
    → get_elem? vs i ≡ some v
    → P v
All-take-get P zero i vs a lt at = absurd (omega arith)
All-take-get P (suc n) i [] a lt at = cc
All-take-get P (suc n) zero (w ∷ vs) {v} (p, a) lt at = let e : w ≡ v = cc in subst P e p
All-take-get P (suc n) (suc i) (w ∷ vs) (p, a) lt at = All-take-get P n i vs a (omega arith) at

take-length : (vs : List Bytes) → take (length vs) vs ≡ vs
take-length [] = refl
take-length (v ∷ vs) = ap (λ ws. v ∷ ws) (take-length vs)

module _ (goarch : Bytes) (ctr : TargetContainer)
    (few : length (append_arch_tag_suffix goarch ctr.versions) ≤ max_uint16) where
  -- A tag among the first `n` versions is scored below each tag that equals none of them.
  take_score-lt :
      (n : ℕ) (cur t : Bytes)
      → All (Differs cur) (take n (append_arch_tag_suffix goarch ctr.versions))
      → Elem t (take n (append_arch_tag_suffix goarch ctr.versions))
      → container_version_score goarch ctr t < container_version_score goarch ctr cur
  take_score-lt n cur t differs m =
      let vs = append_arch_tag_suffix goarch ctr.versions in
      let (j, lt, within, at) = Elem-take n vs t m in
      let low = container_version_score-le goarch ctr j at in
      elim (container_version_score_first goarch ctr cur) [
        | inr (e, _) ↦ ground arith
        | inl (v, found, same, _) ↦
            elim (Bool-cases (ltb j (container_version_score goarch ctr cur))) [
              | inl less ↦ ground arith
              | inr more ↦
                  let differ =
                    All-take-get (Differs cur) n (container_version_score goarch ctr cur) vs differs
                      (ground arith) found in
                  absurd (cc)
            ]
      ]

  -- A tag that the image worker asks for has a better score than every local tag.
  fetched_score-lt :
      (locals tags : List Bytes) (cur t : Bytes)
      → All (λ l. l ≢ []) locals
      → tags_to_fetch goarch ctr (best_available goarch ctr locals [] max_uint16) ≡ some tags
      → Elem t tags
      → Elem cur locals
      → container_version_score goarch ctr t < container_version_score goarch ctr cur
  fetched_score-lt locals tags cur t named asked m here =
      let vs = append_arch_tag_suffix goarch ctr.versions in
      let (found, e, all, how) = tags_to_fetch_better goarch ctr locals few named in
      let same : found ≡ tags = cc in
      let m' : Elem t found = subst (λ ts. Elem t ts) (sym same) m in
      let differs = All-Elem (λ l. All (Differs l) found) locals cur all here in
      elim how [
        | inl q ↦
            let p = q ∙ sym (take-length vs) in
            take_score-lt (length vs) cur t (subst (All (Differs cur)) p differs)
              (subst (λ ts. Elem t ts) p m')
        | inr (_, _, q) ↦
            take_score-lt _ cur t (subst (All (Differs cur)) q differs)
              (subst (λ ts. Elem t ts) q m')
      ]

  is_acceptable-better :
      (cur : RunningContainer) (t : Bytes)
      → cur.score ≡ container_version_score goarch ctr cur.image_tag
      → container_version_score goarch ctr t < container_version_score goarch ctr cur.image_tag
      → (ctr.use_any_version ≡ true) ⊎ (container_version_score goarch ctr t ≤ score_limit)
      → is_acceptable goarch ctr true cur t ≡ true
  unfolding is_acceptable
  is_acceptable-better cur t scored lt allowed =
      let other : t ≢ cur.image_tag =
        λ e. ground (arith, ap (container_version_score goarch ctr) e) in
      ground (arith, beq→eq t cur.image_tag)

  -- What the image worker fetches makes the container worker replace a container. Let the target have
  -- at most 65535 versions and no local tag be empty. If the target's container runs a tag that was
  -- local, then every tag that the image worker asked for has a better score than this tag; and once one of
  -- them that the target may use is available, the container worker replaces the container by one with an
  -- available tag that has a score no worse than the container's and is another tag.
  pub fetched_tag_replaces :
      (rand : ℕ → ℕ) (locals tags : List Bytes) (cur : RunningContainer) (api : ApiContainer)
      (t : Bytes) (available : List (Bytes × List Bytes)) (plan : Plan)
      → All (λ l. l ≢ []) locals
      → tags_to_fetch goarch ctr (best_available goarch ctr locals [] max_uint16) ≡ some tags
      → Elem t tags
      → Elem cur.image_tag locals
      → cur.score ≡ container_version_score goarch ctr cur.image_tag
      → cur.api_container ≡ some api
      → (ctr.use_any_version ≡ true) ⊎ (container_version_score goarch ctr t ≤ score_limit)
      → Elem t (lookup_or ctr.image [] available)
      → (container_version_score goarch ctr t < cur.score)
        × ((avail : Bytes) × Elem avail (lookup_or ctr.image [] available)
            × IsUpgrade goarch ctr cur avail
            × (decide_running goarch rand available ctr cur plan
                ≡ some (replacement goarch rand ctr plan api avail)))
  fetched_tag_replaces rand locals tags cur api t available plan named asked m here scored listed
        allowed there =
      let lt = fetched_score-lt locals tags cur.image_tag t named asked m here in
      let taken = is_acceptable-better cur t scored lt allowed in
      (
        ground arith,
        elim (decide_running_cases goarch rand ctr available plan cur api listed) [
          | inl (_, inl z) ↦ absurd (ground arith)
          | inl (_, inr left) ↦
              let no =
                All-Elem (λ y. is_acceptable goarch ctr true cur y ≡ false)
                  (lookup_or ctr.image [] available) t left there in
              absurd (cc)
          | inr (avail, e, up, _, q) ↦ (avail, e, up, q)
        ],
      )
