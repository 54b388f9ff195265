-- ===== src/ImageSync/Solved.antt =====
-- When an image leaves the image worker with nothing to do later.
-- About pkg/imagesync/worker.go.
use deviced.Base.{
  ℕ, zero, suc, ◌+◌, List, [], ◌∷◌, some, true, false, Bytes, ◌≡◌, ◌↔◌, ◌≤◌, ◌∙◌, refl, ap, arith,
  Bool-cases, Option-cases, inl, inr,
}
use deviced.Base.Assoc.{lookup_or}
use deviced.Config.Repository.{RemoteRepository}
use deviced.Docker.{Daemon}
use deviced.ImageSync.State.{ImageToFetch, Progress}
use deviced.ImageSync.Pull.{retag, pull_from, pull_tag, pull_tags, is_unsolved, pull_image}

module _ (d : Daemon) (tf : ImageToFetch) where
  le-pull_tags :
      (k : ℕ) (tags : List Bytes) (p : Progress) (j : ℕ)
      → (pull_tags d tf k tags p).0 ≡ some j
      → k ≤ j
  unfolding pull_tags
  le-pull_tags k [] p j h = cc
  le-pull_tags k (tag ∷ tags) p j h =
      let p' = (pull_tag d (lookup_or tag [] tf.available_at) tf.target.image tag p).1 in
      ground (arith, le-pull_tags (k + 1) tags p' j)

  first_pulled :
      (tags : List Bytes) (p : Progress)
      → is_unsolved (pull_tags d tf 0 tags p).0 ≡ false
      → (tag : Bytes) × (rest : List Bytes) × (tags ≡ tag ∷ rest)
        × ((pull_tag d (lookup_or tag [] tf.available_at) tf.target.image tag p).0 ≡ true)
  unfolding pull_tags is_unsolved
  first_pulled [] p h = cc
  first_pulled (tag ∷ tags) p h =
      let (matched, p') = pull_tag d (lookup_or tag [] tf.available_at) tf.target.image tag p in
      elim (Bool-cases matched) [
        | inl m ↦ (tag, tags, refl, m)
        | inr n ↦ absurd (later p' (rw n at h))
      ]
    where
      later : (q : Progress) → is_unsolved (pull_tags d tf 1 tags q).0 ≡ false → ⊥
      later q e = elim (Option-cases (pull_tags d tf 1 tags q).0) [
        | inl o ↦ absurd (cc (ap is_unsolved o))
        | inr (zero, o) ↦ absurd (omega (arith, le-pull_tags 1 tags q zero o))
        | inr (suc j, o) ↦ absurd (cc (ap is_unsolved o))
      ]

  pull_tags_first :
      (tag : Bytes) (rest : List Bytes) (p : Progress)
      → (pull_tag d (lookup_or tag [] tf.available_at) tf.target.image tag p).0 ≡ true
      → pull_tags d tf 0 (tag ∷ rest) p
        ≡ (some zero, (pull_tag d (lookup_or tag [] tf.available_at) tf.target.image tag p).1)
  unfolding pull_tags
  pull_tags_first tag rest p m = rw m

module _ (d : Daemon) (image : Bytes) where
  -- Pulling leaves the flag alone.
  pull_from-flag :
      (reg : RemoteRepository) (tag : Bytes) (p : Progress)
      → (pull_from d reg image tag p).1.unsolved_reqs ≡ p.unsolved_reqs
  unfolding pull_from retag
  pull_from-flag reg tag p = ground arith

  pull_tag-flag :
      (regs : List RemoteRepository) (tag : Bytes) (p : Progress)
      → (pull_tag d regs image tag p).1.unsolved_reqs ≡ p.unsolved_reqs
  unfolding pull_tag
  pull_tag-flag [] tag p = refl
  pull_tag-flag (reg ∷ regs) tag p =
      let p' = (pull_from d reg image tag p).1 in
      ground (arith, pull_from-flag reg tag p, pull_tag-flag regs tag p')

module _ (d : Daemon) (tf : ImageToFetch) where
  -- An image leaves the worker with nothing unsolved exactly if its first needed tag, which is the
  -- best, was pulled from one of the repositories that have it: a pull of any other tag, or none,
  -- makes the worker check again later.
  pub pull_image_solved :
      (p : Progress)
      → p.unsolved_reqs ≡ false
      → ((pull_image d tf p).unsolved_reqs ≡ false) ↔ (
          (tag : Bytes) × (rest : List Bytes) × (tf.needed_tags ≡ tag ∷ rest)
          × ((pull_tag d (lookup_or tag [] tf.available_at) tf.target.image tag p).0 ≡ true))
  unfolding pull_image is_unsolved pull_tags
  pull_image_solved p clean = (
    λ h. first_pulled d tf tf.needed_tags p (ground arith),
    λ (tag, rest, e, m).
        rw (e, pull_tags_first d tf tag rest p m, is_unsolved)
          (pull_tag-flag d tf.target.image (lookup_or tag [] tf.available_at) tag p ∙ clean),
  )
