-- ===== src/ImageSync/Accepted.antt =====
-- What is pulled where Docker accepts every pull.
-- About pkg/imagesync/worker.go.
use deviced.Base.{
  ℕ, ◌+◌, List, [], ◌∷◌, ◌++◌, true, false, Bytes, is_empty, join, ◌≡◌, refl, ap, Elem, Bool-cases,
  inl, inr, ◌⊎◌,
}
use deviced.Base.Assoc.{lookup_or}
use deviced.Config.Repository.{RemoteRepository}
use deviced.Docker.{Call, History, Daemon}
use deviced.Docker.Made.{
  IsLater, IsLater-cons, IsMadeBetween, IsMadeBetween-later, IsMadeBetween-earlier,
}
use deviced.ImageSync.State.{ImageToFetch, Progress}
use deviced.ImageSync.Pull.{
  image_with_prefix, pull_call, retag, pull_from, pull_tag, pull_tags, pull_image, pull_images,
}
use deviced.ImageSync.Pulls.{Extends, same, pull, other, pull_image-Extends}

-- Between the histories the tag was pulled, or one that stands before it in the list.
abbrev pub PulledUpTo : Bytes → List Bytes → Bytes → History → History → Type 0
PulledUpTo image tags tag h h' =
    (u : Bytes) × (reg : RemoteRepository) × (xs : List Bytes) × (ys : List Bytes) × (tags
      ≡ xs ++ (u ∷ ys))
    × Elem tag (u ∷ ys)
    × IsMadeBetween (pull_call reg image u) h h'

-- Some repository has the tag.
abbrev pub IsOffered : ImageToFetch → Bytes → Type 0
IsOffered tf tag =
    (reg : RemoteRepository) × (rest : List RemoteRepository) × (lookup_or tag [] tf.available_at
      ≡ reg ∷ rest)

Extends-IsLater : {W : Call → Type 0} {h h' : History} → Extends W h h' → IsLater h h'
Extends-IsLater same = ([], refl)
Extends-IsLater (pull c w more) = IsLater-cons _ _ c (Extends-IsLater more)
Extends-IsLater (other c n more) = IsLater-cons _ _ c (Extends-IsLater more)

module _ {W : Call → Type 0} {h0 h h' : History} (image : Bytes) (tags : List Bytes)
    (tag : Bytes) where
  pub PulledUpTo-later :
      Extends W h h' → PulledUpTo image tags tag h0 h → PulledUpTo image tags tag h0 h'
  PulledUpTo-later more (u, reg, xs, ys, e, m, there) = (
    u,
    reg,
    xs,
    ys,
    e,
    m,
    IsMadeBetween-later (pull_call reg image u) h0 h h' (Extends-IsLater more) there,
  )

  pub PulledUpTo-earlier :
      Extends W h0 h → PulledUpTo image tags tag h h' → PulledUpTo image tags tag h0 h'
  PulledUpTo-earlier more (u, reg, xs, ys, e, m, there) = (
    u,
    reg,
    xs,
    ys,
    e,
    m,
    IsMadeBetween-earlier (pull_call reg image u) h0 h h' (Extends-IsLater more) there,
  )

module _ (d : Daemon) (pulls : (h : History) (name : Bytes) → d.on_image_pull h name ≡ true)
    (retags : (h : History) (source goal : Bytes) → d.on_image_tag h source goal ≡ true) where
  pull_from_accepted :
      (reg : RemoteRepository) (image tag : Bytes) (p : Progress)
      → let after = pull_from d reg image tag p in
        (after.0 ≡ true) × IsMadeBetween (pull_call reg image tag) p.history after.1.history
  unfolding pull_from retag
  pull_from_accepted reg image tag p =
      let name = join b':' (image_with_prefix reg image ∷ tag ∷ []) in
      let goal = join b':' (image ∷ tag ∷ []) in
      let h' = pull_call reg image tag ∷ p.history in
      elim (Bool-cases (is_empty reg.pull_prefix)) [
        | inl e ↦
            rw (pulls p.history name, e) (refl, (pull_call reg image tag ∷ [], refl, inl refl))
        | inr e ↦
            rw (pulls p.history name, e, retags h' name goal)
              (
                refl,
                (Call.image_tag name goal ∷ pull_call reg image tag ∷ [], refl, inr (inl refl)),
              )
      ]

  pull_tag_cases :
      (regs : List RemoteRepository) (image tag : Bytes) (p : Progress)
      → let after = pull_tag d regs image tag p in
        ((regs ≡ []) × (after ≡ (false, p)))
        ⊎ ((after.0 ≡ true)
            × ((reg : RemoteRepository) × IsMadeBetween
                  (pull_call reg image tag)
                  p.history
                  after.1.history))
  unfolding pull_tag
  pull_tag_cases [] image tag p = inl (refl, refl)
  pull_tag_cases (reg ∷ regs) image tag p =
      let (yes_pulled, there) = pull_from_accepted reg image tag p in
      inr (rw yes_pulled (refl, (reg, there)))

  pull_tags_accepted :
      (tf : ImageToFetch) (tag : Bytes) (idx : ℕ) (tags : List Bytes) (p : Progress)
      → IsOffered tf tag
      → Elem tag tags
      → PulledUpTo tf.target.image tags tag p.history (pull_tags d tf idx tags p).1.history
  unfolding pull_tags
  pull_tags_accepted tf tag idx [] p o m = elim m [ ]
  pull_tags_accepted tf tag idx (t ∷ ts) p (reg, rest, at) m =
      let regs = lookup_or t [] tf.available_at in
      elim (pull_tag_cases regs tf.target.image t p) [
        | inr (matched, (g, there)) ↦ rw matched (t, g, [], ts, refl, m, there)
        | inl (nobody, unmatched) ↦ elim m [
          | inl e ↦ let same_regs = ap (λ k. lookup_or k [] tf.available_at) e in absurd (cc)
          | inr later ↦
              let (u, g, xs, ys, split, stands, there) =
                pull_tags_accepted tf tag (idx + 1) ts p (reg, rest, at) later in
              rw unmatched (u, g, t ∷ xs, ys, ap (λ l. t ∷ l) split, stands, there)
        ]
      ]

  pull_image_accepted :
      (tf : ImageToFetch) (tag : Bytes) (p : Progress)
      → IsOffered tf tag
      → Elem tag tf.needed_tags
      → PulledUpTo tf.target.image tf.needed_tags tag p.history (pull_image d tf p).history
  unfolding pull_image
  pull_image_accepted tf tag p o m = pull_tags_accepted tf tag 0 tf.needed_tags p o m

  pull_images_later :
      (image : Bytes) (tags : List Bytes) (tag : Bytes) (tfs : List ImageToFetch) (h0 : History)
      (p : Progress)
      → PulledUpTo image tags tag h0 p.history
      → PulledUpTo image tags tag h0 (pull_images d tfs p).history
  unfolding pull_images
  pull_images_later image tags tag [] h0 p h = h
  pull_images_later image tags tag (tf ∷ tfs) h0 p h =
      pull_images_later image tags tag tfs h0 (pull_image d tf p)
        (PulledUpTo-later image tags tag (pull_image-Extends d tf p) h)

  -- Of an image with an offered tag this tag is pulled, or a better one.
  pub pull_images_accepted :
      (tf : ImageToFetch) (tag : Bytes) (tfs : List ImageToFetch) (p : Progress)
      → IsOffered tf tag
      → Elem tag tf.needed_tags
      → Elem tf tfs
      → PulledUpTo tf.target.image tf.needed_tags tag p.history (pull_images d tfs p).history
  unfolding pull_images
  pull_images_accepted tf tag [] p o m there = elim there [ ]
  pull_images_accepted tf tag (x ∷ tfs) p o m (inl e) =
      pull_images_later tf.target.image tf.needed_tags tag tfs p.history (pull_image d x p)
        (rw e (pull_image_accepted tf tag p o m))
  pull_images_accepted tf tag (x ∷ tfs) p o m (inr there) =
      PulledUpTo-earlier tf.target.image tf.needed_tags tag (pull_image-Extends d x p)
        (pull_images_accepted tf tag tfs (pull_image d x p) o m there)
