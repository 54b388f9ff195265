-- ===== src/ImageSync/Pulls.antt =====
-- What the image worker pulls.
-- About pkg/imagesync/worker.go.
use deviced.Base.{
  ℕ, ◌+◌, List, [], ◌∷◌, Bytes, is_empty, join, ◌≡◌, refl, Bool-cases, inl, inr, All, Any,
}
use deviced.Base.Assoc.{lookup_or}
use deviced.Config.Repository.{RemoteRepository}
use deviced.Docker.{Call, History, Daemon}
use deviced.ImageSync.State.{ImageToFetch, Progress}
use deviced.ImageSync.Pull.{
  image_with_prefix, pull_call, retag, pull_from, pull_tag, pull_tags, pull_image,
}

-- The request pulls `image` at one of the tags from a repository that has this tag.
abbrev pub IsWantedPull : ImageToFetch → List Bytes → Call → Type 0
IsWantedPull tf tags call =
    Any
      (λ tag.
        Any (λ reg. call ≡ pull_call reg tf.target.image tag) (lookup_or tag [] tf.available_at))
      tags

-- No request for which this fails is a pull.
abbrev pub IsPull : Call → Type 0
IsPull (Call.image_pull r a) = Unit
IsPull Call.network_list = ⊥
IsPull (Call.network_create n c) = ⊥
IsPull (Call.network_inspect n) = ⊥
IsPull Call.container_list = ⊥
IsPull Call.image_list = ⊥
IsPull (Call.exec_create c a) = ⊥
IsPull (Call.exec_attach n) = ⊥
IsPull (Call.container_stop c) = ⊥
IsPull (Call.container_remove c) = ⊥
IsPull (Call.container_create c) = ⊥
IsPull (Call.container_start c) = ⊥
IsPull (Call.image_tag s t) = ⊥
IsPull (Call.registry_connect u e i) = ⊥
IsPull (Call.registry_tags u i) = ⊥
IsPull Call.wake_containers = ⊥

-- The requests of `h'` are those of `h` and later ones, of which every pull satisfies `W`.
pub data Extends (W : Call → Type 0) (h : History) : History → Type 0 where
  same : Extends W h h
  pull : {h' : History} (c : Call) → W c → Extends W h h' → Extends W h (c ∷ h')
  other : {h' : History} (c : Call) → ¬ IsPull c → Extends W h h' → Extends W h (c ∷ h')

pub Extends-trans :
    {W : Call → Type 0} {h h' h'' : History} → Extends W h h' → Extends W h' h'' → Extends W h h''
Extends-trans e same = e
Extends-trans e (pull c w f) = pull c w (Extends-trans e f)
Extends-trans e (other c n f) = other c n (Extends-trans e f)

module _ (d : Daemon) (W : Call → Type 0) (image : Bytes) where
  pull_from-Extends :
      (reg : RemoteRepository) (tag : Bytes) (p : Progress)
      → W (pull_call reg image tag)
      → Extends W p.history (pull_from d reg image tag p).1.history
  unfolding pull_from retag
  pull_from-Extends reg tag p w =
      let name = join b':' (image_with_prefix reg image ∷ tag ∷ []) in
      let goal = join b':' (image ∷ tag ∷ []) in
      let h' = pull_call reg image tag ∷ p.history in
      elim (Bool-cases (d.on_image_pull p.history name)) [
        | inr n ↦ rw n (pull _ w same)
        | inl y ↦ elim (Bool-cases (is_empty reg.pull_prefix)) [
          | inl e ↦ rw (y, e) (pull _ w same)
          | inr e ↦ elim (Bool-cases (d.on_image_tag h' name goal)) [
            | inl t ↦ rw (y, e, t) (other _ (λ b. b) (pull _ w same))
            | inr t ↦ rw (y, e, t) (other _ (λ b. b) (pull _ w same))
          ]
        ]
      ]

  pull_tag-Extends :
      (regs : List RemoteRepository) (tag : Bytes) (p : Progress)
      → All (λ reg. W (pull_call reg image tag)) regs
      → Extends W p.history (pull_tag d regs image tag p).1.history
  unfolding pull_tag
  pull_tag-Extends [] tag p w = same
  pull_tag-Extends (reg ∷ regs) tag p (w, ws) =
      let first = pull_from-Extends reg tag p w in
      let rest = pull_tag-Extends regs tag (pull_from d reg image tag p).1 ws in
      elim (Bool-cases (pull_from d reg image tag p).0) [
        | inl m ↦ rw m first
        | inr n ↦ rw n (Extends-trans first rest)
      ]

module _ (d : Daemon) (W : Call → Type 0) (tf : ImageToFetch) where
  pull_tags-Extends :
      (idx : ℕ) (tags : List Bytes) (p : Progress)
      → All
          (λ tag.
            All (λ reg. W (pull_call reg tf.target.image tag)) (lookup_or tag [] tf.available_at))
          tags
      → Extends W p.history (pull_tags d tf idx tags p).1.history
  unfolding pull_tags
  pull_tags-Extends idx [] p w = same
  pull_tags-Extends idx (tag ∷ tags) p (w, ws) =
      let regs = lookup_or tag [] tf.available_at in
      let first = pull_tag-Extends d W tf.target.image regs tag p w in
      let rest = pull_tags-Extends (idx + 1) tags (pull_tag d regs tf.target.image tag p).1 ws in
      elim (Bool-cases (pull_tag d regs tf.target.image tag p).0) [
        | inl m ↦ rw m first
        | inr n ↦ rw n (Extends-trans first rest)
      ]

  -- Every needed tag at every repository that has it makes a wanted pull.
  All-wanted :
      (tags : List Bytes)
      → ((c : Call) → IsWantedPull tf tags c → W c)
      → All
          (λ tag.
            All (λ reg. W (pull_call reg tf.target.image tag)) (lookup_or tag [] tf.available_at))
          tags
  All-wanted [] h = tt
  All-wanted (tag ∷ tags) h = (
    each (lookup_or tag [] tf.available_at) (λ c a. h c (inl a)),
    All-wanted tags (λ c a. h c (inr a)),
  )
    where
      each :
          (regs : List RemoteRepository)
          → ((c : Call) → Any (λ reg. c ≡ pull_call reg tf.target.image tag) regs → W c)
          → All (λ reg. W (pull_call reg tf.target.image tag)) regs
      each [] g = tt
      each (reg ∷ regs) g = (g _ (inl refl), each regs (λ c a. g c (inr a)))

module _ (d : Daemon) (tf : ImageToFetch) where
  -- Serving one image adds requests, of which every pull is of a needed tag of this image, from a
  -- repository that listed the tag, with the repository's prefix and credentials.
  pub pull_image-Extends :
      (p : Progress)
      → Extends (IsWantedPull tf tf.needed_tags) p.history (pull_image d tf p).history
  unfolding pull_image
  pull_image-Extends p =
      pull_tags-Extends d (IsWantedPull tf tf.needed_tags) tf 0 tf.needed_tags p
        (All-wanted d (IsWantedPull tf tf.needed_tags) tf tf.needed_tags (λ c a. a))
