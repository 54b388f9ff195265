-- ===== src/ImageSync/Pull.antt =====
-- pkg/imagesync/worker.go: the pulls after a registry has been queried.
use deviced.Base.{
  ℕ, zero, suc, ◌+◌, List, [], ◌∷◌, Option, none, some, Bool, true, false, ◌||◌, Bytes, is_empty,
  join, if◌then◌else◌,
}
use deviced.Base.Assoc.{lookup_or}
use deviced.Config.Repository.{RemoteRepository, auth_of}
use deviced.Docker.{Call, Daemon}
use deviced.ImageSync.State.{ImageToFetch, Progress}

-- `imageWithPrefix`.
unfoldable pub image_with_prefix : RemoteRepository → Bytes → Bytes
image_with_prefix reg image =
    if is_empty reg.pull_prefix then image else join b'/' (reg.pull_prefix ∷ image ∷ [])

unfoldable pub pull_call : RemoteRepository → Bytes → Bytes → Call
pull_call reg image tag =
    Call.image_pull (join b':' (image_with_prefix reg image ∷ tag ∷ [])) (auth_of reg)

-- `!matchedOne || !matchedBest`
unfoldable pub is_unsolved : Option ℕ → Bool
is_unsolved none = true
is_unsolved (some zero) = false
is_unsolved (some (suc idx)) = true

module _ (d : Daemon) where
  open d use {on_image_pull, on_image_tag}

  -- `ImageTag` from the prefixed name to the target's; only this sets the trigger.
  unfoldable pub retag : RemoteRepository → Bytes → Bytes → Progress → Bool × Progress
  retag reg image tag p =
      let source = join b':' (image_with_prefix reg image ∷ tag ∷ []) in
      let goal = join b':' (image ∷ tag ∷ []) in
      let done = record p { history = Call.image_tag source goal ∷ p.history } in
      if on_image_tag p.history source goal
      then (true, record done { trigger = true })
      else (false, done)

  -- The body of the loop over the repositories of a tag: whether it ends in `break`.
  unfoldable pub pull_from : RemoteRepository → Bytes → Bytes → Progress → Bool × Progress
  pull_from reg image tag p =
      let pulled = record p { history = pull_call reg image tag ∷ p.history } in
      if on_image_pull p.history (join b':' (image_with_prefix reg image ∷ tag ∷ []))
      then (if is_empty reg.pull_prefix then (true, pulled) else retag reg image tag pulled)
      else (false, pulled)

  unfoldable pub pull_tag : List RemoteRepository → Bytes → Bytes → Progress → Bool × Progress
  pull_tag [] image tag p = (false, p)
  pull_tag (reg ∷ regs) image tag p =
      let (matched, p') = pull_from reg image tag p in
      let later = pull_tag regs image tag p' in if matched then (true, p') else later

  -- The loop over the needed tags: the index of the tag that was pulled.
  unfoldable pub pull_tags : ImageToFetch → ℕ → List Bytes → Progress → Option ℕ × Progress
  pull_tags tf idx [] p = (none, p)
  pull_tags tf idx (tag ∷ tags) p =
      let (matched, p') = pull_tag (lookup_or tag [] tf.available_at) tf.target.image tag p in
      let later = pull_tags tf (idx + 1) tags p' in if matched then (some idx, p') else later

  unfoldable pub pull_image : ImageToFetch → Progress → Progress
  pull_image tf p =
      let (matched, p') = pull_tags tf 0 tf.needed_tags p in
      record p' { unsolved_reqs = is_unsolved matched || p'.unsolved_reqs }

  unfoldable pub pull_images : List ImageToFetch → Progress → Progress
  pull_images [] p = p
  pull_images (tf ∷ tfs) p = pull_images tfs (pull_image tf p)
