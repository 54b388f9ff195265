-- ===== src/ContainerSync/Labels.antt =====
-- The targets that new containers are for.
-- About pkg/containersync/worker.go.
use deviced.Base.{
  ℕ, List, [], ◌∷◌, ◌++◌, Bytes, ◌≡◌, ◌≢◌, sym, ◌∙◌, All, All-append, All-Elem, Elem, inl, inr,
}
use deviced.Base.Assoc.{lookup_or, lookup-insert_self}
use deviced.Docker.{ContainerCreateConfig}
use deviced.Config.Target.{TargetContainer}
use deviced.ContainerSync.State.{RunningContainer}
use deviced.ContainerSync.Match.{deviced_id_label}
use deviced.ContainerSync.Choose.{create_config}

-- The id of the target that the new container is for.
abbrev pub label_of : ContainerCreateConfig → Bytes
label_of m = lookup_or deviced_id_label [] m.config.labels

-- No two new containers are for one target.
abbrev pub OneLabelEach : List ContainerCreateConfig → Type 0
OneLabelEach [] = Unit
OneLabelEach (m ∷ ms) = All (λ n. label_of m ≢ label_of n) ms × OneLabelEach ms

pub OneLabelEach-append :
    (ms : List ContainerCreateConfig) (m : ContainerCreateConfig)
    → OneLabelEach ms
    → All (λ n. label_of n ≢ label_of m) ms
    → OneLabelEach (ms ++ (m ∷ []))
OneLabelEach-append [] m d a = (tt, tt)
OneLabelEach-append (n ∷ ms) m (apart, d) (ne, a) = (
  All-append (λ o. label_of n ≢ label_of o) ms (m ∷ []) apart (ne, tt),
  OneLabelEach-append ms m d a,
)

pub OneLabelEach-unique :
    (ms : List ContainerCreateConfig) (m n : ContainerCreateConfig)
    → OneLabelEach ms
    → Elem m ms
    → Elem n ms
    → label_of m ≡ label_of n
    → m ≡ n
OneLabelEach-unique [] m n d a b e = elim a [ ]
OneLabelEach-unique (o ∷ ms) m n (x, d) (inl a) (inl b) e = sym a ∙ b
OneLabelEach-unique (o ∷ ms) m n (x, d) (inl a) (inr b) e =
    absurd (All-Elem (λ l. label_of o ≢ label_of l) ms n x b (rw a e))
OneLabelEach-unique (o ∷ ms) m n (x, d) (inr a) (inl b) e =
    absurd (All-Elem (λ l. label_of o ≢ label_of l) ms m x a (rw b (sym e)))
OneLabelEach-unique (o ∷ ms) m n (x, d) (inr a) (inr b) e = OneLabelEach-unique ms m n d a b e

-- The label of a new container is its target's id.
pub create_config-label :
    (goarch : Bytes) (rand : ℕ → ℕ) (t : TargetContainer) (selected : RunningContainer) (n : ℕ)
    → label_of (create_config goarch rand t selected n) ≡ t.id
unfolding create_config lookup_or
create_config-label goarch rand t selected n =
    rw (lookup-insert_self deviced_id_label t.id t.docker_config.labels)
