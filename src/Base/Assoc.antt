-- ===== src/Base/Assoc.antt =====
-- Go maps with string keys, as association lists with one entry for each key. The order of the
-- entries is the order in which the keys came in; what iterates over a map may not rely on it.
use mathlib.Core.Path.{◌≡◌, refl}
use mathlib.Core.Logic.{◌⊎◌, inl, inr}
use mathlib.Core.Logic.{inl, inr}
use mathlib.Core.Bool.{false}
use mathlib.Core.List.{List, [], ◌∷◌}
use mathlib.Core.Option.{Option, none, some}
use native.Mathlib.Omega.{arith}
use deviced.Base.Tests.{if◌then◌else◌, Bool-cases}
use deviced.Base.Lists.{All}
use deviced.Base.Text.{Bytes, beq, beq_iff, beq_refl, beq→eq}

-- The value, or the zero value `d` in its place.
abbrev pub get_or {ℓ} : {V : Type ℓ} → Option V → V → V
get_or none d = d
get_or (some v) d = v

module _ {ℓ} {V : Type ℓ} where
  unfoldable pub lookup : Bytes → List (Bytes × V) → Option V
  lookup k [] = none
  lookup k ((j, v) ∷ m) = if beq j k then some v else lookup k m

  -- `m[k]` for a map whose values have the zero value `d`.
  unfoldable pub lookup_or : Bytes → V → List (Bytes × V) → V
  lookup_or k d m = get_or (lookup k m) d

  -- `m[k] = v`.
  unfoldable pub insert : Bytes → V → List (Bytes × V) → List (Bytes × V)
  insert k v [] = (k, v) ∷ []
  insert k v ((j, w) ∷ m) = let rest = insert k v m in if beq j k then (k, v) ∷ m else (j, w) ∷ rest

  pub lookup-insert :
      (k j : Bytes) (v : V) (m : List (Bytes × V))
      → lookup j (insert k v m) ≡ (if beq k j then some v else lookup j m)
  unfolding lookup insert
  lookup-insert k j v [] = refl
  lookup-insert k j v ((i, w) ∷ m) =
      ground (arith, beq_iff k j, beq_iff i k, beq_iff i j, lookup-insert k j v m)

  pub lookup-insert_self :
      (k : Bytes) (v : V) (m : List (Bytes × V)) → lookup k (insert k v m) ≡ some v
  lookup-insert_self k v m = rw (lookup-insert, beq_refl k)

  -- A key that is in stays in.
  pub lookup-insert-some :
      (k j : Bytes) (v : V) (m : List (Bytes × V))
      → (w : V) × (lookup j m ≡ some w)
      → (w : V) × (lookup j (insert k v m) ≡ some w)
  lookup-insert-some k j v m (w, h) = elim (Bool-cases (beq k j)) [
    | inl e ↦ (v, rw (lookup-insert, e))
    | inr e ↦ (w, rw (lookup-insert, e) h)
  ]

  -- What an update finds: the new value at its key, and at others what was there.
  pub lookup-insert_cases :
      (k j : Bytes) (v : V) (m : List (Bytes × V)) {w : V}
      → lookup j (insert k v m) ≡ some w
      → ((k ≡ j) × (v ≡ w)) ⊎ ((beq k j ≡ false) × (lookup j m ≡ some w))
  lookup-insert_cases k j v m h = elim (Bool-cases (beq k j)) [
    | inl e ↦ inl (beq→eq k j e, cc (lookup-insert k j v m))
    | inr e ↦ inr (e, rw (lookup-insert, e) at h)
  ]

-- A new entry, or one for the same key.
pub All-insert :
    {V : Type 0} (P : Bytes × V → Type 0) (k : Bytes) (v : V) (m : List (Bytes × V))
    → P (k, v)
    → All P m
    → All P (insert k v m)
unfolding insert
All-insert P k v [] p a = (p, tt)
All-insert P k v ((j, w) ∷ m) p (q, a) = ground (arith, All-insert P k v m p a)
