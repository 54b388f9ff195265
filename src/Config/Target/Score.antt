-- ===== src/Config/Target/Score.antt =====
-- What `ContainerVersionScore` says of a version.
-- About pkg/config/container.go.
use deviced.Base.{
  ℕ, zero, suc, ◌+◌, ◌≤◌, List, [], ◌∷◌, some, true, false, Bytes, equal_fold, ◌≡◌, refl, ◌⊎◌, inl,
  inr, arith, All, get_elem?, take, Bool-cases, equal_fold_refl,
}
use native.Mathlib.Nat.{zero-add}
use deviced.Arch.{append_arch_tag_suffix}
use deviced.Config.Target.{TargetContainer, max_uint16, version_index, container_version_score}

-- The version differs from `v`, case aside.
abbrev pub Differs : Bytes → Bytes → Type 0
Differs v ver = equal_fold ver v ≡ false

-- Index `i` holds the first of `vers` that equals `v`, case aside.
abbrev pub FirstAt : Bytes → List Bytes → ℕ → Type 0
FirstAt v vers i =
    (ver : Bytes) × (get_elem? vers i ≡ some ver)
    × (equal_fold ver v ≡ true)
    × All (Differs v) (take i vers)

version_index_cases :
    (v : Bytes) (vers : List Bytes) (k : ℕ)
    → ((i : ℕ) × (version_index v vers k ≡ k + i) × FirstAt v vers i)
      ⊎ ((version_index v vers k ≡ max_uint16) × All (Differs v) vers)
unfolding version_index
version_index_cases v [] k = inr (refl, tt)
version_index_cases v (ver ∷ vers) k = elim (Bool-cases (equal_fold ver v)) [
  | inl e ↦ inl (0, rw e (omega arith), (ver, refl, e, tt))
  | inr e ↦ elim (version_index_cases v vers (k + 1)) [
    | inl (i, q, (w, at, same, before)) ↦
        inl (suc i, rw (e, q) (omega arith), (w, at, same, (e, before)))
    | inr (q, none_of) ↦ inr (rw e q, (e, none_of))
  ]
]

-- The score of a version is the index of the first configured version, with the architecture's
-- suffix, that equals it case aside; and 65535 if no configured version equals it.
pub container_version_score_first :
    (goarch : Bytes) (tc : TargetContainer) (v : Bytes)
    → let vers = append_arch_tag_suffix goarch tc.versions in
      let s = container_version_score goarch tc v in
      FirstAt v vers s ⊎ ((s ≡ max_uint16) × All (Differs v) vers)
unfolding container_version_score
container_version_score_first goarch tc v =
    elim (version_index_cases v (append_arch_tag_suffix goarch tc.versions) 0) [
      | inl (i, q, first) ↦ inl (rw (q, zero-add) first)
      | inr r ↦ inr r
    ]

version_index-le :
    (v : Bytes) (vers : List Bytes) (k i : ℕ) {ver : Bytes}
    → get_elem? vers i ≡ some ver
    → equal_fold ver v ≡ true
    → version_index v vers k ≤ k + i
unfolding version_index
version_index-le v [] k i h e = cc
version_index-le v (w ∷ vers) k zero h e = ground arith
version_index-le v (w ∷ vers) k (suc i) h e = ground (arith, version_index-le v vers (k + 1) i h e)

-- A version is scored no higher than any index at which it is configured.
pub container_version_score-le :
    (goarch : Bytes) (tc : TargetContainer) (i : ℕ) {ver : Bytes}
    → get_elem? (append_arch_tag_suffix goarch tc.versions) i ≡ some ver
    → container_version_score goarch tc ver ≤ i
unfolding container_version_score
container_version_score-le goarch tc i {ver} h = omega (
  arith,
  version_index-le ver (append_arch_tag_suffix goarch tc.versions) 0 i h (equal_fold_refl ver),
)
