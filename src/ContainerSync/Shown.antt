-- ===== src/ContainerSync/Shown.antt =====
-- A list of containers that shows what a plan brings about.
-- About pkg/containersync/worker.go.
use deviced.Base.{
  ℕ, suc, codes, equal_fold_refl, subst, List, [], ◌∷◌, Option, none, some, true, false, Bytes, beq,
  beq→eq, eq→beq, equal_fold, ◌≡◌, ◌≢◌, refl, sym, ◌∙◌, arith, All, All-Elem, Elem, Bool-cases, inl,
  inr, ◌⊎◌,
}
use deviced.Base.Assoc.{lookup, lookup_or}
use deviced.Images.{ImageSummary, parse_image_and_tag}
use deviced.Docker.{ApiContainer, ContainerCreateConfig}
use deviced.Config.Target.{TargetContainer}
use deviced.Config.Document.{DevicedConfig}
use deviced.ContainerSync.State.{RunningContainer, Plan, empty_plan}
use deviced.ContainerSync.Match.{
  build_running_container, matching_target, score_of, deviced_id_label,
}
use deviced.ContainerSync.Pass.{Env, make_plan}
use deviced.ContainerSync.Handled.{DistinctIds, IsScheduled}
use deviced.ContainerSync.Labels.{label_of}
use deviced.ContainerSync.Panics.{DistinctTargets}
use deviced.ContainerSync.Placed.{
  Placed, OneEach, IsPlaced, keep_all, keep_all-lookup_other, Stored, keep_all-Stored,
}
use deviced.ContainerSync.Settled.{lookup-empty_plan}

abbrev pub tag_of : Placed → Bytes
tag_of p = (parse_image_and_tag p.0.image).1

-- The list has the container `rc` for the target, or none.
abbrev pub IsShown : Option RunningContainer → TargetContainer → List Placed → Type 0
IsShown none t ps = All (λ (p : Placed). p.1.id ≢ t.id) ps
IsShown (some rc) t ps = (p : Placed) × Elem p ps × (p.1.id ≡ t.id) × (tag_of p ≡ rc.image_tag)

-- One container of a target stands for it.
abbrev pub StandsFor : Bytes → Option RunningContainer → TargetContainer → List Placed → Type 0
StandsFor goarch none t ps = All (λ (p : Placed). p.1.id ≢ t.id) ps
StandsFor goarch (some rc) t ps =
    (p : Placed) × Elem p ps
    × (p.1.id ≡ t.id)
    × (build_running_container p.0 p.1 (score_of goarch p.0 p.1) ≡ rc)

-- The container was made from the description and has been started.
pub record IsMade (m : ContainerCreateConfig) (c : ApiContainer) : Type 0 where
  pub image : c.image ≡ m.config.image
  pub label : lookup_or deviced_id_label [] c.labels ≡ label_of m
  pub state : c.state ≡ codes "running"

-- After a pass over the containers `cs`, Docker lists `ds`, under different ids: the containers that the
-- plan of the pass does not delete, as they were, and one for each that it creates, with the image
-- and the label asked for, which has been started.
pub record Follows (env : Env) (cfg : DevicedConfig) (images : List ImageSummary)
    (cs ds : List ApiContainer) : Type 0 where
  pub distinct : DistinctIds ds
  pub plan : Plan
  pub planned : make_plan env cfg cs images ≡ some plan
  pub new : ContainerCreateConfig → ApiContainer
  pub spared : All (λ c. IsScheduled plan c ⊎ Elem c ds) cs
  pub made : All (λ m. Elem (new m) ds × IsMade m (new m)) plan.to_create
  pub known :
      All
        (λ d.
          (Elem d cs × (lookup d.id plan.to_delete ≡ none))
          ⊎ ((m : ContainerCreateConfig) × Elem m plan.to_create × (d ≡ new m)))
        ds

-- `n` passes with the same images.
pub data Passes (env : Env) (cfg : DevicedConfig) (images : List ImageSummary)
    (cs : List ApiContainer) : ℕ → List ApiContainer → Type 0 where
  stop : Passes env cfg images cs 0 cs
  again :
      {n : ℕ} {ds es : List ApiContainer}
      → Passes env cfg images cs n ds
      → Follows env cfg images ds es
      → Passes env cfg images cs (suc n) es

-- No two targets have one id, up to upper and lower case.
abbrev pub FoldDistinct : List TargetContainer → Type 0
FoldDistinct [] = Unit
FoldDistinct (t ∷ ts) =
    All (λ (u : TargetContainer). equal_fold t.id u.id ≡ false) ts × FoldDistinct ts

FoldDistinct-ne :
    (t : TargetContainer) (ts : List TargetContainer)
    → All (λ (u : TargetContainer). equal_fold t.id u.id ≡ false) ts
    → All (λ (u : TargetContainer). t.id ≢ u.id) ts
FoldDistinct-ne t [] a = tt
FoldDistinct-ne t (u ∷ ts) (n, a) = (
  (λ e. let y : equal_fold t.id u.id ≡ true = rw (← e) (equal_fold_refl t.id) in absurd (cc)),
  FoldDistinct-ne t ts a,
)

pub FoldDistinct-DistinctTargets :
    (ts : List TargetContainer) → FoldDistinct ts → DistinctTargets ts
FoldDistinct-DistinctTargets [] d = tt
FoldDistinct-DistinctTargets (t ∷ ts) (n, d) =
    (FoldDistinct-ne t ts n, FoldDistinct-DistinctTargets ts d)

-- A label that is a target's id finds this target.
pub matching_target_label :
    (c : ApiContainer) (ts : List TargetContainer) (t : TargetContainer)
    → FoldDistinct ts
    → Elem t ts
    → lookup_or deviced_id_label [] c.labels ≡ t.id
    → matching_target c ts ≡ some t
unfolding matching_target
matching_target_label c [] t d m e = elim m [ ]
matching_target_label c (r ∷ ts) t (n, d) (inl a) e = rw (e, ← a, equal_fold_refl r.id) refl
matching_target_label c (r ∷ ts) t (n, d) (inr m) e =
    let no = All-Elem (λ (u : TargetContainer). equal_fold r.id u.id ≡ false) ts t n m in
    let rest = matching_target_label c ts t d m e in rw (e, no) rest

find_placed :
    (k : Bytes) (ps : List Placed)
    → ((p : Placed) × Elem p ps × (p.1.id ≡ k)) ⊎ All (λ (p : Placed). p.1.id ≢ k) ps
find_placed k [] = inr tt
find_placed k (p ∷ ps) = elim (Bool-cases (beq p.1.id k)) [
  | inl y ↦ inl (p, inl refl, beq→eq p.1.id k y)
  | inr n ↦ elim (find_placed k ps) [
    | inl (q, m, e) ↦ inl (q, inr m, e)
    | inr none_of ↦ inr ((λ e. ground (arith, eq→beq p.1.id k e)), none_of)
  ]
]

-- No two containers of such a list have one target.
pub OneEach-unique :
    (ps : List Placed) (p q : Placed) → OneEach ps → Elem p ps → Elem q ps → p.1.id ≡ q.1.id → p ≡ q
OneEach-unique [] p q d m k e = elim m [ ]
OneEach-unique (r ∷ ps) p q (n, d) (inl a) (inl b) e = sym a ∙ b
OneEach-unique (r ∷ ps) p q (n, d) (inl a) (inr k) e =
    absurd (All-Elem (λ (s : Placed). r.1.id ≢ s.1.id) ps q n k (rw a e))
OneEach-unique (r ∷ ps) p q (n, d) (inr m) (inl b) e =
    absurd (All-Elem (λ (s : Placed). r.1.id ≢ s.1.id) ps p n m (rw b (sym e)))
OneEach-unique (r ∷ ps) p q (n, d) (inr m) (inr k) e = OneEach-unique ps p q d m k e

matching_target-Elem :
    (c : ApiContainer) (ts : List TargetContainer) {mt : TargetContainer}
    → matching_target c ts ≡ some mt
    → Elem mt ts
unfolding matching_target
matching_target-Elem c [] e = absurd (cc e)
matching_target-Elem c (t ∷ ts) e =
    elim (Bool-cases (equal_fold t.id (lookup_or deviced_id_label [] c.labels))) [
      | inl y ↦ let same : some t ≡ some _ = rw y at e in inl (cc same)
      | inr n ↦ inr (matching_target-Elem c ts (rw n at e))
    ]

pub DistinctTargets-unique :
    (ts : List TargetContainer) (t u : TargetContainer)
    → DistinctTargets ts
    → Elem t ts
    → Elem u ts
    → t.id ≡ u.id
    → t ≡ u
DistinctTargets-unique [] t u d m k e = elim m [ ]
DistinctTargets-unique (r ∷ ts) t u (n, d) (inl a) (inl b) e = sym a ∙ b
DistinctTargets-unique (r ∷ ts) t u (n, d) (inl a) (inr k) e =
    absurd (All-Elem (λ (s : TargetContainer). r.id ≢ s.id) ts u n k (rw a e))
DistinctTargets-unique (r ∷ ts) t u (n, d) (inr m) (inl b) e =
    absurd (All-Elem (λ (s : TargetContainer). r.id ≢ s.id) ts t n m (rw b (sym e)))
DistinctTargets-unique (r ∷ ts) t u (n, d) (inr m) (inr k) e = DistinctTargets-unique ts t u d m k e

-- The target of a listed container, from its id.
pub IsPlaced-target :
    (goarch : Bytes) (ts : List TargetContainer) (ps : List Placed) (p : Placed)
    (t : TargetContainer)
    → DistinctTargets ts
    → All (IsPlaced goarch ts) ps
    → Elem p ps
    → Elem t ts
    → p.1.id ≡ t.id
    → p.1 ≡ t
IsPlaced-target goarch ts ps p t d placed m k e =
    let (found, _) = All-Elem (IsPlaced goarch ts) ps p placed m in
    DistinctTargets-unique ts p.1 t d (matching_target-Elem p.0 ts found) k e

module _ (goarch : Bytes) (ts : List TargetContainer) (ps : List Placed) (one : OneEach ps) where
  pub keep_all-StandsFor :
      (t : TargetContainer)
      → StandsFor goarch (lookup t.id (keep_all goarch ts ps empty_plan).running) t ps
  keep_all-StandsFor t = elim (find_placed t.id ps) [
    | inl (p, m, e) ↦
        let stored =
          All-Elem (Stored goarch ts (keep_all goarch ts ps empty_plan)) ps p
            (keep_all-Stored goarch ts ps empty_plan one) m in
        let found : lookup t.id (keep_all goarch ts ps empty_plan).running
            ≡ some (build_running_container p.0 p.1 (score_of goarch p.0 p.1)) =
          subst
            (λ k.
              lookup k (keep_all goarch ts ps empty_plan).running
              ≡ some (build_running_container p.0 p.1 (score_of goarch p.0 p.1)))
            e stored in
        rw found (p, m, e, refl)
    | inr none_of ↦
        rw (keep_all-lookup_other goarch ts t.id ps empty_plan none_of, lookup-empty_plan t.id)
          none_of
  ]
