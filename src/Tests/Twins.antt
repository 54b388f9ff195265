-- ===== src/Tests/Twins.antt =====
-- A target without versions that takes any, and two local tags of its image.
use deviced.Base.{
  ◌≤◌, List, [], ◌∷◌, some, true, Bytes, codes, Elem, ◌≡◌, ◌≢◌, refl, arith, inl, inr,
}
use deviced.Base.Assoc.{lookup_or, lookup}
use deviced.Arch.{append_arch_tag_suffix, get_arch_tag_suffix, append_suffix}
use deviced.Config.Target.{TargetContainer, container_version_score, version_index}
use deviced.ContainerSync.State.{RunningContainer, empty_plan}
use deviced.ContainerSync.Choose.{decide_running}
use deviced.ContainerSync.Selection.{replacement}
use deviced.ContainerSync.Flapping.{HasTwins, twins_never_settle}
use deviced.Tests.Fixtures.{amd64, app, old_app}

abbrev any_app : TargetContainer
any_app = record app { versions = []; use_any_version = true }

abbrev two_tags : List (Bytes × List Bytes)
two_tags = (codes "shop/app", codes "v1" ∷ codes "v2" ∷ []) ∷ []

any_app-HasTwins : HasTwins amd64 any_app two_tags 65535 (codes "v1") (codes "v2")
unfolding lookup_or lookup container_version_score append_arch_tag_suffix version_index
    get_arch_tag_suffix append_suffix
any_app-HasTwins = record {
  apart = λ e. ground arith;
  first_there = inl refl;
  second_there = inr (inl refl);
  first_score = refl;
  second_score = refl;
  best = (omega arith, (omega arith, tt));
  positive = omega arith;
  allowed = inl refl;
}

abbrev running_any : RunningContainer
running_any = record {
  deviced_id = codes "app";
  image = codes "shop/app";
  image_tag = codes "v1";
  score = 65535;
  api_container = some old_app;
}

twins_never_settle_example :
    (avail : Bytes) × Elem avail (lookup_or any_app.image [] two_tags)
    × (avail ≢ codes "v1")
    × (65535 ≤ container_version_score amd64 any_app avail)
    × (decide_running amd64 (λ n. 7) two_tags any_app running_any empty_plan
        ≡ some (replacement amd64 (λ n. 7) any_app empty_plan old_app avail))
twins_never_settle_example =
    twins_never_settle amd64 any_app two_tags (λ n. 7) 65535 (codes "v1") (codes "v2") running_any
      old_app empty_plan any_app-HasTwins (omega arith) refl
