-- ===== src/Tests/Rests.antt =====
-- A device that comes to rest: v1 runs beside a stray container, and v2 is there.
use deviced.Base.{
  Bool, none, true, false, if◌then◌else◌, [], ◌∷◌, some, Bytes, codes, ◌≡◌, refl, sym, ◌∙◌, arith,
  inl, inr, Elem, All, ◌⊎◌,
}
use deviced.Base.Assoc.{lookup_or, lookup, insert}
use deviced.Images.{
  build_image_map, parse_image_and_tag, image_and_tag, add_images, add_repo_tags, add_repo_tag,
}
use deviced.Arch.{append_arch_tag_suffix, append_suffix, get_arch_tag_suffix}
use deviced.Config.Target.{container_version_score, version_index}
use deviced.Docker.{ApiContainer, ContainerCreateConfig, Call, Daemon, History}
use deviced.ContainerSync.State.{Plan, empty_plan}
use deviced.ContainerSync.Match.{
  matching_target, is_dead, build_running_container, score_of, keep_container, discard_container,
  sync_container, sync_containers,
}
use deviced.ContainerSync.Choose.{
  is_acceptable, candidate, create_config, select_image, schedule_create, replace_container,
  settle_running, decide_running, decide_target, decide_targets,
}
use deviced.ContainerSync.Pass.{
  Env, finished, make_plan, process_once, list_and_reconcile, reconcile, execute,
}
use deviced.ContainerSync.Progress.{IsRanked}
use deviced.ContainerSync.Shown.{IsMade}
use deviced.ContainerSync.Best.{HasBest}
use deviced.ContainerSync.Answers.{Answers}
use deviced.ContainerSync.Obeyed.{IsFree}
use deviced.ContainerSync.Rest.{Runs, start, pass, process_once_rests}
use deviced.ContainerSync.Starts.{AreMadeBetween-each}
use deviced.Docker.Made.{IsMadeBetween}
use deviced.ContainerSync.Networks.{process_networks, ensure_networks, ensure_network, add_networks}
use deviced.ContainerSync.Execute.{
  is_own, run_hooks, delete_container, delete_containers, has_network, create_container,
  create_containers, start_containers,
}
use deviced.Tests.Fixtures.{amd64, app, labelled, old_app, stray, bridge, docker, env}
use deviced.Tests.Calm.{old_images, calm_device, bridge-listed}

-- What Docker makes of the description of the target's container with v2.
abbrev new_app : ApiContainer
new_app = labelled (codes "c9") (codes "app") (codes "shop/app:v2")

-- Whether a container was asked for.
abbrev has_created : History → Bool
has_created [] = false
has_created (Call.container_create m ∷ h) = true
has_created (_ ∷ h) = has_created h

abbrev rest_docker : Daemon
rest_docker = record docker {
  on_container_list = λ h. some (if has_created h then new_app ∷ [] else old_app ∷ stray ∷ []);
  on_image_list = λ h. some old_images;
}

abbrev rest_env : Env
rest_env = record env { daemon = rest_docker; reflection = none }

-- The first pass replaces v1 by v2, and deletes the stray container.
abbrev first_plan : Plan
first_plan = record {
  running = (codes "app", candidate amd64 app (codes "v2")) ∷ [];
  to_delete = (codes "c3", []) ∷ (codes "c2", []) ∷ [];
  to_start = [];
  to_create = create_config amd64 (λ n. 7) app (candidate amd64 app (codes "v2")) 0 ∷ [];
}

-- The others keep it.
abbrev later_plan : Plan
later_plan = record {
  running = (codes "app", build_running_container new_app app 1) ∷ [];
  to_delete = [];
  to_start = [];
  to_create = [];
}

first_planned : make_plan rest_env calm_device (old_app ∷ stray ∷ []) old_images ≡ some first_plan
unfolding make_plan sync_containers sync_container matching_target is_dead lookup_or lookup insert
    keep_container discard_container build_running_container score_of container_version_score
    append_arch_tag_suffix version_index parse_image_and_tag image_and_tag get_arch_tag_suffix
    append_suffix empty_plan decide_targets decide_target decide_running settle_running select_image
    is_acceptable candidate replace_container schedule_create build_image_map add_images
    add_repo_tags add_repo_tag
first_planned = refl

later_planned : make_plan rest_env calm_device (new_app ∷ []) old_images ≡ some later_plan
unfolding make_plan sync_containers sync_container matching_target is_dead lookup_or lookup insert
    keep_container discard_container build_running_container score_of container_version_score
    append_arch_tag_suffix version_index parse_image_and_tag image_and_tag get_arch_tag_suffix
    append_suffix empty_plan decide_targets decide_target decide_running settle_running select_image
    is_acceptable candidate replace_container schedule_create build_image_map add_images
    add_repo_tags add_repo_tag
later_planned = refl

new_app-IsMade :
    IsMade (create_config amd64 (λ n. 7) app (candidate amd64 app (codes "v2")) 0) new_app
unfolding create_config candidate lookup_or lookup insert
new_app-IsMade = record { image = refl; label = refl; state = refl }

abbrev new_config : ContainerCreateConfig
new_config = create_config amd64 (λ n. 7) app (candidate amd64 app (codes "v2")) 0

abbrev first_requests : History
first_requests =
    Call.container_start (codes "c9")
    ∷ Call.container_create new_config
    ∷ Call.container_remove (codes "c2")
    ∷ Call.container_stop (codes "c2")
    ∷ Call.container_remove (codes "c3")
    ∷ Call.container_stop (codes "c3")
    ∷ Call.image_list
    ∷ Call.container_list
    ∷ Call.network_list
    ∷ []

abbrev later_requests : History → History
later_requests h = Call.image_list ∷ Call.container_list ∷ Call.network_list ∷ h

networks_listed :
    (h : History) → (process_networks docker calm_device.networks h).1 ≡ Call.network_list ∷ h
unfolding process_networks ensure_networks ensure_network add_networks lookup insert
networks_listed h = refl

first_ended : process_once rest_env calm_device [] ≡ finished first_requests
unfolding process_once list_and_reconcile reconcile process_networks ensure_networks ensure_network
    add_networks lookup insert execute delete_containers delete_container is_own run_hooks
    create_containers create_container has_network start_containers create_config candidate
first_ended = rw (first_planned, reconcile) refl

later_ended :
    (h : History)
    → has_created h ≡ true
    → process_once rest_env calm_device h ≡ finished (later_requests h)
unfolding process_once list_and_reconcile reconcile process_networks ensure_networks ensure_network
    add_networks lookup insert execute delete_containers delete_container create_containers
    start_containers
later_ended h e = rw (e, list_and_reconcile, later_planned, reconcile) refl

-- Of these requests the only one to create a container is for the new one.
abbrev IsNewOnly : Call → Type 0
IsNewOnly (Call.container_create m) = m ≡ new_config
IsNewOnly _ = Unit

abbrev CreatesNone : Call → Type 0
CreatesNone (Call.container_create m) = ⊥
CreatesNone (Call.container_remove c) = ⊥
CreatesNone _ = Unit

first_only :
    (m : ContainerCreateConfig)
    → IsMadeBetween (Call.container_create m) [] first_requests
    → m ≡ new_config
first_only m made =
    AreMadeBetween-each IsNewOnly [] first_requests (Call.container_create m)
      (first_requests, refl, (tt, (refl, (tt, (tt, (tt, (tt, (tt, (tt, (tt, tt)))))))))) made

later_none : (h : History) (c : Call) → IsMadeBetween c h (later_requests h) → CreatesNone c
later_none h c made =
    AreMadeBetween-each CreatesNone h (later_requests h) c
      (Call.image_list ∷ Call.container_list ∷ Call.network_list ∷ [], refl, (tt, (tt, (tt, tt))))
      made

first_Answers :
    Answers rest_env calm_device old_images [] (old_app ∷ stray ∷ []) first_requests (new_app ∷ [])
unfolding process_networks ensure_networks ensure_network add_networks lookup insert
first_Answers = record {
  listed = refl;
  imaged = refl;
  ended = first_ended;
  distinct = (tt, tt);
  left = (
    inl (
      (first_requests, refl, inr (inr (inr (inl refl)))),
      (first_requests, refl, inr (inr (inl refl))),
    ),
    (
      inl (
        (first_requests, refl, inr (inr (inr (inr (inr (inl refl)))))),
        (first_requests, refl, inr (inr (inr (inr (inl refl))))),
      ),
      tt,
    ),
  );
  new = λ m. new_app;
  answered = λ m k from till. refl;
  created = λ m made. rw (first_only m made) (inl refl, new_app-IsMade.image, new_app-IsMade.label);
  running = λ m made started. refl;
  known = (inr (new_config, (first_requests, refl, inr (inl refl)), refl), tt);
}

later_Answers :
    (h : History)
    → has_created h ≡ true
    → Answers rest_env calm_device old_images h (new_app ∷ []) (later_requests h) (new_app ∷ [])
unfolding process_networks ensure_networks ensure_network add_networks lookup insert
later_Answers h e = record {
  listed = rw e refl;
  imaged = refl;
  ended = later_ended h e;
  distinct = (tt, tt);
  left = (inr (inl refl), tt);
  new = λ m. new_app;
  answered = λ m k from till. refl;
  created = λ m made. absurd (later_none h (Call.container_create m) made);
  running = λ m made started. refl;
  known = (inl (inl refl, λ gone. later_none h (Call.container_remove (codes "c9")) gone.1), tt);
}

abbrev last_requests : History
last_requests = later_requests (later_requests (later_requests (later_requests first_requests)))

five-Runs :
    Runs rest_env calm_device old_images [] (old_app ∷ stray ∷ []) 5 last_requests (new_app ∷ [])
five-Runs =
    pass
      (pass
        (pass (pass (pass start first_Answers) (later_Answers first_requests refl))
          (later_Answers _ refl))
        (later_Answers _ refl))
      (later_Answers _ refl)

rest_env-IsFree : IsFree rest_env calm_device
unfolding is_own
rest_env-IsFree = record {
  deletes_only = λ m e i. i;
  deletes_all = λ m e i. i;
  starts_all = λ m e i. i;
  unprotected = λ cid. refl;
  modeless = (refl, tt);
}

two_tags : lookup_or app.image [] (build_image_map old_images) ≡ codes "v1" ∷ codes "v2" ∷ []
unfolding lookup_or lookup insert build_image_map parse_image_and_tag image_and_tag add_images
    add_repo_tags add_repo_tag
two_tags = refl

v1_score : container_version_score amd64 app (codes "v1") ≡ 2
unfolding container_version_score append_arch_tag_suffix version_index get_arch_tag_suffix
    append_suffix
v1_score = refl

v2_score : container_version_score amd64 app (codes "v2") ≡ 1
unfolding container_version_score append_arch_tag_suffix version_index get_arch_tag_suffix
    append_suffix
v2_score = refl

tag_cases :
    (a : Bytes)
    → Elem a (lookup_or app.image [] (build_image_map old_images))
    → (codes "v1" ≡ a) ⊎ (codes "v2" ≡ a)
tag_cases a m = elim (rw two_tags at m) [
  | inl e ↦ inl e
  | inr n ↦ elim n [ inl e ↦ inr e | inr k ↦ absurd k ]
]

app-IsRanked : IsRanked amd64 (build_image_map old_images) 2 app
app-IsRanked = record {
  apart = λ a b ma mb ua ub e. elim (tag_cases a ma) [
    | inl p ↦ elim (tag_cases b mb) [
      | inl q ↦ sym p ∙ q
      | inr q ↦
          let clash : 2 ≡ 1 = sym v1_score ∙ rw (← p, ← q) at e ∙ v2_score in absurd (omega arith)
    ]
    | inr p ↦ elim (tag_cases b mb) [
      | inl q ↦
          let clash : 1 ≡ 2 = sym v2_score ∙ rw (← p, ← q) at e ∙ v1_score in absurd (omega arith)
      | inr q ↦ sym p ∙ q
    ]
  ];
  bounded = λ a ma ua. elim (tag_cases a ma) [
    | inl p ↦ rw (← p, v1_score) (omega arith)
    | inr p ↦ rw (← p, v2_score) (omega arith)
  ];
}

process_once_rests_example :
    (process_once rest_env calm_device last_requests ≡ finished (later_requests last_requests))
    × All (HasBest amd64 (app ∷ []) (build_image_map old_images) (new_app ∷ [])) (app ∷ [])
process_once_rests_example =
    process_once_rests rest_env calm_device old_images rest_env-IsFree (tt, tt) 2 5 []
      (old_app ∷ stray ∷ []) (new_app ∷ []) last_requests (app-IsRanked, tt)
      (((λ e. ground arith), tt), (tt, tt)) five-Runs (omega arith) refl refl refl refl
      (inr (bridge, bridge-listed), tt) refl (refl, tt) refl
