-- ===== src/Tests/Containers.antt =====
-- The container worker on the device of the fixtures.
use deviced.Base.{
  ◌<◌, ◌≤◌, ◌+◌, length, List, [], ◌∷◌, ◌++◌, some, true, false, Bytes, codes, All, Elem, ◌≡◌, ◌⊎◌,
  refl, arith, inl,
}
use deviced.Base.Assoc.{lookup_or}
use deviced.Images.{build_image_map}
use deviced.Arch.{append_arch_tag_suffix}
use deviced.Docker.{ApiContainer, Call}
use deviced.Docker.Made.{IsMadeBetween, AreMadeBetween}
use deviced.Config.Target.{container_version_score, version_index}
use deviced.ContainerSync.State.{Plan, empty_plan}
use deviced.ContainerSync.Match.{build_running_container}
use deviced.ContainerSync.Choose.{
  zero_container, is_acceptable, candidate, select_image, schedule_create, decide_running,
  decide_missing,
}
use deviced.ContainerSync.Execute.{is_own}
use deviced.ContainerSync.Creations.{creations}
use deviced.ContainerSync.Bounds.{process_once-creations}
use deviced.ContainerSync.Pass.{history_of, execute, make_plan, process_once}
use deviced.ContainerSync.SelfDeletion.{Spares, process_once-Spares}
use deviced.ContainerSync.Provenance.{
  HasReason, listed_containers, listed_images, process_once-HasReason,
}
use deviced.ContainerSync.Realized.{Realizes}
use deviced.ContainerSync.Provided.{IsProvided}
use deviced.ContainerSync.Served.{make_plan-Realizes}
use deviced.ContainerSync.Panics.{make_plan_total}
use deviced.ContainerSync.Selection.{
  IsUpgrade, replacement, select_image_last, decide_running_cases, decide_missing_cases,
}
use deviced.ContainerSync.Carried.{execute_deletes}
use deviced.Tests.Fixtures.{
  amd64, app, best_app, old_app, stray, running_old, local_images, env, device,
}

process_once-Spares_example :
    AreMadeBetween (Spares (codes "c3")) [] (history_of (process_once env device []))
process_once-Spares_example = process_once-Spares (codes "c3") env device refl refl []

abbrev listed : List ApiContainer
listed = best_app ∷ old_app ∷ stray ∷ []

make_plan_total_example : (plan : Plan) × (make_plan env device listed local_images ≡ some plan)
make_plan_total_example =
    make_plan_total env device listed local_images (refl, (refl, (refl, tt))) (tt, tt)

decide_running_cases_example :
    ((decide_running amd64 (λ n. 7) (build_image_map local_images) app running_old empty_plan
        ≡ some empty_plan)
      × ((running_old.score ≡ 0)
          ⊎ All
              (λ y. is_acceptable amd64 app true running_old y ≡ false)
              (lookup_or app.image [] (build_image_map local_images))))
    ⊎ ((avail : Bytes) × Elem avail (lookup_or app.image [] (build_image_map local_images))
        × IsUpgrade amd64 app running_old avail
        × (0 < running_old.score)
        × (decide_running amd64 (λ n. 7) (build_image_map local_images) app running_old empty_plan
            ≡ some (replacement amd64 (λ n. 7) app empty_plan old_app avail)))
decide_running_cases_example =
    decide_running_cases amd64 (λ n. 7) app (build_image_map local_images) empty_plan running_old
      old_app refl

decide_missing_cases_example :
    ((decide_missing amd64 (λ n. 7) (build_image_map local_images) app empty_plan ≡ empty_plan)
      × All
          (λ y. is_acceptable amd64 app false zero_container y ≡ false)
          (lookup_or app.image [] (build_image_map local_images)))
    ⊎ ((avail : Bytes) × Elem avail (lookup_or app.image [] (build_image_map local_images))
        × (is_acceptable amd64 app false zero_container avail ≡ true)
        × (decide_missing amd64 (λ n. 7) (build_image_map local_images) app empty_plan
            ≡ schedule_create amd64 (λ n. 7) app (candidate amd64 app avail) empty_plan))
decide_missing_cases_example =
    decide_missing_cases amd64 (λ n. 7) app (build_image_map local_images) empty_plan

-- v3 is better than v2, and is dropped.
select_image_last_example :
    select_image amd64 app false zero_container
      ((codes "v3" ∷ []) ++ (codes "v2" ∷ codes "x" ∷ []))
      zero_container
      false
    ≡ (candidate amd64 app (codes "v2"), true)
select_image_last_example =
    select_image_last amd64 app false zero_container (codes "v3" ∷ []) (codes "x" ∷ []) (codes "v2")
      zero_container false
      (unfold is_acceptable container_version_score append_arch_tag_suffix version_index in refl)
      (
        (unfold is_acceptable container_version_score append_arch_tag_suffix version_index in refl),
        tt,
      )

abbrev deleting : Plan
deleting = record { running = []; to_delete = (codes "c2", []) ∷ []; to_start = []; to_create = [] }

execute_deletes_example :
    IsMadeBetween (Call.container_stop (codes "c2")) [] (execute env device [] deleting [])
    × IsMadeBetween (Call.container_remove (codes "c2")) [] (execute env device [] deleting [])
execute_deletes_example =
    execute_deletes env device [] deleting [] (codes "c2") [] (λ e m. m) (unfold is_own in refl)
      (inl refl)

abbrev keeps_v2 : Plan
keeps_v2 = record {
  running = (codes "app", build_running_container old_app app 2) ∷ [];
  to_delete = [];
  to_start = [];
  to_create = [];
}

process_once-HasReason_example :
    AreMadeBetween
      (HasReason env device (listed_containers env device []) (listed_images env device []))
      []
      (history_of (process_once env device []))
process_once-HasReason_example = process_once-HasReason env device [] (λ m e i. i) (λ m e i. i)

make_plan-Realizes_example :
    (plan : Plan) × (make_plan env device listed local_images ≡ some plan)
    × Realizes amd64 (λ n. 7) listed plan
    × All (IsProvided amd64 (λ n. 7) listed (build_image_map local_images) plan) (app ∷ [])
make_plan-Realizes_example =
    make_plan-Realizes env device listed local_images (refl, (refl, (refl, tt)))
      (((λ e. ground arith), ((λ e. ground arith), tt)), (((λ e. ground arith), tt), (tt, tt)))
      (tt, tt)

process_once-creations_example :
    creations (history_of (process_once env device []))
    ≤ creations [] + length device.networks + length device.containers
process_once-creations_example = process_once-creations env device []
