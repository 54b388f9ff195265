-- ===== src/Tests/Threads.antt =====
-- The threads of the program.
use deviced.Base.{true, false, ◌≡◌, ◌≢◌, ◌⊎◌, refl, arith}
use deviced.Workers.Steps
use deviced.Workers.State.{
  ContainerPc, ImagePc, MainPc, Owner, Timer, System, init_recheck_timer, started, is_running,
}
use deviced.Workers.Steps.{Step, Reach, here, next}
use deviced.Workers.Exclusion.{mutual_exclusion}
use deviced.Workers.Wakes.{stopped_timer_wakes}

abbrev in_pass : System
in_pass = record started {
  container = ContainerPc.working;
  config_lock = Owner.containers;
  worker_lock = Owner.containers;
}

in_pass-Reach : Reach started in_pass
unfolding started
in_pass-Reach =
    next
      (next
        (next (next here refl (Steps.container_checks refl refl)) refl
          (Steps.container_drained refl refl (λ e. ground arith) (λ e. ground arith)))
        refl (Steps.container_locks_config refl refl))
      refl (Steps.container_locks_worker refl refl)

mutual_exclusion_example :
    (in_pass.container ≡ ContainerPc.working
      → (in_pass.image ≢ ImagePc.working)
        × (in_pass.image ≢ ImagePc.sending)
        × (in_pass.main_pc ≢ MainPc.reading))
    × ((in_pass.image ≡ ImagePc.working) ⊎ (in_pass.image ≡ ImagePc.sending)
        → in_pass.main_pc ≢ MainPc.reading)
mutual_exclusion_example = mutual_exclusion in_pass-Reach

-- The image worker sleeps, and `Main` has just stopped its timer.
abbrev asleep : System
asleep = record started {
  image = ImagePc.sleeping;
  main_pc = MainPc.waking_images;
  unsolved_reqs = true;
  timer = Timer.absent;
}

asleep-Reach : Reach started asleep
unfolding started init_recheck_timer
asleep-Reach =
    next
      (next
        (next
          (next
            (next
              (next
                (next
                  (next
                    (next
                      (next (next here refl (Steps.image_starts refl refl)) refl
                        (Steps.image_locks_config refl refl))
                      refl (Steps.image_locks_worker refl refl))
                    refl (Steps.image_passes true refl))
                  refl (Steps.image_checks refl refl))
                refl (Steps.image_arms false refl refl))
              refl (Steps.image_selects refl (λ e. cc)))
            refl (Steps.main_event refl refl))
          refl (Steps.main_locks refl refl))
        refl (Steps.main_reads refl))
      refl (Steps.main_rechecks refl)

stopped_timer_wakes_example :
    (v : System) × (u : System) × ((v ≡ asleep) ⊎ Step asleep v)
    × (is_running v ≡ true)
    × Step v u
    × (u.image ≡ ImagePc.want_config)
stopped_timer_wakes_example = stopped_timer_wakes asleep-Reach refl refl refl
