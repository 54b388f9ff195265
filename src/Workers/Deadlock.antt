-- ===== src/Workers/Deadlock.antt =====
-- Threads that wait for each other.
-- About pkg/containersync, pkg/imagesync and pkg/daemon.
use deviced.Base.{true, false, ◌≡◌, refl, arith}
use deviced.Workers.Steps
use deviced.Workers.State.{ContainerPc, ImagePc, MainPc, Owner, Timer, Watcher, System, started}
use deviced.Workers.Steps.{Receives, in_drain, in_sleep, in_pass, Step, Reach, here, next}

-- The container worker waits for the configuration's lock, which the image worker has; the image
-- worker, which has no timer, waits for the container worker to take its message; `Main` waits for
-- the lock too.
pub record IsDead (s : System) : Type 0 where
  pub container_waits : s.container ≡ ContainerPc.want_config
  pub image_waits : s.image ≡ ImagePc.sending
  pub main_waits : s.main_pc ≡ MainPc.want_config
  pub image_has_lock : s.config_lock ≡ Owner.images
  pub channel_open : s.wake_closed ≡ false
  pub no_timer : s.timer ≡ Timer.absent

IsDead-no_step : {s t : System} → Step s t → IsDead s → ⊥
IsDead-no_step (Steps.container_checks a b) h = ground arith
IsDead-no_step (Steps.container_stops a b) h = ground arith
IsDead-no_step (Steps.container_spins a b) h = ground arith
IsDead-no_step (Steps.container_drained a b c d) h = ground arith
IsDead-no_step (Steps.container_locks_config a b) h = ground arith
IsDead-no_step (Steps.container_locks_worker a b) h = ground arith
IsDead-no_step (Steps.container_passes a) h = ground arith
IsDead-no_step (Steps.container_event a b c) h = ground arith
IsDead-no_step (Steps.container_ignores a b c) h = ground arith
IsDead-no_step (Steps.container_closed a b) h = ground arith
IsDead-no_step (Steps.image_starts a b) h = ground arith
IsDead-no_step (Steps.image_checks a b) h = ground arith
IsDead-no_step (Steps.image_stops a b) h = ground arith
IsDead-no_step (Steps.image_arms n a b) h = ground arith
IsDead-no_step (Steps.image_selects a b) h = ground arith
IsDead-no_step (Steps.image_reads_nil a b) h = ground arith
IsDead-no_step (Steps.timer_ticks a) h = ground arith
IsDead-no_step (Steps.image_locks_config a b) h = ground arith
IsDead-no_step (Steps.image_locks_worker a b) h = ground arith
IsDead-no_step (Steps.image_triggers a) h = ground arith
IsDead-no_step (Steps.image_sends a in_drain b) h = ground arith
IsDead-no_step (Steps.image_sends a in_sleep b) h = ground arith
IsDead-no_step (Steps.image_sends a in_pass b) h = ground arith
IsDead-no_step (Steps.image_panics a b) h = ground arith
IsDead-no_step (Steps.image_passes n a) h = ground arith
IsDead-no_step (Steps.image_timer a b) h = ground arith
IsDead-no_step (Steps.image_woken a b) h = ground arith
IsDead-no_step (Steps.image_flushes a b) h = ground arith
IsDead-no_step (Steps.image_quits a b) h = ground arith
IsDead-no_step (Steps.main_event a b) h = ground arith
IsDead-no_step (Steps.main_locks a b) h = ground arith
IsDead-no_step (Steps.main_fails a) h = ground arith
IsDead-no_step (Steps.main_reads a) h = ground arith
IsDead-no_step (Steps.main_rechecks a) h = ground arith
IsDead-no_step (Steps.main_wakes_images a b) h = ground arith
IsDead-no_step (Steps.main_wakes_containers a in_drain b) h = ground arith
IsDead-no_step (Steps.main_wakes_containers a in_sleep b) h = ground arith
IsDead-no_step (Steps.main_wakes_containers a in_pass b) h = ground arith
IsDead-no_step (Steps.main_watches w a) h = ground arith
IsDead-no_step (Steps.main_panics a b) h = ground arith
IsDead-no_step (Steps.main_signal a b) h = ground arith
IsDead-no_step (Steps.main_quits a) h = ground arith
IsDead-no_step (Steps.main_closes a) h = ground arith
IsDead-no_step (Steps.main_leaves a) h = ground arith

abbrev dead : System
dead = record {
  container = ContainerPc.want_config;
  image = ImagePc.sending;
  main_pc = MainPc.want_config;
  config_lock = Owner.images;
  worker_lock = Owner.images;
  container_running = true;
  wake_closed = false;
  image_running = true;
  image_wake = false;
  image_quit = false;
  unsolved_reqs = false;
  timer = Timer.absent;
  tick = false;
  watcher = Watcher.watching;
}

-- From the start the threads can reach a state in which no thread can ever make a step: the image
-- worker has both locks and waits to wake the container worker, which waits for a lock, as `Main` does.
pub deadlock_reachable : (t : System) × Reach started t × IsDead t × ((u : System) → ¬ Step t u)
unfolding started
deadlock_reachable = (
  dead,
  next
      (next
        (next
          (next
            (next
              (next (next here refl (Steps.image_starts refl refl)) refl
                (Steps.image_locks_config refl refl))
              refl (Steps.image_locks_worker refl refl))
            refl (Steps.container_checks refl refl))
          refl (Steps.container_drained refl refl (λ e. ground arith) (λ e. ground arith)))
        refl (Steps.image_triggers refl))
      refl (Steps.main_event refl refl),
  record {
    container_waits = refl;
    image_waits = refl;
    main_waits = refl;
    image_has_lock = refl;
    channel_open = refl;
    no_timer = refl;
  },
  λ u st. IsDead-no_step st (record {
    container_waits = refl;
    image_waits = refl;
    main_waits = refl;
    image_has_lock = refl;
    channel_open = refl;
    no_timer = refl;
  }),
)
