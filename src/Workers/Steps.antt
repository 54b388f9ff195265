-- ===== src/Workers/Steps.antt =====
-- What each thread does next.
-- About pkg/containersync/worker.go, pkg/imagesync/worker.go and pkg/daemon/system.go.
use deviced.Base.{Bool, true, false, ◌≡◌, ◌≢◌, ◌⊎◌, Bytes}
use deviced.Workers.State.{
  ContainerPc, ImagePc, MainPc, Owner, Timer, Watcher, kill_recheck_timer, recheck_config,
  init_recheck_timer, System, is_recheck_event, is_running,
}

-- The container worker can take a message from its wake channel: the channel has no buffer, so a
-- sender waits for this.
pub data Receives : ContainerPc → ContainerPc → Type 0 where
  in_drain : Receives ContainerPc.draining ContainerPc.draining
  in_sleep : Receives ContainerPc.sleeping ContainerPc.checking
  -- The wait after a failed listing of the containers.
  in_pass : Receives ContainerPc.working ContainerPc.working

-- The steps of the threads, while the program runs.
pub data Step (s : System) : System → Type 0 where
  -- The container worker.
  container_checks :
      s.container ≡ ContainerPc.checking
      → s.container_running ≡ true
      → Step s (record s { container = ContainerPc.draining })
  container_stops :
      s.container ≡ ContainerPc.checking
      → s.container_running ≡ false
      → Step s (record s { container = ContainerPc.exited })
  -- A closed channel always has a message.
  container_spins : s.container ≡ ContainerPc.draining → s.wake_closed ≡ true → Step s s
  -- The select takes its default only if no thread waits to send.
  container_drained :
      s.container ≡ ContainerPc.draining
      → s.wake_closed ≡ false
      → s.image ≢ ImagePc.sending
      → s.main_pc ≢ MainPc.waking_containers
      → Step s (record s { container = ContainerPc.want_config })
  container_locks_config :
      s.container ≡ ContainerPc.want_config
      → s.config_lock ≡ Owner.free
      → Step s (record s { container = ContainerPc.want_worker; config_lock = Owner.containers })
  container_locks_worker :
      s.container ≡ ContainerPc.want_worker
      → s.worker_lock ≡ Owner.free
      → Step s (record s { container = ContainerPc.working; worker_lock = Owner.containers })
  container_passes :
      s.container ≡ ContainerPc.working
      → Step s (record s {
        container = ContainerPc.sleeping;
        config_lock = Owner.free;
        worker_lock = Owner.free;
      })
  container_event :
      (type : Bytes)
      → s.container ≡ ContainerPc.sleeping
      → is_recheck_event type ≡ true
      → Step s (record s { container = ContainerPc.checking })
  container_ignores :
      (type : Bytes) → s.container ≡ ContainerPc.sleeping → is_recheck_event type ≡ false → Step s s
  container_closed :
      s.container ≡ ContainerPc.sleeping
      → s.wake_closed ≡ true
      → Step s (record s { container = ContainerPc.exited })
  -- The image worker.
  image_starts :
      s.image ≡ ImagePc.starting
      → s.image_running ≡ true
      → Step s (record s {
        image = ImagePc.want_config;
        unsolved_reqs = false;
        timer = kill_recheck_timer s.timer;
      })
  image_checks :
      s.image ≡ ImagePc.checking
      → s.image_running ≡ true
      → Step s (record s { image = ImagePc.arming; timer = kill_recheck_timer s.timer })
  image_stops :
      (s.image ≡ ImagePc.starting) ⊎ (s.image ≡ ImagePc.checking)
      → s.image_running ≡ false
      → Step s (record s { image = ImagePc.exited })
  -- `initRecheckTimer` has the lock only while it reads the configuration.
  image_arms :
      (never : Bool)
      → s.image ≡ ImagePc.arming
      → s.config_lock ≡ Owner.free
      → Step s (record s {
        image = ImagePc.selecting;
        timer = init_recheck_timer never s.unsolved_reqs;
        tick = false;
      })
  -- The select reads the timer before it waits; the channel is this timer's from then on.
  image_selects :
      s.image ≡ ImagePc.selecting
      → s.timer ≢ Timer.absent
      → Step s (record s { image = ImagePc.sleeping })
  image_reads_nil :
      s.image ≡ ImagePc.selecting
      → s.timer ≡ Timer.absent
      → Step s (record s { image = ImagePc.panicked })
  timer_ticks : s.timer ≡ Timer.armed → Step s (record s { timer = Timer.stopped; tick = true })
  image_locks_config :
      s.image ≡ ImagePc.want_config
      → s.config_lock ≡ Owner.free
      → Step s (record s { image = ImagePc.want_worker; config_lock = Owner.images })
  image_locks_worker :
      s.image ≡ ImagePc.want_worker
      → s.worker_lock ≡ Owner.free
      → Step s (record s { image = ImagePc.working; worker_lock = Owner.images })
  image_triggers : s.image ≡ ImagePc.working → Step s (record s { image = ImagePc.sending })
  image_sends :
      {c : ContainerPc}
      → s.image ≡ ImagePc.sending
      → Receives s.container c
      → s.wake_closed ≡ false
      → Step s (record s { image = ImagePc.working; container = c })
  image_panics :
      s.image ≡ ImagePc.sending
      → s.wake_closed ≡ true
      → Step s (record s { image = ImagePc.panicked })
  image_passes :
      (unsolved : Bool)
      → s.image ≡ ImagePc.working
      → Step s (record s {
        image = ImagePc.checking;
        unsolved_reqs = unsolved;
        config_lock = Owner.free;
        worker_lock = Owner.free;
      })
  -- `processOnce` stops the timer and forgets what was unsolved before it takes a lock.
  image_timer :
      s.image ≡ ImagePc.sleeping
      → s.tick ≡ true
      → Step s (record s {
        image = ImagePc.want_config;
        unsolved_reqs = false;
        timer = kill_recheck_timer s.timer;
        tick = false;
      })
  image_woken :
      s.image ≡ ImagePc.sleeping
      → s.image_wake ≡ true
      → Step s (record s {
        image = ImagePc.want_config;
        image_wake = false;
        unsolved_reqs = false;
        timer = kill_recheck_timer s.timer;
      })
  image_flushes :
      s.image ≡ ImagePc.working → s.image_wake ≡ true → Step s (record s { image_wake = false })
  image_quits :
      s.image ≡ ImagePc.sleeping
      → s.image_quit ≡ true
      → Step s (record s { image = ImagePc.exited; image_quit = false })
  -- `Main`.
  main_event :
      s.main_pc ≡ MainPc.waiting
      → s.watcher ≡ Watcher.watching
      → Step s (record s { main_pc = MainPc.want_config })
  main_locks :
      s.main_pc ≡ MainPc.want_config
      → s.config_lock ≡ Owner.free
      → Step s (record s { main_pc = MainPc.reading; config_lock = Owner.main })
  main_fails :
      s.main_pc ≡ MainPc.reading
      → Step s (record s { main_pc = MainPc.rewatching; config_lock = Owner.free })
  main_reads :
      s.main_pc ≡ MainPc.reading
      → Step s (record s { main_pc = MainPc.rechecking; config_lock = Owner.free })
  main_rechecks :
      s.main_pc ≡ MainPc.rechecking
      → Step s (record s { main_pc = MainPc.waking_images; timer = recheck_config s.timer })
  main_wakes_images :
      s.main_pc ≡ MainPc.waking_images
      → s.image_wake ≡ false
      → Step s (record s { main_pc = MainPc.waking_containers; image_wake = true })
  main_wakes_containers :
      {c : ContainerPc}
      → s.main_pc ≡ MainPc.waking_containers
      → Receives s.container c
      → s.wake_closed ≡ false
      → Step s (record s { main_pc = MainPc.rewatching; container = c })
  -- The result of `initWatchers` is dropped: no watcher may have been made, or it may have no path.
  main_watches :
      (w : Watcher)
      → s.main_pc ≡ MainPc.rewatching
      → Step s (record s { main_pc = MainPc.waiting; watcher = w })
  -- The select reads the channel of a watcher that is nil.
  main_panics :
      s.main_pc ≡ MainPc.waiting
      → s.watcher ≡ Watcher.missing
      → Step s (record s { main_pc = MainPc.panicked })
  main_signal :
      s.main_pc ≡ MainPc.waiting
      → s.watcher ≢ Watcher.missing
      → Step s (record s { main_pc = MainPc.quitting })
  main_quits :
      s.main_pc ≡ MainPc.quitting
      → Step s (record s { main_pc = MainPc.closing; container_running = false })
  main_closes :
      s.main_pc ≡ MainPc.closing
      → Step s (record s { main_pc = MainPc.leaving; wake_closed = true })
  -- `Quit` of the image worker never waits. Then `Main` returns, which ends the program.
  main_leaves :
      s.main_pc ≡ MainPc.leaving
      → Step s (record s { main_pc = MainPc.done; image_running = false; image_quit = true })

-- A panic and `os.Exit` end the program: no thread makes a step after them.
pub data Reach (s : System) : System → Type 0 where
  here : Reach s s
  next : {t u : System} → Reach s t → is_running t ≡ true → Step t u → Reach s u
