-- ===== src/Workers/State.antt =====
-- Where the threads are and what they share.
-- About pkg/containersync/worker.go, pkg/imagesync/worker.go and pkg/daemon/system.go.
use deviced.Base.{Bool, true, false, not, Bytes, codes, beq, ◌||◌, ◌&&◌, if◌then◌else◌}

-- Where the container worker is.
pub data ContainerPc : Type 0 where
  checking : ContainerPc  -- for cw.Running
  draining : ContainerPc  -- the loop that empties the wake channel
  want_config : ContainerPc  -- cw.ConfigLock.Lock()
  want_worker : ContainerPc  -- cw.WorkerLock.Lock()
  working : ContainerPc
  sleeping : ContainerPc  -- the select on the wake channel and on Docker's events
  exited : ContainerPc

-- Where the image worker is.
pub data ImagePc : Type 0 where
  starting : ImagePc  -- for iw.Running, the first time
  checking : ImagePc  -- for iw.Running, after a pass
  arming : ImagePc  -- iw.ConfigLock.Lock() of initRecheckTimer
  selecting : ImagePc  -- the select reads iw.RecheckTimer.C
  want_config : ImagePc
  want_worker : ImagePc
  working : ImagePc
  sending : ImagePc  -- (*iw.WakeContainerChannel) <- true, inside processOnce
  sleeping : ImagePc
  exited : ImagePc
  panicked : ImagePc

-- Where `Main` is.
pub data MainPc : Type 0 where
  waiting : MainPc
  want_config : MainPc  -- s.ConfigLock.Lock()
  reading : MainPc  -- s.Config.ReadFrom
  rechecking : MainPc  -- s.triggerConfRecheck()
  waking_images : MainPc  -- s.ImageWorker.WakeChannel <- true
  waking_containers : MainPc  -- s.ContainerWorker.WakeChannel <- true
  rewatching : MainPc  -- s.initWatchers()
  quitting : MainPc  -- cw.Running = false
  closing : MainPc  -- close(cw.WakeChannel)
  leaving : MainPc  -- Quit of the image worker
  done : MainPc  -- os.Exit(s.Main())
  panicked : MainPc

pub data Owner : Type 0 where
  free : Owner
  containers : Owner
  images : Owner
  main : Owner

-- `iw.RecheckTimer`. A timer that has fired is a stopped one, with a tick in its channel.
pub data Timer : Type 0 where
  absent : Timer
  stopped : Timer
  armed : Timer

-- `s.ConfigWatcher.ConfigWatcher`: one that watches the file, one that watches nothing, or nil.
pub data Watcher : Type 0 where
  watching : Watcher
  idle : Watcher
  missing : Watcher

-- Two threads do this; here it is one step.
abbrev pub kill_recheck_timer : Timer → Timer
kill_recheck_timer timer = Timer.absent

-- `RecheckConfig` of the image worker.
abbrev pub recheck_config : Timer → Timer
recheck_config timer = kill_recheck_timer timer

-- The timer that `initRecheckTimer` leaves, where `never` is whether the configured period is less
-- than 1.
unfoldable pub init_recheck_timer : Bool → Bool → Timer
init_recheck_timer never unsolved = if never || not unsolved then Timer.stopped else Timer.armed

pub record System : Type 0 where
  pub container : ContainerPc
  pub image : ImagePc
  pub main_pc : MainPc
  pub config_lock : Owner
  pub worker_lock : Owner
  pub container_running : Bool
  pub wake_closed : Bool
  pub image_running : Bool
  pub image_wake : Bool  -- the image worker's wake channel, which holds one message
  pub image_quit : Bool  -- its quit channel, which holds one message
  pub unsolved_reqs : Bool
  pub timer : Timer
  pub tick : Bool  -- the channel of the timer has a message
  pub watcher : Watcher

-- The events that end the container worker's sleep.
unfoldable pub is_recheck_event : Bytes → Bool
is_recheck_event type =
    beq type (codes "image") || (beq type (codes "network") || beq type (codes "container"))

-- Both workers start by a check, and no lock is held.
unfoldable pub started : System
started = record {
  container = ContainerPc.checking;
  image = ImagePc.starting;
  main_pc = MainPc.waiting;
  config_lock = Owner.free;
  worker_lock = Owner.free;
  container_running = true;
  wake_closed = false;
  image_running = true;
  image_wake = false;
  image_quit = false;
  unsolved_reqs = false;
  timer = Timer.absent;
  tick = false;
  watcher = Watcher.watching;
}

-- No thread has panicked, and `os.Exit` has not been called.
abbrev pub image_runs : ImagePc → Bool
image_runs ImagePc.panicked = false
image_runs _ = true

abbrev pub main_runs : MainPc → Bool
main_runs MainPc.done = false
main_runs MainPc.panicked = false
main_runs _ = true

abbrev pub is_running : System → Bool
is_running s = image_runs s.image && main_runs s.main_pc
