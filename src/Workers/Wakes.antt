-- ===== src/Workers/Wakes.antt =====
-- The recheck timer, which two threads stop.
-- About pkg/imagesync and pkg/daemon.
use deviced.Base.{true, false, ◌≡◌, ◌⊎◌, refl, arith, Bool-cases, inl, inr}
use deviced.Workers.Steps
use deviced.Workers.State.{ImagePc, MainPc, Timer, System, started, is_running}
use deviced.Workers.Steps.{Receives, in_drain, in_sleep, in_pass, Step, Reach, here, next}

-- The image worker does not sleep on a timer that was stopped for good, unless it is going to be woken.
pub record IsAlert (s : System) : Type 0 where
  pub alert :
      s.image ≡ ImagePc.sleeping
      → s.timer ≡ Timer.absent
      → (s.main_pc ≡ MainPc.waking_images) ⊎ (s.image_wake ≡ true)

started-IsAlert : IsAlert started
unfolding started
started-IsAlert = ground arith

Step-IsAlert : {s t : System} → Step s t → IsAlert s → IsAlert t
Step-IsAlert (Steps.container_checks a b) h = ground arith
Step-IsAlert (Steps.container_stops a b) h = ground arith
Step-IsAlert (Steps.container_spins a b) h = ground arith
Step-IsAlert (Steps.container_drained a b c d) h = ground arith
Step-IsAlert (Steps.container_locks_config a b) h = ground arith
Step-IsAlert (Steps.container_locks_worker a b) h = ground arith
Step-IsAlert (Steps.container_passes a) h = ground arith
Step-IsAlert (Steps.container_event a b c) h = ground arith
Step-IsAlert (Steps.container_ignores a b c) h = ground arith
Step-IsAlert (Steps.container_closed a b) h = ground arith
Step-IsAlert (Steps.image_starts a b) h = ground arith
Step-IsAlert (Steps.image_checks a b) h = ground arith
Step-IsAlert (Steps.image_stops a b) h = ground arith
Step-IsAlert (Steps.image_arms n a b) h = ground arith
Step-IsAlert (Steps.image_selects a b) h = ground arith
Step-IsAlert (Steps.image_reads_nil a b) h = ground arith
Step-IsAlert (Steps.timer_ticks a) h = ground arith
Step-IsAlert (Steps.image_locks_config a b) h = ground arith
Step-IsAlert (Steps.image_locks_worker a b) h = ground arith
Step-IsAlert (Steps.image_triggers a) h = ground arith
Step-IsAlert (Steps.image_sends a in_drain b) h = ground arith
Step-IsAlert (Steps.image_sends a in_sleep b) h = ground arith
Step-IsAlert (Steps.image_sends a in_pass b) h = ground arith
Step-IsAlert (Steps.image_panics a b) h = ground arith
Step-IsAlert (Steps.image_passes n a) h = ground arith
Step-IsAlert (Steps.image_timer a b) h = ground arith
Step-IsAlert (Steps.image_woken a b) h = ground arith
Step-IsAlert (Steps.image_flushes a b) h = ground arith
Step-IsAlert (Steps.image_quits a b) h = ground arith
Step-IsAlert (Steps.main_event a b) h = ground arith
Step-IsAlert (Steps.main_locks a b) h = ground arith
Step-IsAlert (Steps.main_fails a) h = ground arith
Step-IsAlert (Steps.main_reads a) h = ground arith
Step-IsAlert (Steps.main_rechecks a) h = ground arith
Step-IsAlert (Steps.main_wakes_images a b) h = ground arith
Step-IsAlert (Steps.main_wakes_containers a in_drain b) h = ground arith
Step-IsAlert (Steps.main_wakes_containers a in_sleep b) h = ground arith
Step-IsAlert (Steps.main_wakes_containers a in_pass b) h = ground arith
Step-IsAlert (Steps.main_watches w a) h = ground arith
Step-IsAlert (Steps.main_panics a b) h = ground arith
Step-IsAlert (Steps.main_signal a b) h = ground arith
Step-IsAlert (Steps.main_quits a) h = ground arith
Step-IsAlert (Steps.main_closes a) h = ground arith
Step-IsAlert (Steps.main_leaves a) h = ground arith

Reach-IsAlert : {s t : System} → Reach s t → IsAlert s → IsAlert t
Reach-IsAlert here h = h
Reach-IsAlert (next r running st) h = Step-IsAlert st (Reach-IsAlert r h)

-- In every state that the threads can reach, while the program runs, an image worker that sleeps while
-- its timer was stopped for good by `Main` can be woken in one step, or in two, so that it makes its
-- next pass.
pub stopped_timer_wakes :
    {t : System}
    → Reach started t
    → is_running t ≡ true
    → t.image ≡ ImagePc.sleeping
    → t.timer ≡ Timer.absent
    → (v : System) × (u : System) × ((v ≡ t) ⊎ Step t v)
      × (is_running v ≡ true)
      × Step v u
      × (u.image ≡ ImagePc.want_config)
stopped_timer_wakes {t} r running asleep gone = elim (Bool-cases t.image_wake) [
  | inl wake ↦ (t, _, inl refl, running, Steps.image_woken asleep wake, refl)
  | inr none_yet ↦ elim ((Reach-IsAlert r started-IsAlert).alert asleep gone) [
    | inr wake ↦ absurd (cc)
    | inl waking ↦ (
      record t { main_pc = MainPc.waking_containers; image_wake = true },
      _,
      inr (Steps.main_wakes_images waking none_yet),
      rw asleep refl,
      Steps.image_woken asleep refl,
      refl,
    )
  ]
]

-- From the start the threads can reach a state in which the image worker has read a timer that is nil:
-- `Main` takes the timer away between the worker's setting it and its waiting on it. The wake channel
-- is open in this state.
pub nil_timer_reachable :
    (t : System) × Reach started t × (t.image ≡ ImagePc.panicked) × (t.wake_closed ≡ false)
unfolding started
nil_timer_reachable = (
  _,
  next
      (next
        (next
          (next
            (next
              (next
                (next
                  (next
                    (next
                      (next (next here refl (Steps.image_starts refl refl)) refl
                        (Steps.image_locks_config refl refl))
                      refl (Steps.image_locks_worker refl refl))
                    refl (Steps.image_passes true refl))
                  refl (Steps.image_checks refl refl))
                refl (Steps.main_event refl refl))
              refl (Steps.main_locks refl refl))
            refl (Steps.main_reads refl))
          refl (Steps.image_arms false refl refl))
        refl (Steps.main_rechecks refl))
      refl (Steps.image_reads_nil refl refl),
  refl,
  refl,
)
