-- ===== src/Workers/Exclusion.antt =====
-- Who has a lock, and who is in a pass.
-- About pkg/containersync, pkg/imagesync and pkg/daemon.
use deviced.Base.{◌≡◌, ◌≢◌, ◌⊎◌, arith}
use deviced.Workers.State.{ContainerPc, ImagePc, MainPc, Owner, System, started}
use deviced.Workers.Steps.{Receives, in_drain, in_sleep, in_pass, Step, Reach, here, next}
use deviced.Workers.Steps

-- Who has a lock, by where the threads are.
pub record Locked (s : System) : Type 0 where
  pub container_config :
      (s.container ≡ ContainerPc.want_worker) ⊎ (s.container ≡ ContainerPc.working)
      → s.config_lock ≡ Owner.containers
  pub container_worker : s.container ≡ ContainerPc.working → s.worker_lock ≡ Owner.containers
  pub image_config :
      (s.image ≡ ImagePc.want_worker) ⊎ ((s.image ≡ ImagePc.working) ⊎ (s.image ≡ ImagePc.sending))
      → s.config_lock ≡ Owner.images
  pub image_worker :
      (s.image ≡ ImagePc.working) ⊎ (s.image ≡ ImagePc.sending) → s.worker_lock ≡ Owner.images
  pub main_config : s.main_pc ≡ MainPc.reading → s.config_lock ≡ Owner.main

started-Locked : Locked started
unfolding started
started-Locked = ground arith

Step-Locked : {s t : System} → Step s t → Locked s → Locked t
Step-Locked (Steps.container_checks a b) h = ground arith
Step-Locked (Steps.container_stops a b) h = ground arith
Step-Locked (Steps.container_spins a b) h = h
Step-Locked (Steps.container_drained a b c d) h = ground arith
Step-Locked (Steps.container_locks_config a b) h = ground arith
Step-Locked (Steps.container_locks_worker a b) h = ground arith
Step-Locked (Steps.container_passes a) h = ground arith
Step-Locked (Steps.container_event a b c) h = ground arith
Step-Locked (Steps.container_ignores a b c) h = h
Step-Locked (Steps.container_closed a b) h = ground arith
Step-Locked (Steps.image_starts a b) h = ground arith
Step-Locked (Steps.image_checks a b) h = ground arith
Step-Locked (Steps.image_stops a b) h = ground arith
Step-Locked (Steps.image_arms n a b) h = ground arith
Step-Locked (Steps.image_selects a b) h = ground arith
Step-Locked (Steps.image_reads_nil a b) h = ground arith
Step-Locked (Steps.timer_ticks a) h = ground arith
Step-Locked (Steps.image_locks_config a b) h = ground arith
Step-Locked (Steps.image_locks_worker a b) h = ground arith
Step-Locked (Steps.image_triggers a) h = ground arith
Step-Locked (Steps.image_sends a in_drain b) h = ground arith
Step-Locked (Steps.image_sends a in_sleep b) h = ground arith
Step-Locked (Steps.image_sends a in_pass b) h = ground arith
Step-Locked (Steps.image_panics a b) h = ground arith
Step-Locked (Steps.image_passes n a) h = ground arith
Step-Locked (Steps.image_timer a b) h = ground arith
Step-Locked (Steps.image_woken a b) h = ground arith
Step-Locked (Steps.image_flushes a b) h = ground arith
Step-Locked (Steps.image_quits a b) h = ground arith
Step-Locked (Steps.main_event a b) h = ground arith
Step-Locked (Steps.main_locks a b) h = ground arith
Step-Locked (Steps.main_fails a) h = ground arith
Step-Locked (Steps.main_reads a) h = ground arith
Step-Locked (Steps.main_rechecks a) h = ground arith
Step-Locked (Steps.main_wakes_images a b) h = ground arith
Step-Locked (Steps.main_wakes_containers a in_drain b) h = ground arith
Step-Locked (Steps.main_wakes_containers a in_sleep b) h = ground arith
Step-Locked (Steps.main_wakes_containers a in_pass b) h = ground arith
Step-Locked (Steps.main_watches w a) h = ground arith
Step-Locked (Steps.main_panics a b) h = ground arith
Step-Locked (Steps.main_signal a b) h = ground arith
Step-Locked (Steps.main_quits a) h = ground arith
Step-Locked (Steps.main_closes a) h = ground arith
Step-Locked (Steps.main_leaves a) h = ground arith

Reach-Locked : {s t : System} → Reach s t → Locked s → Locked t
Reach-Locked here h = h
Reach-Locked (next r running st) h = Step-Locked st (Reach-Locked r h)

-- In every state that the threads can reach, while the container worker is in a pass the image
-- worker is not, and `Main` reads no configuration while either of them is.
pub mutual_exclusion :
    {t : System}
    → Reach started t
    → (t.container ≡ ContainerPc.working
        → (t.image ≢ ImagePc.working) × (t.image ≢ ImagePc.sending) × (t.main_pc ≢ MainPc.reading))
      × ((t.image ≡ ImagePc.working) ⊎ (t.image ≡ ImagePc.sending) → t.main_pc ≢ MainPc.reading)
mutual_exclusion r =
    let h = Reach-Locked r started-Locked in
    (
      λ c. (
        ground (arith, h.image_config),
        ground (arith, h.image_config),
        ground (arith, h.main_config),
      ),
      λ i. ground (arith, h.main_config),
    )
