-- ===== src/Workers/Watches.antt =====
-- The watcher of the configuration file, which `Main` makes anew after each event.
-- About pkg/daemon and pkg/config/watcher.go.
use deviced.Base.{◌≡◌, ◌⊎◌}
use deviced.Workers.Steps
use deviced.Workers.State.{MainPc, Watcher, System}
use deviced.Workers.Steps.{Receives}

-- `Main` is in its loop or at its end, and its watcher watches nothing.
pub record IsDeaf (s : System) : Type 0 where
  pub in_loop :
      (s.main_pc ≡ MainPc.waiting)
      ⊎ ((s.main_pc ≡ MainPc.quitting)
          ⊎ ((s.main_pc ≡ MainPc.closing)
              ⊎ ((s.main_pc ≡ MainPc.leaving) ⊎ (s.main_pc ≡ MainPc.done))))
  pub unwatched : s.watcher ≡ Watcher.idle
