-- ===== src/Workers.antt =====
-- The two workers and the main loop as threads: pkg/containersync/worker.go (`Run`, `Quit` and the
-- locks of `processOnce`), pkg/imagesync/worker.go (the same) and pkg/daemon/system.go (`Main`,
-- `wakeWorkers`, `closeWorkers`). What a pass does with Docker is left out here: it takes one step.
pub mod State
pub mod Steps
pub mod Exclusion
pub mod Deadlock
pub mod Wakes
pub mod Watches
