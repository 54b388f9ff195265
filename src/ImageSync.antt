-- ===== src/ImageSync.antt =====
-- pkg/imagesync/worker.go: the worker that pulls the images that the configuration asks for.
pub mod State
pub mod Needed
pub mod Query
pub mod Connections
pub mod Fetches
pub mod RepoPulls
pub mod PassPulls
pub mod Total
pub mod Accepted
pub mod Tracked
pub mod Rounds
pub mod Offered
pub mod Pull
pub mod Pass
pub mod Better
pub mod Pulls
pub mod Solved
pub mod Satisfied
pub mod Endpoints
