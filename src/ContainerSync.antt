-- ===== src/ContainerSync.antt =====
-- pkg/containersync/worker.go: the worker that makes the containers of the device those of the
-- configuration.
pub mod State
pub mod Match
pub mod Choose
pub mod Networks
pub mod Execute
pub mod Pass
pub mod Allowed
pub mod Requests
pub mod SelfDeletion
pub mod Warrants
pub mod WarrantedPlan
pub mod Provenance
pub mod Realized
pub mod Provided
pub mod Served
pub mod NetworkLaws
pub mod MoreRequests
pub mod Carried
pub mod Starts
pub mod MatchSteps
pub mod Named
pub mod Handled
pub mod Partition
pub mod Panics
pub mod Duplicates
pub mod Selection
pub mod Placed
pub mod Settled
pub mod Quiet
pub mod Changes
pub mod Labels
pub mod Tidy
pub mod TidyPlan
pub mod Shown
pub mod Answers
pub mod Obeyed
pub mod Orderly
pub mod Listing
pub mod Progress
pub mod Best
pub mod Converge
pub mod Rest
pub mod Creations
pub mod Bounds
pub mod Flapping
pub mod Unlisted
pub mod Blind
