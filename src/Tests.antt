-- ===== src/Tests.antt =====
-- The theorems at concrete inputs, and runs of the model.
mod Zeros
mod Fixtures
mod Basics
mod Containers
mod Calm
mod Rests
mod Twins
mod Agreements
mod Images
mod Connections
mod Threads
mod Registries
mod Pipes
mod Starts
mod Reloads
mod Ids
mod Offers
mod Unlisted
