-- ===== src/Examples.antt =====
-- Concrete parameters and tests: in-memory stand-ins for the database and for Redis that meet the
-- laws, and each theorem at an input.
mod MemorySets
mod MemoryJobs
mod MemoryServices
mod MemoryDocuments
mod Listings
mod Peeks
mod Posts
mod Queues
mod Lifecycles
mod Polls
mod Interleavings
mod Executions
mod Elections
mod Clusters
mod Enqueues
mod Recoveries
mod Outboxes
mod Connecting
mod Bindings
mod Requests
mod Startups
