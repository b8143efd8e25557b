-- ===== src/Jobs.antt =====
-- The job component: the documents of the `jobs` collection and the repository that changes them.
pub mod Update
pub mod Queries
pub mod Collection
pub mod Schema
pub mod Repository
