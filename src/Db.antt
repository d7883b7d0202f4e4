-- ===== src/Db.antt =====
-- src/endless_library/db: the repositories over the SQLite tables.
pub mod Books
pub mod Mirrors
pub mod BenchJobs
pub mod Events
pub mod Candidates
pub mod Sources
pub mod Tests
