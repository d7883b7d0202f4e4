-- ===== src/Security.antt =====
-- src/endless_library/security: the hygiene rules for archives.
pub mod ArchiveSafety
pub mod Tests
pub mod Urls
