-- ===== src/Scrapers.antt =====
-- The order in which src/endless_library/scrapers are tried.
pub mod Registry
pub mod UrlCache
pub mod Tests
