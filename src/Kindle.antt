-- ===== src/Kindle.antt =====
-- Delivery to the Kindle: src/endless_library/kindle_router.py, kindle_stk, stk_rate.py and
-- smtp_rate.py.
pub mod Pack
pub mod Errors
pub mod Session
pub mod Quota
pub mod Smtp
pub mod Deliver
pub mod Batch
pub mod Tests
