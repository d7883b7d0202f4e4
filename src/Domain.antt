-- ===== src/Domain.antt =====
-- src/endless_library/domain: the status machine of a book, the auto-pick decision and the
-- choice of a delivery format.
pub mod Status
pub mod StateMachine
pub mod AutoPick
pub mod FormatRouter
pub mod Script
pub mod Tests
pub mod Scoring
