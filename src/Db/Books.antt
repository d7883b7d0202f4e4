-- ===== src/Db/Books.antt =====
-- src/endless_library/db/books.py: `BookRow` and the methods of `BookRepo`. A table is the list of
-- its rows in rowid order; `now` is the second at which a statement runs (`datetime('now')`).
pub mod Row
pub mod Queue
pub mod Stages
pub mod Upsert
pub mod Ops
pub mod Claims
pub mod Listing
pub mod Sweep
pub mod Resets
pub mod Constraints
