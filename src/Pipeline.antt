-- ===== src/Pipeline.antt =====
-- src/endless_library/pipeline.py: the search, download, conversion and delivery of one book, the
-- work on the queue, and the polling of the sources.
pub mod Run
pub mod Search
pub mod Download
pub mod Convert
pub mod Deliver
pub mod Process
pub mod Queue
pub mod Poll
pub mod Refine
pub mod Hoare
pub mod Settle
mod Sample
pub mod Tests
