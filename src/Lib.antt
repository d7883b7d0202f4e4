-- ===== src/Lib.antt =====
-- Verification of biblichor, a library manager that searches books, downloads them and delivers
-- them to a Kindle. The database keeps a table of books that workers claim and move from status
-- to status; the pipeline takes a claimed book through the search, the download, the conversion
-- and the delivery; the Kindle router sends files by Send-to-Kindle sessions, with SMTP as the
-- fallback, and logs events that the two daily quotas count; downloaded archives pass safety
-- rules.
--
-- The code is in src/endless_library. The modules follow its files:
--   - Db models db/*.py, one module per repository: Db.Books (books.py; Queue has the claim,
--     Stages the changes of status, Upsert, Listing and Resets the rest, and Ops all operations
--     as one data type), Db.Candidates, Db.Sources, Db.Mirrors, Db.BenchJobs and Db.Events. A
--     table is a list of rows, and an operation takes the table and the clock and returns its
--     result with the new table.
--   - Domain models domain: StateMachine and AutoPick (state_machine.py), Script and Scoring
--     (scoring.py, over any floats) and FormatRouter (format_router.py).
--   - Kindle models kindle_router.py (Pack, Smtp, Deliver, Batch), kindle_stk/service.py and
--     exceptions.py (Session, Errors), stk_rate.py and smtp_rate.py (Quota). A world of uploads,
--     mails, pauses, events and clock readings is passed on.
--   - Pipeline models pipeline.py: Search, Download, Convert and Deliver have the steps of
--     process_one, Process composes them, Queue has process_queue and Poll poll_sources. Its
--     programs pass the tables, the log and the configuration on and may raise; they call the
--     functions of Db, Domain, Scrapers.Registry and Kindle, as the code does. Refine relates a
--     run to the operations of Db.Books.Ops.
--   - Scrapers models scrapers/registry.py and scrapers/annas_url_cache.py.
--   - Security models security/archive_safety.py (ArchiveSafety) and url_safety.py (Urls).
--   - Download models download.py over any servers and calls assert_safe_url of Security.Urls;
--     Compress models compress.py over any programs.
--   - Storage states the contract of storage/base.py as an interface, which Storage.Hybrid
--     (storage/hybrid.py) refines.
--   - Prelude has what they share: SQL statements over lists, Python's texts, floats as an
--     interface, results.
--
-- The vendored Amazon client, the mail transport, the clocks, the scrapers, Calibre, the file
-- system and the archive readers are parameters: functions from the number of a call, or from the
-- requests sent before, to its answer. Loops are structural recursions. The walk along redirects
-- has the five rounds of the code, and the printing of a decimal has fuel, where the number
-- itself bounds the digits. What reading the secrets, the quota or the size of a file raises and
-- what inserting an event of the router raises are modelled, at every such call of the router,
-- and in the pipeline at every stat(); no other statement on the database fails in the model. The
-- size of a file of the router does not change while it is there. The pool of worker processes
-- with its time limit is not modelled: process_queue is the one of the serial mode, where the
-- runs follow each other, and the claims of several workers are sequences of claims. Not modelled
-- are the web interface, the command line, the scrapers, BookOrbit, the backup, the schema of the
-- configuration, and input and output.
pub mod Prelude
pub mod Domain
pub mod Download
pub mod Compress
pub mod Db
pub mod Security
pub mod Kindle
pub mod Scrapers
pub mod Storage
pub mod Pipeline
