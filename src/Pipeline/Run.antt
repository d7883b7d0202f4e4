-- ===== src/Pipeline/Run.antt =====
-- The state that src/endless_library/pipeline.py works on, what it calls, and programs over them
-- that may raise.

use biblichor.Prelude.{ℕ, String, Bool, true, false, Option, List, [], ◌∷◌}
use biblichor.Prelude.Number.{Floats}
use biblichor.Prelude.Result.{Result, ok, err}
use biblichor.Domain.AutoPick.{Thresholds}
use biblichor.Db.Books.Row.{Book, Books}
use biblichor.Db.Books.Queue.{claim_for_processing}
use biblichor.Db.Books.Ops.{Op, apply}
use biblichor.Db.Events.{append}
use biblichor.Db.Candidates.{Candidate, CandidateRow}
use biblichor.Db.Sources.{SourceAccounts}
use biblichor.Kindle.Session.{World, Env}
use biblichor.Kindle.Smtp.{Config, read}
use biblichor.Domain.Scoring.{ScoreOps, ScoringConfig}
use biblichor.Scrapers.Registry.{ScrapersConfig}

-- A call of the notifier: the title and the author, and the format of a book that was sent.
pub data Notice : Type 0 where
  needs_review : String → Option String → Notice
  sent : String → Option String → String → Notice

-- The tables and the log, what the router did, the notices, and `cfg.scoring.deliverable_max_bytes`,
-- which the pipeline overwrites.
pub record State (S : Type 0) : Type 0 where
  pub books : Books
  pub cands : List (CandidateRow S)
  pub accounts : SourceAccounts
  pub world : World
  pub notices : List Notice
  pub deliverable_max_bytes : Option ℕ

-- What a call answers: a value, an exception that its caller names, or any other exception.
pub data Answer (A : Type 0) : Type 0 where
  returned : A → Answer A
  raised crashed : String → Answer A

-- The same of a scraper's method, which may be NotImplemented.
pub data Scraped (A : Type 0) : Type 0 where
  found : A → Scraped A
  not_implemented : Scraped A
  failed : String → Scraped A

-- `ScoreBreakdown`, with the two components that the pipeline reads: whether `isbn13_matched` is at
-- least 1, and `title_similarity_raw`.
pub record Score (S : Type 0) : Type 0 where
  pub total : S
  pub is_hard_skip : Bool
  pub isbn13_matched : Bool
  pub title_similarity_raw : S

-- `DownloadResult` and `UnpackResult`
pub record Downloaded : Type 0 where
  pub path : String
  pub size : ℕ
  pub md5 : String

pub record Unpacked : Type 0 where
  pub path : String
  pub was_archive : Bool

-- The configuration, `cfg.general` mostly.
pub record PipelineConfig (F : Floats) : Type 0 where
  pub max_attempts : ℕ
  pub max_search_attempts_before_skip : ℕ
  pub zombie_stale_minutes : ℕ
  pub quality_floor : F.Float
  pub quality_floor_non_latin : F.Float
  pub auto_pick : Thresholds F
  pub auto_pick_threshold_non_latin : F.Float
  pub min_score_for_failure_non_latin : F.Float
  pub smtp_cap : ℕ
  pub max_attachment_mb : ℕ
  pub calibre_enabled : Bool
  pub bookorbit_enabled : Bool
  pub library_root : Option String
  pub router : Config
  pub scrapers : ScrapersConfig
  pub scoring : ScoringConfig F
  pub language : String
  pub recent_release_window_years : ℕ

-- The calls out of the pipeline, each as a function of the number of clock readings and calls
-- before it: the year of the clock, the scrapers, the file system, the downloader, the unpacker,
-- Calibre, the compressor and BookOrbit. `isbns` and `loads` read the JSON text `raw`, `inflate` is
-- `int(n * 1.4)`, `show_time` prints a time, and `show_fixed d x` prints `x` with `d` digits.
pub record Services (F : Floats) : Type 0 where
  pub kindle : Env
  pub year : ℕ → ℕ
  pub search : ℕ → String → Book → Scraped (List Candidate)
  pub resolve_cdn : ℕ → String → Candidate → Scraped (Option String)
  pub download : ℕ → String → Book → Option String → Answer Downloaded
  pub unpack : ℕ → String → Answer Unpacked
  pub exists : ℕ → String → Bool
  pub size_of : ℕ → String → Answer ℕ
  pub convert_to_epub : ℕ → String → Answer String
  pub enrich_metadata : ℕ → String → Book → Answer Unit
  pub try_compress : ℕ → String → ℕ → Answer (Option String)
  pub drop_into_library : ℕ → String → Book → Answer String
  pub stk_configured : ℕ → Answer Bool
  pub score_ops : ScoreOps F
  pub isbns : String → List String
  pub loads : String → Option String
  pub inflate : ℕ → ℕ
  pub show_time : ℕ → String
  pub show_fixed : ℕ → F.Float → String

-- A program that may raise, which is given by the text of the exception.
abbrev pub Program : Type 0 → Type 0 → Type 0
Program S A = State S → Result String A × State S

infixl 5 ◌>>=◌ ◌>>◌
abbrev pub then_run :
    {S A B : Type 0} → (A → Program S B) → Result String A × State S → Result String B × State S
then_run f (ok a, s) = f a s
then_run f (err e, s) = (err e, s)

unfoldable pub ◌>>=◌ : {S A B : Type 0} → Program S A → (A → Program S B) → Program S B
◌>>=◌ m f s = then_run f (m s)

abbrev pub ◌>>◌ : {S A B : Type 0} → Program S A → Program S B → Program S B
m >> k = m >>= λ _. k

unfoldable pub done : {S A : Type 0} → A → Program S A
done a s = (ok a, s)

unfoldable pub raise : {S A : Type 0} → String → Program S A
raise m s = (err m, s)

unfoldable pub when : {S : Type 0} → Bool → Program S (Unit {0}) → Program S (Unit {0})
unfolding done
when true m = m
when false m = done tt

-- A call of something outside.
unfoldable pub call : {S A : Type 0} → (ℕ → A) → Program S A
call f s = (ok (f s.world.reads), record s { world = read s.world })

abbrev pub answered : {S A : Type 0} → Answer A → Program S A
answered (returned a) s = (ok a, s)
answered (raised e) s = (err e, s)
answered (crashed e) s = (err e, s)

-- A call of something outside whose exceptions are not caught, `stat` for example.
unfoldable pub ask : {S A : Type 0} → (ℕ → Answer A) → Program S A
unfolding ◌>>=◌ call
ask f = call f >>= answered

unfoldable pub get : {S : Type 0} → Program S (State S)
get s = (ok s, s)

module _ {S : Type 0} (env : Env) where
  -- A method of `BookRepo`, at the time of the call.
  unfoldable pub update : Op → Program S (Unit {0})
  update op s =
      (ok tt, record s { books = apply (env.now s.world.reads) op s.books; world = read s.world })

  unfoldable pub claim : ℕ → Program S Bool
  claim i s =
      let (won, t) = claim_for_processing (env.now s.world.reads) i s.books in
      (ok won, record s { books = t; world = read s.world })

  -- `deps.events.append`
  unfoldable pub log : Option ℕ → String → Option String → String → Program S (Unit {0})
  log book_id kind scraper message s =
      let t =
        (append (env.now s.world.reads)
          (record {
            book_id = book_id;
            kind = kind;
            scraper = scraper;
            message = message;
            meta = [];
          })
          s.world.events).1 in
      (ok tt, record s { world = read (record s.world { events = t }) })

unfoldable pub notify : {S : Type 0} → Notice → Program S (Unit {0})
notify n s = (ok tt, record s { notices = n ∷ s.notices })
