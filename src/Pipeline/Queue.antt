-- ===== src/Pipeline/Queue.antt =====
-- `_run_books`, where one book runs after another, `_worker_process_one` and `process_queue` of
-- src/endless_library/pipeline.py.
pub mod Counts
use Prim.Native.String.{◌++◌ as ◌++ˢ◌}
use biblichor.Prelude.{ℕ, suc, ◌+◌, String, Bool, Option, none, some, List, [], ◌∷◌, map}
use biblichor.Prelude.Number.{Floats}
use biblichor.Prelude.Decimal.{decimal}
use biblichor.Prelude.Text.{codes, strip, stem, path_name, or_else}
use biblichor.Prelude.Result.{Result, ok, err}
use biblichor.Db.Books.Row.{Book}
use biblichor.Db.Books.Row
use biblichor.Db.Books.Queue.{pending}
use biblichor.Db.Books.Ops.{Op}
use biblichor.Kindle.Pack.{BookFile}
use biblichor.Kindle.Session.{World}
use biblichor.Kindle.Smtp.{DeliveryResult}
use biblichor.Kindle.Batch.{BatchError, key_error, deliver_batch}
use biblichor.Pipeline.Run.{
  ◌>>=◌, ◌>>◌, State, Answer, returned, raised, crashed, PipelineConfig, Services, Program, done,
  raise, call, get, update,
}
use biblichor.Pipeline.Search.{or_empty}
use biblichor.Pipeline.Download.{
  fail_with, Final, sent, failed_, skipped_, needs_review_, in_flight_, needs_delivery,
}
use biblichor.Pipeline.Deliver.{size_or_zero, failure_of, record_delivery}
use biblichor.Pipeline.Process.{process_one}

-- The dictionary `tally`.
pub record Tally : Type 0 where
  pub sent : ℕ
  pub failed : ℕ
  pub needs_review : ℕ
  pub skipped : ℕ
  pub deferred : ℕ
  pub in_flight : ℕ

abbrev pub no_tally : Tally
no_tally = record {
  sent = 0;
  failed = 0;
  needs_review = 0;
  skipped = 0;
  deferred = 0;
  in_flight = 0;
}

abbrev pub total : Tally → ℕ
total t = t.sent + t.failed + t.needs_review + t.skipped + t.deferred + t.in_flight

-- `tally[st] = tally.get(st, 0) + 1`
unfoldable pub count_final : Final → Tally → Tally
count_final sent t = record t { sent = suc t.sent }
count_final failed_ t = record t { failed = suc t.failed }
count_final skipped_ t = record t { skipped = suc t.skipped }
count_final needs_review_ t = record t { needs_review = suc t.needs_review }
count_final in_flight_ t = record t { in_flight = suc t.in_flight }
count_final (needs_delivery path) t = t

abbrev pub Ready : Type 0
Ready = Book × String

-- The loop that tells the books to deliver from the others.
unfoldable pub sort_out : List (Book × Final) → List Ready × Tally → List Ready × Tally
unfolding count_final
sort_out [] (ready, t) = (ready, t)
sort_out ((b, needs_delivery path) ∷ rs) (ready, t) =
    let (ready', t') = sort_out rs (ready, t) in ((b, path) ∷ ready', t')
sort_out ((b, sent) ∷ rs) (ready, t) = sort_out rs (ready, count_final sent t)
sort_out ((b, failed_) ∷ rs) (ready, t) = sort_out rs (ready, count_final failed_ t)
sort_out ((b, skipped_) ∷ rs) (ready, t) = sort_out rs (ready, count_final skipped_ t)
sort_out ((b, needs_review_) ∷ rs) (ready, t) = sort_out rs (ready, count_final needs_review_ t)
sort_out ((b, in_flight_) ∷ rs) (ready, t) = sort_out rs (ready, count_final in_flight_ t)

module _ (F : Floats) (env : Services F) (cfg : PipelineConfig F) where
  open F use {Float}

  -- `except Exception` around `process_one`
  unfoldable pub recover :
      Book → Result String Final × State Float → Result String Final × State Float
  unfolding fail_with
  recover book (ok f, s) = (ok f, s)
  recover book (err e, s) = fail_with F env book ("pipeline crash: " ++ˢ e) failed_ s

  unfoldable pub run_book : Bool → Book → Program Float Final
  unfolding recover process_one
  run_book batch book s = recover book (process_one F env cfg batch book s)

  -- `_run_books` in the serial mode
  unfoldable pub run_books : Bool → List Book → Program Float (List (Book × Final))
  unfolding run_book
  run_books batch [] = done []
  run_books batch (b ∷ bs) = do
    f ← run_book batch b
    rest ← run_books batch bs
    done ((b, f) ∷ rest)

  -- An exception in a worker only gives the status.
  unfoldable pub or_failed : Result String Final × State Float → Result String Final × State Float
  or_failed (ok f, s) = (ok f, s)
  or_failed (err e, s) = (ok failed_, s)

  unfoldable pub work_on : Bool → Option Book → Program Float Final
  unfolding process_one
  work_on batch none = done failed_
  work_on batch (some book) = process_one F env cfg batch book

  -- `_worker_process_one`, on the row as it is now.
  unfoldable pub worker_process_one : Bool → ℕ → Program Float Final
  unfolding or_failed work_on
  worker_process_one batch i s = or_failed (work_on batch (Row.get i s.books) s)

  -- `_BookFile(…)`
  abbrev pub ready_file : (String → Answer ℕ) → Ready → BookFile
  ready_file size_of (b, path) = record {
    book_id = b.id;
    file_path = codes path;
    title =
        or_else (or_else (strip (codes b.title)) (stem (path_name (codes path))))
          (codes "Unknown title");
    author = or_else (strip (codes (or_empty b.author))) (codes "Unknown");
    size = size_or_zero (size_of path);
    stat_failure = failure_of (size_of path);
  }

  -- `_kindle_deliver_batch` and what it raises.
  unfoldable pub batch_answer :
      State Float
      → Result BatchError (List DeliveryResult) × World
      → Result String (List DeliveryResult) × State Float
  batch_answer s (ok rs, w) = (ok rs, record s { world = w })
  batch_answer s (err (key_error i), w) = (err ("KeyError: " ++ˢ decimal i), record s { world = w })
  batch_answer s (err (BatchError.raised e), w) = (err e, record s { world = w })

  unfoldable pub kindle_deliver_batch : List Ready → Program Float (List DeliveryResult)
  unfolding batch_answer
  kindle_deliver_batch ready s = batch_answer s (
      deliver_batch env.kindle cfg.router (map (ready_file (env.size_of s.world.reads)) ready)
        s.world)

  -- The loop over the results, `zip(…, strict=False)`.
  unfoldable pub record_results : List Ready → List DeliveryResult → Tally → Program Float Tally
  unfolding record_delivery count_final
  record_results [] rs t = done t
  record_results ((b, path) ∷ ready) [] t = done t
  record_results ((b, path) ∷ ready) (r ∷ rs) t = do
    f ← record_delivery F env cfg b path r
    record_results ready rs (count_final f t)

  -- `if pending_delivery`
  unfoldable pub deliver_ready : List Ready × Tally → Program Float Tally
  unfolding kindle_deliver_batch record_results
  deliver_ready ([], t) = done t
  deliver_ready (r ∷ ready, t) = do
    results ← kindle_deliver_batch (r ∷ ready)
    record_results (r ∷ ready) results t

  -- The two modes.
  unfoldable pub run_queue : Bool → List Book → Program Float Tally
  unfolding run_books sort_out deliver_ready
  run_queue batch books = do
    results ← run_books batch books
    deliver_ready (sort_out results ([], no_tally))

  unfoldable pub with_mode : Answer Bool → Program Float Tally
  unfolding run_queue
  with_mode (returned batch) = do s ← get; run_queue batch (pending cfg.max_attempts s.books)
  with_mode (raised e) = raise e
  with_mode (crashed e) = raise e

  -- `process_queue` in the serial mode
  unfoldable pub process_queue : Program Float Tally
  unfolding with_mode
  process_queue = do
    update env.kindle (Op.zombies cfg.zombie_stale_minutes)
    configured ← call env.stk_configured
    with_mode configured
