-- ===== src/Pipeline/Deliver.antt =====
-- `_process_from_downloaded` of src/endless_library/pipeline.py: a file that is too large for a
-- mail, the library and the delivery.
use Prim.Native.String.{◌++◌ as ◌++ˢ◌}
use biblichor.Prelude.{
  ℕ, String, Bool, true, false, not, ◌&&◌, Option, none, some, any, ltb, str_eq, if◌then◌else◌,
}
use biblichor.Prelude.Number.{Floats}
use biblichor.Prelude.Decimal.{decimal}
use biblichor.Prelude.Text.{codes}
use biblichor.Prelude.Path.{file_suffix, lstrip_dots}
use biblichor.Domain.FormatRouter.{decide_format_action}
use biblichor.Domain.Status.{sending, needs_review}
use biblichor.Db.Books.Row.{Book}
use biblichor.Db.Books.Stages.{no_args}
use biblichor.Db.Books.Ops.{Op}
use biblichor.Db.Events.{Event, recent_for_book}
use biblichor.Kindle.Pack.{BookFile}
use biblichor.Kindle.Smtp.{DeliveryResult, DeliveryMethod, stk, smtp}
use biblichor.Kindle.Deliver.{deliver}
use biblichor.Pipeline.Run.{
  ask, State, Notice, Answer, returned, raised, crashed, PipelineConfig, Services, Program, ◌>>=◌,
  ◌>>◌, done, raise, when, call, get, update, log, notify,
}
use biblichor.Pipeline.Search.{is_given, or_empty}
use biblichor.Pipeline.Download.{fail_with, Final, sent, failed_, needs_review_, needs_delivery}
use biblichor.Pipeline.Convert.{
  Rest, Sized, cap_bytes, compress_step, convert_step, enrich_step, error_args, mb, rescue_step,
}

-- The two halves of an answer of `stat`.
abbrev pub size_or_zero : Answer ℕ → ℕ
size_or_zero (returned n) = n
size_or_zero _ = 0

abbrev pub failure_of : Answer ℕ → Option String
failure_of (returned n) = none
failure_of (raised e) = some e
failure_of (crashed e) = some e

module _ (F : Floats) (env : Services F) (cfg : PipelineConfig F) where
  open F use {Float}

  -- `_stk_configured`: an exception counts as no.
  abbrev pub answered_yes : Answer Bool → Bool
  answered_yes (returned b) = b
  answered_yes (raised e) = false
  answered_yes (crashed e) = false

  abbrev pub size_msg : Sized → String
  size_msg f =
      mb f.raw_bytes
      ++ˢ (" raw -> ~"
          ++ˢ (mb f.inflated
              ++ˢ (" after base64, cap " ++ˢ (decimal cfg.max_attachment_mb ++ˢ "MB"))))

  -- Without STK, a file too large for a mail is for the user to review.
  unfoldable pub after_stk : Book → Rest F env cfg → Sized → Answer Bool → Program Float Final
  after_stk book rest f configured =
      if answered_yes configured
      then (do
        log env.kindle (some book.id) "oversize-routed-stk" none
            ("oversize for SMTP (" ++ˢ (size_msg f ++ˢ "); routing to STK"))
        rest f.path)
      else (do
        update env.kindle (
            Op.status book.id needs_review
              (error_args ("too large for SMTP: " ++ˢ (size_msg f ++ˢ "; STK not configured"))))
        log env.kindle (some book.id) "error" none
            ("too large for SMTP: " ++ˢ (size_msg f ++ˢ "; STK not configured"))
        done needs_review_)

  unfoldable pub oversize_step : Book → Rest F env cfg → Sized → Program Float Final
  unfolding after_stk
  oversize_step book rest f =
      if ltb (cap_bytes F env cfg) f.inflated
      then call env.stk_configured >>= after_stk book rest f
      else rest f.path

  unfoldable pub after_drop : Book → Answer String → Program Float (Unit {0})
  after_drop book (returned name) =
      log env.kindle (some book.id) "bookorbit" none ("added to library: " ++ˢ name)
  after_drop book (raised e) =
      log env.kindle (some book.id) "error" none ("bookorbit drop failed (non-fatal): " ++ˢ e)
  after_drop book (crashed e) = raise e

  unfoldable pub after_root : Book → String → String → Bool → Program Float (Unit {0})
  unfolding after_drop
  after_root book path root there =
      if there
      then call (λ n. env.drop_into_library n path book) >>= after_drop book
      else log env.kindle (some book.id) "error" none
          ("bookorbit drop skipped: library_root '" ++ˢ (root ++ˢ "' not found"))

  -- `any(e.kind == "bookorbit" for e in deps.events.recent_for_book(book.id, limit=200))`
  abbrev pub already_dropped : Book → State Float → Bool
  already_dropped book s =
      any (λ (e : Event). str_eq e.kind "bookorbit") (recent_for_book book.id 200 s.world.events)

  -- The copy for BookOrbit.
  unfoldable pub library_step : Book → String → Program Float (Unit {0})
  unfolding after_root
  library_step book path = do
    s ← get
    when (not (already_dropped book s) && cfg.bookorbit_enabled && is_given cfg.library_root) (
        call (λ n. env.exists n (or_empty cfg.library_root))
        >>= after_root book path (or_empty cfg.library_root))

  -- `method.value`
  abbrev pub method_value : DeliveryMethod → String
  method_value stk = "stk"
  method_value smtp = "smtp"

  abbrev pub is_stk : DeliveryMethod → Bool
  is_stk stk = true
  is_stk smtp = false

  abbrev pub shown_error : Option String → String
  shown_error none = "None"
  shown_error (some e) = e

  -- What a delivery leaves: the row, the event of a mail, and the notice.
  unfoldable pub record_delivery : Book → String → DeliveryResult → Program Float Final
  unfolding fail_with
  record_delivery book path r =
      if r.succeeded
      then (do
        update env.kindle (Op.kindle book.id (some (method_value r.method)))
        when (not (is_stk r.method)) (
            log env.kindle (some book.id) ("send-" ++ˢ method_value r.method) none
              ("sent via " ++ˢ method_value r.method))
        notify (Notice.sent book.title book.author (lstrip_dots (file_suffix path)))
        done sent)
      else fail_with F env book ("kindle send failed: " ++ˢ shown_error r.error) failed_

  -- `_kindle_deliver`; the router reads the size of the file itself.
  unfoldable pub kindle_deliver : Book → String → Program Float DeliveryResult
  kindle_deliver book path s =
      let bf : BookFile = record {
        book_id = book.id;
        file_path = codes path;
        title = codes book.title;
        author = codes (or_empty book.author);
        size = size_or_zero (env.size_of s.world.reads path);
        stat_failure = failure_of (env.size_of s.world.reads path);
      } in
      let (r, w) = deliver env.kindle cfg.router bf s.world in (r, record s { world = w })

  unfoldable pub send_step : Bool → Book → String → Program Float Final
  unfolding record_delivery kindle_deliver
  send_step true book path = done (needs_delivery path)
  send_step false book path = kindle_deliver book path >>= record_delivery book path

  -- The library and the delivery.
  unfoldable pub send_file_step : Bool → Book → String → Program Float Final
  unfolding send_step library_step
  send_file_step batch book path = do library_step book path; send_step batch book path

  -- What follows the conversion.
  unfoldable pub after_convert_step : Bool → Book → String → Program Float Final
  unfolding enrich_step rescue_step compress_step oversize_step send_file_step
  after_convert_step batch book path = do
    update env.kindle (Op.status book.id sending no_args)
    enrich_step F env cfg book path
    raw ← ask (λ n. env.size_of n path)
    f ←
        rescue_step F env cfg book
          (record { path = path; raw_bytes = raw; inflated = env.inflate raw })
    g ← compress_step F env cfg book f
    oversize_step book (send_file_step batch book) g

  -- `_process_from_downloaded`; `batch` is `_batch_delivery_mode`.
  unfoldable pub process_from_downloaded : Bool → Book → String → Program Float Final
  unfolding convert_step after_convert_step
  process_from_downloaded batch book path =
      convert_step F env cfg book (after_convert_step batch book)
        (decide_format_action (codes (file_suffix path))) path
