-- ===== src/Pipeline/Convert.antt =====
-- `_process_from_downloaded` of src/endless_library/pipeline.py: the conversion and what makes a
-- file small enough for a mail.
use Prim.Native.String.{◌++◌ as ◌++ˢ◌}
use biblichor.Prelude.{
  ℕ, ◌*◌, ◌/◌, String, Bool, true, false, ◌&&◌, Option, none, some, List, [], ◌∷◌, any, ltb, leb,
  str_eq, if◌then◌else◌,
}
use biblichor.Prelude.Number.{Floats}
use biblichor.Prelude.Decimal.{decimal}
use biblichor.Prelude.Text.{codes, same_codes, lower}
use biblichor.Prelude.Path.{file_name, file_suffix, lstrip_dots}
use biblichor.Domain.FormatRouter.{FormatAction, send_native, convert, skip}
use biblichor.Domain.Status.{skipped, downloading, converting}
use biblichor.Db.Books.Row.{Book}
use biblichor.Db.Books.Stages.{StatusArgs, no_args, converted}
use biblichor.Db.Books.Ops.{Op}
use biblichor.Pipeline.Run.{
  ask, Answer, returned, raised, crashed, PipelineConfig, Services, Program, ◌>>=◌, ◌>>◌, done,
  raise, when, call, update, log,
}
use biblichor.Pipeline.Search.{is_given, or_empty}
use biblichor.Pipeline.Download.{fail_with, Final, failed_, skipped_}

abbrev pub error_args : String → StatusArgs
error_args e = record no_args { error = some e }

-- `set_status(…, file_path=…, format=…, file_size=…)`
abbrev pub file_args : String → String → ℕ → StatusArgs
file_args path format size = record no_args {
  format = some format;
  file_path = some path;
  file_size = some size;
}

-- `suffix.lower() in {…}`
abbrev pub suffix_is : List String → String → Bool
suffix_is exts path = any (λ e. same_codes (lower (codes (file_suffix path))) (codes e)) exts

abbrev pub mb : ℕ → String
mb n = decimal (n / 1048576) ++ˢ "MB"

-- A file with its size, raw and as `inflate` gives it for a mail.
pub record Sized : Type 0 where
  pub path : String
  pub raw_bytes : ℕ
  pub inflated : ℕ

module _ (F : Floats) (env : Services F) (cfg : PipelineConfig F) where
  open F use {Float}

  abbrev pub cap_bytes : ℕ
  cap_bytes = cfg.max_attachment_mb * 1024 * 1024

  -- What the rest of the function does with the file; an early return does not call it.
  abbrev pub Rest : Type 0
  Rest = String → Program Float Final

  -- The answer of the converter.
  unfoldable pub after_convert : Book → Rest → Answer String → Program Float Final
  unfolding fail_with
  after_convert book rest (crashed e) = raise e
  after_convert book rest (raised e) = fail_with F env book ("convert failed: " ++ˢ e) failed_
  after_convert book rest (returned path) = do
    update env.kindle (
        Op.status book.id converting
          (record no_args { format = some "epub"; file_path = some path }))
    update env.kindle (Op.stage book.id converted)
    log env.kindle (some book.id) "convert" none ("converted to " ++ˢ file_name path)
    rest path

  -- `book.converted_at and book.file_path and Path(book.file_path).suffix == ".epub" and ….exists()`
  abbrev pub was_converted : Book → Bool → Bool
  was_converted book there =
      elim book.converted_at [ none ↦ false | some t ↦ true ]
      && is_given book.file_path
      && str_eq (file_suffix (or_empty book.file_path)) ".epub"
      && there

  unfoldable pub after_exists : Book → Rest → String → Bool → Program Float Final
  unfolding after_convert
  after_exists book rest path there =
      if was_converted book there
      then (do
        log env.kindle (some book.id) "state_change" none
            "resume: skipping convert, output already exists"
        rest (or_empty book.file_path))
      else (do
        update env.kindle (Op.status book.id converting no_args)
        answer ← call (λ n. env.convert_to_epub n path)
        after_convert book rest answer)

  -- `if action == "convert" and calibre.enabled`
  unfoldable pub convert_step : Book → Rest → FormatAction → String → Program Float Final
  unfolding after_exists
  convert_step book rest convert path =
      if cfg.calibre_enabled
      then call (λ n. env.exists n (or_empty book.file_path)) >>= after_exists book rest path
      else rest path
  convert_step book rest send_native path = rest path
  convert_step book rest skip path = do
    update env.kindle
        (Op.status book.id skipped (error_args ("format unsupported: " ++ˢ file_suffix path)))
    done skipped_

  unfoldable pub after_enrich : Book → Answer Unit → Program Float (Unit {0})
  after_enrich book (returned u) =
      log env.kindle (some book.id) "convert" none "metadata enriched (author/series/tags/isbn)"
  after_enrich book (raised e) =
      log env.kindle (some book.id) "error" none ("metadata enrich failed (non-fatal): " ++ˢ e)
  after_enrich book (crashed e) = raise e

  -- The metadata of the formats that Calibre writes.
  unfoldable pub enrich_step : Book → String → Program Float (Unit {0})
  unfolding after_enrich
  enrich_step book path =
      when (cfg.calibre_enabled && suffix_is (".epub" ∷ ".azw3" ∷ ".mobi" ∷ ".pdf" ∷ []) path)
        (call (λ n. env.enrich_metadata n path book) >>= after_enrich book)

  -- `except Exception` around the rescue
  unfoldable pub rescue_failed : Book → Sized → String → Program Float Sized
  rescue_failed book f e = do
    log env.kindle (some book.id) "error" none ("PDF->EPUB rescue failed: " ++ˢ e)
    done f

  -- The size of the EPUB once more, when the path has been replaced already.
  unfoldable pub after_raw : Book → Sized → String → ℕ → Answer ℕ → Program Float Sized
  unfolding rescue_failed
  after_raw book f epub size (raised e) = rescue_failed book (record f { path = epub }) e
  after_raw book f epub size (crashed e) = rescue_failed book (record f { path = epub }) e
  after_raw book f epub size (returned raw) = do
    update env.kindle
        (Op.status book.id downloading (file_args epub (lstrip_dots (file_suffix epub)) raw))
    done (record { path = epub; raw_bytes = raw; inflated = env.inflate size })

  unfoldable pub rescued : Book → Sized → String → Answer ℕ → Program Float Sized
  unfolding after_raw rescue_failed
  rescued book f epub (raised e) = rescue_failed book f e
  rescued book f epub (crashed e) = rescue_failed book f e
  rescued book f epub (returned size) =
      if leb (env.inflate size) cap_bytes
      then (do
        log env.kindle (some book.id) "convert" none (
            "oversize PDF ("
            ++ˢ (mb f.raw_bytes ++ˢ (") -> EPUB (" ++ˢ (mb size ++ˢ ") for SMTP fit"))))
        raw ← call (λ n. env.size_of n epub)
        after_raw book f epub size raw)
      else done f

  unfoldable pub after_rescue : Book → Sized → Answer String → Program Float Sized
  unfolding rescued rescue_failed
  after_rescue book f (returned epub) = call (λ n. env.size_of n epub) >>= rescued book f epub
  after_rescue book f (raised e) = rescue_failed book f e
  after_rescue book f (crashed e) = rescue_failed book f e

  -- A PDF that is too large for a mail is converted.
  unfoldable pub rescue_step : Book → Sized → Program Float Sized
  unfolding after_rescue
  rescue_step book f =
      if ltb cap_bytes f.inflated && suffix_is (".pdf" ∷ []) f.path
      then call (λ n. env.convert_to_epub n f.path) >>= after_rescue book f
      else done f

  unfoldable pub after_compress : Book → Sized → Answer (Option String) → Program Float Sized
  after_compress book f (returned none) = done f
  after_compress book f (returned (some path)) = do
    raw ← ask (λ n. env.size_of n path)
    update env.kindle
        (Op.status book.id downloading (file_args path (lstrip_dots (file_suffix path)) raw))
    log env.kindle (some book.id) "compress" none (
        "compressed "
        ++ˢ (lstrip_dots (file_suffix path)
            ++ˢ (" " ++ˢ (mb f.raw_bytes ++ˢ (" -> " ++ˢ (mb raw ++ˢ " for SMTP fit"))))))
    done (record { path = path; raw_bytes = raw; inflated = env.inflate raw })
  after_compress book f (raised e) = do
    log env.kindle (some book.id) "error" none ("compress step crashed (non-fatal): " ++ˢ e)
    done f
  after_compress book f (crashed e) = do
    log env.kindle (some book.id) "error" none ("compress step crashed (non-fatal): " ++ˢ e)
    done f

  -- A file that is still too large is compressed.
  unfoldable pub compress_step : Book → Sized → Program Float Sized
  unfolding after_compress
  compress_step book f =
      if ltb cap_bytes f.inflated
      then call (λ n. env.try_compress n f.path cap_bytes) >>= after_compress book f
      else done f
