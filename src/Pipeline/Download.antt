-- ===== src/Pipeline/Download.antt =====
-- `_resolve_and_download` and `_search_fail_or_skip` of src/endless_library/pipeline.py. That a
-- scraper evicts a cached URL (`_evict_cached_url`) is outside the state.
use Prim.Native.String.{◌++◌ as ◌++ˢ◌}
use biblichor.Prelude.{
  ◌+◌, String, Bool, true, false, ◌||◌, Option, none, some, List, [], ◌∷◌, leb, str_eq,
  if◌then◌else◌,
}
use biblichor.Prelude.Number.{Floats}
use biblichor.Prelude.Decimal.{decimal}
use biblichor.Prelude.Text.{codes, contains, has_prefix}
use biblichor.Prelude.Path.{file_name, file_suffix, lstrip_dots}
use biblichor.Domain.Status.{downloading}
use biblichor.Db.Books.Row.{Book}
use biblichor.Db.Books.Queue.{find_downloaded_by_md5}
use biblichor.Db.Books.Stages.{downloaded}
use biblichor.Db.Books.Ops.{Op}
use biblichor.Db.Candidates.{Candidate}
use biblichor.Pipeline.Run.{
  ask, State, Answer, returned, raised, crashed, Scraped, found, not_implemented, failed,
  Downloaded, Unpacked, PipelineConfig, Services, Program, ◌>>=◌, ◌>>◌, done, raise, when, call,
  get, update, log,
}
use biblichor.Pipeline.Search.{is_given, or_empty, clip, book_chain}

-- What `process_one` returns: a final status, `in_flight`, or the file to deliver in a batch.
pub data Final : Type 0 where
  sent failed_ skipped_ needs_review_ in_flight_ : Final
  needs_delivery : String → Final

-- `(path, last_error)`
abbrev pub Resolved : Type 0
Resolved = Option String × Option String

-- `deps.books.set_failed(…)` and the return after it
unfoldable pub fail_with :
    (F : Floats) (env : Services F) → Book → {A : Type 0} → String → A → Program F.Float A
fail_with F env book e a = do update env.kindle (Op.fail book.id e); done a

module _ (F : Floats) (env : Services F) (cfg : PipelineConfig F) where
  open F use {Float}

  -- `not last_error or "returned no CDN handle" in last_error`
  abbrev pub is_vague : Option String → Bool
  is_vague none = true
  is_vague (some e) = str_eq e "" || contains (codes "returned no CDN handle") (codes e)

  abbrev pub Continue : Type 0
  Continue = Option String → Program Float Resolved

  -- The unpacked file: the row gets its columns, and the loop ends.
  unfoldable pub keep_file : Book → String → Downloaded → Unpacked → Program Float Resolved
  keep_file book name result unpacked = do
    when unpacked.was_archive (
        log env.kindle (some book.id) "convert" (some name)
          ("unpacked archive -> " ++ˢ file_name unpacked.path))
    size ← ask (λ n. env.size_of n unpacked.path)
    update env.kindle (
        Op.status book.id downloading (record {
          error = none;
          format = some (lstrip_dots (file_suffix unpacked.path));
          file_path = some unpacked.path;
          md5 = some result.md5;
          file_size = some size;
        }))
    update env.kindle (Op.stage book.id downloaded)
    done (some unpacked.path, none)

  unfoldable pub after_unpack :
      Book → String → Downloaded → Continue → Answer Unpacked → Program Float Resolved
  unfolding keep_file
  after_unpack book name result continue (returned unpacked) = keep_file book name result unpacked
  after_unpack book name result continue (crashed e) = raise e
  after_unpack book name result continue (raised e) = do
    log env.kindle (some book.id) "error" (some name) ("unpack/AV rejected: " ++ˢ e)
    continue (some ("unpack rejected (" ++ˢ (name ++ˢ ("): " ++ˢ e))))

  unfoldable pub after_download :
      Book → String → Continue → Answer Downloaded → Program Float Resolved
  unfolding after_unpack
  after_download book name continue (crashed e) = raise e
  after_download book name continue (raised e) = do
    log env.kindle (some book.id) "download" (some name) ("download failed: " ++ˢ e)
    continue (some ("download failed (" ++ˢ (name ++ˢ ("): " ++ˢ e))))
  after_download book name continue (returned result) = do
    log env.kindle (some book.id) "download" (some name)
        ("downloaded " ++ˢ (decimal result.size ++ˢ (" bytes -> " ++ˢ file_name result.path)))
    unpacked ← call (λ n. env.unpack n result.path)
    after_unpack book name result continue unpacked

  -- A scraper's answer to `resolve_cdn`; `last` is `last_error` before.
  unfoldable pub after_resolve :
      Book
      → Candidate
      → String
      → Option String
      → Continue
      → Scraped (Option String)
      → Program Float Resolved
  unfolding after_download
  after_resolve book c name last continue not_implemented = continue last
  after_resolve book c name last continue (failed e) = do
    log env.kindle (some book.id) "error" (some name) ("resolve_cdn error: " ++ˢ e)
    continue (some ("resolve_cdn error (" ++ˢ (name ++ˢ ("): " ++ˢ e))))
  after_resolve book c name last continue (found none) = do
    log env.kindle (some book.id) "scrape" (some name) "resolve_cdn returned no handle"
    continue (if is_vague last then some (name ++ˢ " returned no CDN handle") else last)
  after_resolve book c name last continue (found (some url)) = do
    log env.kindle (some book.id) "scrape" (some name) ("resolved cdn: " ++ˢ clip 80 url)
    result ← call (λ n. env.download n url book c.md5)
    after_download book name continue result

  -- The loop over the chain.
  unfoldable pub resolve_loop :
      Book → Candidate → List String → Option String → Program Float Resolved
  unfolding after_resolve
  resolve_loop book c [] last = done (none, last)
  resolve_loop book c (name ∷ names) last =
      call (λ n. env.resolve_cdn n name c)
      >>= after_resolve book c name last (resolve_loop book c names)

  -- The row that has the same file already, if the candidate has an md5.
  unfoldable pub duplicate_of : Book → Candidate → State Float → Option Book
  duplicate_of book c s =
      if is_given c.md5
      then find_downloaded_by_md5 (or_empty c.md5) (some book.id) s.books
      else none

  unfoldable pub after_dedup : Book → Candidate → Option Book → Program Float Resolved
  unfolding resolve_loop book_chain
  after_dedup book c none = do
    year ← call env.year
    resolve_loop book c (book_chain F env cfg year book) none
  after_dedup book c (some existing) = do
    log env.kindle (some book.id) "dedup" none (
        "md5 "
        ++ˢ (clip 8 (or_empty c.md5)
            ++ˢ (".. already downloaded as book #"
                ++ˢ (decimal existing.id
                    ++ˢ (" (\""
                        ++ˢ (clip 40 existing.title ++ˢ "\"); marking this row as skipped"))))))
    update env.kindle (Op.dedup book.id existing.id (or_empty c.md5))
    done (none, some ("deduped:" ++ˢ decimal existing.id))

  -- `_resolve_and_download`
  unfoldable pub resolve_and_download : Book → Candidate → Program Float Resolved
  unfolding after_dedup duplicate_of
  resolve_and_download book c = do s ← get; after_dedup book c (duplicate_of book c s)

  -- `_search_fail_or_skip`; `book` is the row as the caller read it.
  unfoldable pub search_fail_or_skip : Book → String → Program Float Final
  unfolding fail_with
  search_fail_or_skip book error =
      if leb cfg.max_search_attempts_before_skip (book.attempts + 1)
      then (do
        update env.kindle (
            Op.skip book.id (
              error
              ++ˢ (" (parked after "
                  ++ˢ (decimal cfg.max_search_attempts_before_skip ++ˢ " attempts)"))))
        log env.kindle (some book.id) "state_change" none (
            "-> skipped (auto, "
            ++ˢ (decimal cfg.max_search_attempts_before_skip ++ˢ " fruitless search rounds)"))
        done skipped_)
      else fail_with F env book error failed_

  -- `dl_err and dl_err.startswith("deduped:")`
  abbrev pub is_dedup : Option String → Bool
  is_dedup none = false
  is_dedup (some e) = has_prefix (codes "deduped:") (codes e)

  -- `dl_err or default`
  abbrev pub error_or : String → Option String → String
  error_or default none = default
  error_or default (some e) = if str_eq e "" then default else e
