-- ===== src/Pipeline/Search.antt =====
-- `_peek_top_score`, `_search_with_strategies` and `_score_and_persist` of
-- src/endless_library/pipeline.py.
pub mod Best
use Prim.Native.String.{◌++◌ as ◌++ˢ◌}
use biblichor.Scrapers.Registry.{chain_for_source}
use biblichor.Prelude.{
  is_in, leb, ◌-◌, ℕ, String, Bool, true, false, not, ◌&&◌, ◌||◌, Option, none, some, List, [], ◌∷◌,
  ◌++◌, length, select, str_eq, ◌==◌, if◌then◌else◌,
}
use biblichor.Prelude.Number.{Floats}
use biblichor.Prelude.Decimal.{decimal}
use biblichor.Prelude.Text.{codes}
use biblichor.Prelude.Result.{ok}
use biblichor.Domain.Script.{is_non_latin}
use biblichor.Domain.Scoring.{SearchQuery, SkipReason, ScoreBreakdown, score_candidate}
use biblichor.Db.Books.Row.{Book}
use biblichor.Db.Books.Stages.{searched}
use biblichor.Db.Books.Ops.{Op}
use biblichor.Db.Candidates.{Candidate, insert, clear_for_book}
use biblichor.Pipeline.Run.{
  Scraped, found, not_implemented, failed, Score, PipelineConfig, Services, Program, ◌>>=◌, ◌>>◌,
  done, call, get, update, log,
}

-- `bool(x)` of an optional text
abbrev pub is_given : Option String → Bool
is_given none = false
is_given (some s) = not (str_eq s "")

abbrev pub or_empty : Option String → String
or_empty none = ""
or_empty (some s) = s

-- The first `n` characters: `s[:n]`
abbrev pub clip : ℕ → String → String
clip ℕ.zero s = ""
clip (ℕ.suc n) String.[] = ""
clip (ℕ.suc n) (String.◌∷◌ c s) = String.◌∷◌ c (clip n s)

module _ (F : Floats) (env : Services F) (cfg : PipelineConfig F) where
  open F use {Float, zero_float, le}

  abbrev pub max_float : Float → Float → Float
  max_float x y = if le x y then y else x

  -- `bool(book.isbn13) and book.isbn13 in (c.raw.get("isbns") or [])`
  abbrev pub isbn_match : Book → Candidate → Bool
  isbn_match book c = is_given book.isbn13 && is_in (env.isbns c.raw) (or_empty book.isbn13)

  -- `SearchQuery(…)`
  abbrev pub query_of : Book → SearchQuery
  query_of book = record { title = book.title; author = book.author; language = cfg.language }

  abbrev pub is_skipped : Option SkipReason → Bool
  is_skipped none = false
  is_skipped (some reason) = true

  -- What the pipeline reads of a breakdown.
  abbrev pub read_score : ScoreBreakdown F env.score_ops cfg.scoring → Score Float
  read_score b = record {
    total = b.total;
    is_hard_skip = is_skipped b.skip_reason;
    isbn13_matched = le (env.score_ops.of_nat 1) b.isbn13_matched;
    title_similarity_raw = b.title_similarity_raw;
  }

  unfoldable pub score_of : Option ℕ → Book → Candidate → Score Float
  unfolding score_candidate
  score_of cap book c =
      read_score
        (score_candidate F env.score_ops cfg.scoring cap c (query_of book) (isbn_match book c))

  -- The loop of `_peek_top_score`.
  unfoldable pub peek_loop : Option ℕ → Book → List Candidate → Float → Float
  unfolding score_of
  peek_loop cap book [] top = top
  peek_loop cap book (c ∷ cs) top =
      let s = score_of cap book c in
      peek_loop cap book cs (if not s.is_hard_skip && not (le s.total top) then s.total else top)

  unfoldable pub peek_top_score : Option ℕ → Book → List Candidate → Float
  unfolding peek_loop
  peek_top_score cap book cands = peek_loop cap book cands zero_float

  -- The floor below which the chain of scrapers goes on.
  abbrev pub floor : Book → Float
  floor book =
      if is_non_latin (codes book.title)
      then max_float cfg.quality_floor_non_latin cfg.auto_pick_threshold_non_latin
      else max_float cfg.quality_floor cfg.auto_pick.threshold

  abbrev pub new_candidates : List String → List Candidate → List Candidate
  new_candidates seen cands =
      select (λ c. not (is_in seen (or_empty c.md5)) || not (is_given c.md5)) cands

  abbrev pub note_md5s : List String → List Candidate → List String
  note_md5s seen [] = seen
  note_md5s seen (c ∷ cs) = note_md5s (if is_given c.md5 then or_empty c.md5 ∷ seen else seen) cs

  -- The candidate that `kindlebangla` books get without a search.
  abbrev pub slug_candidate : Book → String → Candidate
  slug_candidate book slug = record {
    provider = "kindlebangla";
    md5 = none;
    title = some book.title;
    author = book.author;
    language = some "bn";
    format = some "epub";
    filesize_bytes = none;
    year = none;
    publisher = none;
    edition_hints = some "";
    detail_url = "https://www.kindlebangla.com/book/" ++ˢ slug;
    raw = "{\"slug\": \"" ++ˢ (slug ++ˢ "\"}");
  }

  abbrev pub Pool : Type 0
  Pool = List Candidate × Option String

  -- A scraper that answered: stop with the pool, or go on with `continue`.
  unfoldable pub after_search :
      Book
      → String
      → List Candidate
      → List String
      → Option String
      → (List Candidate → List String → Option String → Program Float Pool)
      → Scraped (List Candidate)
      → Program Float Pool
  after_search book name pool seen last continue not_implemented = continue pool seen last
  after_search book name pool seen last continue (failed e) = do
    log env.kindle (some book.id) "error" (some name) ("search error: " ++ˢ e)
    continue pool seen last
  after_search book name pool seen last continue (found []) = do
    log env.kindle (some book.id) "scrape" (some name) "0 candidates; trying next scraper"
    continue pool seen last
  after_search book name pool seen last continue (found (c ∷ cs)) = do
    s ← get
    let new = new_candidates seen (c ∷ cs)
    let top = peek_top_score s.deliverable_max_bytes book new
    let got =
        "got " ++ˢ (decimal (length (c ∷ cs)) ++ˢ (" candidates (top=" ++ˢ env.show_fixed 1 top))
    if le (floor book) top
        then (do
          log env.kindle (some book.id) "scrape" (some name)
              (got ++ˢ (" ≥ floor " ++ˢ (env.show_fixed 0 (floor book) ++ˢ "); stopping chain")))
          update env.kindle (Op.stage book.id searched)
          done (pool ++ new, some name))
        else (do
          log env.kindle (some book.id) "scrape" (some name)
              (got ++ˢ (" < floor " ++ˢ (env.show_fixed 0 (floor book) ++ˢ "); falling through")))
          continue (pool ++ new) (note_md5s seen new) (some name))

  -- The end of the chain.
  unfoldable pub chain_exhausted :
      Book → List Candidate → List String → Option String → Program Float Pool
  chain_exhausted book [] seen last = done ([], last)
  chain_exhausted book (c ∷ pool) seen last = do
    update env.kindle (Op.stage book.id searched)
    log env.kindle (some book.id) "scrape" last (
        "chain exhausted (no scraper >= floor "
        ++ˢ (env.show_fixed 0 (floor book)
            ++ˢ ("); using union of "
                ++ˢ (decimal (length (c ∷ pool))
                    ++ˢ (" candidates from "
                        ++ˢ ((if length seen == 0 then "pool" else decimal (length seen))
                            ++ˢ " dedup"))))))
    done (c ∷ pool, last)

  -- The loop over the chain of scrapers.
  unfoldable pub search_loop :
      Book → List String → List Candidate → List String → Option String → Program Float Pool
  unfolding after_search chain_exhausted
  search_loop book [] pool seen last = chain_exhausted book pool seen last
  search_loop book (name ∷ names) pool seen last =
      call (λ n. env.search n name book)
      >>= after_search book name pool seen last (search_loop book names)

  -- `_book_context` and the chain: a `BookRow` has neither `is_public_domain` nor `pub_year`, which
  -- so read as None.
  abbrev pub is_recent_release : ℕ → Bool
  is_recent_release year = leb (year - cfg.recent_release_window_years) 0

  unfoldable pub book_chain : ℕ → Book → List String
  unfolding chain_for_source
  book_chain year book =
      chain_for_source cfg.scrapers book.source book.title false (is_recent_release year)

  -- `_search_with_strategies`, with the year that `_book_context` reads.
  unfoldable pub after_context : Book → ℕ → Program Float Pool
  unfolding search_loop book_chain
  after_context book year =
      if str_eq book.source "kindlebangla" && is_given book.goodreads_id
      then (do
        log env.kindle (some book.id) "scrape" (some "kindlebangla_curl") (
            "synthesised candidate from source slug ("
            ++ˢ (clip 40 (or_empty book.goodreads_id) ++ˢ ")"))
        update env.kindle (Op.stage book.id searched)
        done (slug_candidate book (or_empty book.goodreads_id) ∷ [], some "kindlebangla_curl"))
      else search_loop book (book_chain year book) [] [] none

  unfoldable pub search_with_strategies : Book → Program Float Pool
  unfolding after_context
  search_with_strategies book = call env.year >>= after_context book

  abbrev pub Scored : Type 0
  Scored = Candidate × Score Float

  -- `scored.sort(key=…, reverse=True)`: equal scores keep their order.
  abbrev pub insert_scored : Scored → List Scored → List Scored
  insert_scored x [] = x ∷ []
  insert_scored x (y ∷ ys) =
      let rest = insert_scored x ys in if le y.1.total x.1.total then x ∷ y ∷ ys else y ∷ rest

  abbrev pub sort_scored : List Scored → List Scored
  sort_scored [] = []
  sort_scored (x ∷ xs) = insert_scored x (sort_scored xs)

  -- `deps.cands.insert` of a candidate
  unfoldable pub persist : Book → Candidate → Score Float → Program Float (Unit {0})
  persist book c b s = (ok tt, record s { cands = (insert book.id c b.total s.cands).1 })

  unfoldable pub forget : Book → Program Float (Unit {0})
  forget book s = (ok tt, record s { cands = clear_for_book book.id s.cands })

  -- The loop of `_score_and_persist`.
  unfoldable pub score_loop : Book → List Candidate → Program Float (List Scored)
  unfolding persist score_of
  score_loop book [] = done []
  score_loop book (c ∷ cs) = do
    s ← get
    let b = score_of s.deliverable_max_bytes book c
    if b.is_hard_skip
        then score_loop book cs
        else (do persist book c b; rest ← score_loop book cs; done ((c, b) ∷ rest))

  -- `_score_and_persist`
  unfoldable pub score_and_persist : Book → List Candidate → Program Float (List Scored)
  unfolding score_loop forget
  score_and_persist book cands = do
    forget book
    scored ← score_loop book cands
    done (sort_scored scored)
