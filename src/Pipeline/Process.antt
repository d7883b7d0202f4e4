-- ===== src/Pipeline/Process.antt =====
-- `process_one` and `_compute_deliverable_cap` of src/endless_library/pipeline.py.
use Prim.Native.String.{◌++◌ as ◌++ˢ◌}
use biblichor.Prelude.{
  ℕ, zero, suc, String, Bool, true, false, not, ◌&&◌, Option, none, some, List, [], ◌∷◌, ltb, max,
  str_eq, if◌then◌else◌,
}
use biblichor.Prelude.Number.{Floats}
use biblichor.Prelude.Decimal.{decimal}
use biblichor.Prelude.Text.{codes}
use biblichor.Prelude.Result.{ok}
use biblichor.Domain.Script.{is_non_latin}
use biblichor.Domain.Status.{Status}
use biblichor.Domain.AutoPick.{AutoPickDecision, auto, Thresholds, decide_auto_pick}
use biblichor.Db.Books.Row.{Book}
use biblichor.Db.Books.Stages.{downloaded}
use biblichor.Db.Books.Ops.{Op}
use biblichor.Db.Candidates.{Candidate, CandidateRow, get_by_id}
use biblichor.Pipeline.Run.{
  ask, Notice, Answer, PipelineConfig, Services, Program, ◌>>=◌, ◌>>◌, done, raise, when, call, get,
  update, claim, log, notify,
}
use biblichor.Pipeline.Search.{
  is_given, or_empty, Pool, search_with_strategies, Scored, score_and_persist,
}
use biblichor.Pipeline.Download.{
  fail_with, Final, skipped_, failed_, needs_review_, in_flight_, Resolved, resolve_and_download,
  search_fail_or_skip, is_dedup, error_or,
}
use biblichor.Pipeline.Convert.{error_args}
use biblichor.Pipeline.Deliver.{answered_yes, process_from_downloaded}

module _ (F : Floats) (env : Services F) (cfg : PipelineConfig F) where
  open F use {Float, zero_float, le}

  -- `_compute_deliverable_cap`, by the answer of `is_configured()`; an exception counts as no.
  abbrev pub deliverable_cap : Answer Bool → ℕ
  deliverable_cap configured =
      if answered_yes F env cfg configured
      then max cfg.smtp_cap cfg.router.max_batch_bytes
      else cfg.smtp_cap

  unfoldable pub set_cap : ℕ → Program Float (Unit {0})
  set_cap cap s = (ok tt, record s { deliverable_max_bytes = some cap })

  -- The thresholds by the script of the title and the source of the book.
  abbrev pub thresholds : Book → Thresholds F
  thresholds book =
      if str_eq book.source "kindlebangla"
      then record cfg.auto_pick { threshold = zero_float; min_score_for_failure = zero_float }
      else if is_non_latin (codes book.title)
      then record cfg.auto_pick {
        threshold = cfg.auto_pick_threshold_non_latin;
        min_score_for_failure = cfg.min_score_for_failure_non_latin;
      }
      else cfg.auto_pick

  abbrev pub second_total : List (Scored F env cfg) → Float
  second_total [] = zero_float
  second_total ((c, b) ∷ scored) = b.total

  -- What follows the download of the candidate that was picked automatically.
  unfoldable pub after_auto : Bool → Book → Resolved → Program Float Final
  unfolding fail_with
  after_auto batch book (some path, e) = process_from_downloaded F env cfg batch book path
  after_auto batch book (none, e) =
      if is_dedup F env cfg e
      then done skipped_
      else fail_with F env book (error_or F env cfg "all scrapers failed to resolve/download" e)
          failed_

  -- What follows the download of the candidate that the user picked.
  unfoldable pub after_manual : Bool → Book → ℕ → Resolved → Program Float Final
  after_manual batch book i (some path, e) = process_from_downloaded F env cfg batch book path
  after_manual batch book i (none, e) =
      if is_dedup F env cfg e
      then done skipped_
      else search_fail_or_skip F env cfg book
          (error_or F env cfg ("manual pick (cand " ++ˢ (decimal i ++ˢ ") failed to download")) e)

  -- The decision on the best candidate.
  unfoldable pub after_decision :
      Bool → Book → Candidate → Float → Float → AutoPickDecision → Program Float Final
  unfolding after_auto
  after_decision batch book c top second AutoPickDecision.failed =
      search_fail_or_skip F env cfg book
        ("no plausible match (top=" ++ˢ (env.show_fixed 1 top ++ˢ ")"))
  after_decision batch book c top second AutoPickDecision.needs_review = do
    update env.kindle (
        Op.status book.id Status.needs_review (
          error_args (
            "low confidence top="
            ++ˢ (env.show_fixed 1 top ++ˢ (" second=" ++ˢ env.show_fixed 1 second)))))
    notify (Notice.needs_review book.title book.author)
    done needs_review_
  after_decision batch book c top second auto =
      resolve_and_download F env cfg book c >>= after_auto batch book

  abbrev pub is_auto : AutoPickDecision → Bool
  is_auto auto = true
  is_auto _ = false

  -- The candidates with their scores, the best first.
  unfoldable pub after_scoring : Bool → Book → List (Scored F env cfg) → Program Float Final
  unfolding after_decision
  after_scoring batch book [] =
      search_fail_or_skip F env cfg book "all candidates hard-skipped (audio?)"
  after_scoring batch book ((c, b) ∷ scored) = do
    let t = thresholds book
    let second = second_total scored
    let decision = decide_auto_pick F t b.total second b.isbn13_matched b.title_similarity_raw
    when (is_auto decision && not (le t.threshold b.total)) (
        log env.kindle (some book.id) "auto_pick" none (
          "override: ISBN match + title similarity "
          ++ˢ (env.show_fixed 2 b.title_similarity_raw
              ++ˢ (" >= 0.92 (total=" ++ˢ (env.show_fixed 1 b.total ++ˢ ")")))))
    after_decision batch book c b.total second decision

  unfoldable pub after_pool : Bool → Book → Pool F env cfg → Program Float Final
  unfolding after_scoring set_cap
  after_pool batch book ([], last) =
      search_fail_or_skip F env cfg book "no candidates from any scraper"
  after_pool batch book (c ∷ cs, last) = do
    configured ← call env.stk_configured
    set_cap (deliverable_cap configured)
    scored ← score_and_persist F env cfg book (c ∷ cs)
    after_scoring batch book scored

  -- A search from scratch.
  unfoldable pub fresh_search : Bool → Book → Program Float Final
  unfolding after_pool
  fresh_search batch book = do
    log env.kindle (some book.id) "state_change" none "-> searching"
    pool ← search_with_strategies F env cfg book
    after_pool batch book pool

  -- The candidate of a manual pick, with the dictionary that `json.loads` makes.
  abbrev pub reloaded : CandidateRow Float → String → Candidate
  reloaded row raw = record (row.candidate) {
    edition_hints = some (or_empty row.candidate.edition_hints);
    raw = raw;
  }

  -- `row.raw_json or "{}"`
  abbrev pub raw_json : CandidateRow Float → String
  raw_json row = if str_eq row.candidate.raw "" then "{}" else row.candidate.raw

  unfoldable pub after_loads :
      Bool → Book → ℕ → CandidateRow Float → Option String → Program Float Final
  unfolding after_manual
  after_loads batch book i row none = raise "JSONDecodeError"
  after_loads batch book i row (some raw) = do
    log env.kindle (some book.id) "state_change" none
        ("resume: honoring manual pick of candidate " ++ˢ decimal i)
    resolved ← resolve_and_download F env cfg book (reloaded row raw)
    after_manual batch book i resolved

  -- The row of a manual pick, if it is still there.
  unfoldable pub after_pick : Bool → Book → ℕ → Option (CandidateRow Float) → Program Float Final
  unfolding after_loads fresh_search
  after_pick batch book i (some row) = after_loads batch book i row (env.loads (raw_json row))
  after_pick batch book i none = do
    log env.kindle (some book.id) "state_change" none
        ("manual pick candidate " ++ˢ (decimal i ++ˢ " not found; re-searching"))
    fresh_search batch book

  -- From the manual pick on, if there is one.
  unfoldable pub pick_or_search : Bool → Book → Option ℕ → Program Float Final
  unfolding after_pick
  pick_or_search batch book none = fresh_search batch book
  pick_or_search batch book (some zero) = fresh_search batch book
  pick_or_search batch book (some (suc i)) = do
    s ← get
    after_pick batch book (suc i) (get_by_id (suc i) s.cands)

  -- The file of an earlier download, if it is still there and not empty.
  unfoldable pub after_stat : Bool → Book → ℕ → Bool → Program Float Final
  unfolding pick_or_search
  after_stat batch book at usable =
      if usable
      then (do
        log env.kindle (some book.id) "state_change" none (
            "resume: already downloaded at " ++ˢ (env.show_time at ++ˢ ", jumping to convert/send"))
        process_from_downloaded F env cfg batch book (or_empty book.file_path))
      else (do
        update env.kindle (Op.clear book.id downloaded)
        log env.kindle (some book.id) "state_change" none
            "resume: downloaded file missing on disk; restarting from search"
        pick_or_search batch book book.picked_candidate_id)

  -- `existing.exists() and existing.stat().st_size > 0`
  unfoldable pub usable_file : String → Program Float Bool
  usable_file path = do
    there ← call (λ n. env.exists n path)
    if there then (do size ← ask (λ n. env.size_of n path); done (ltb 0 size)) else done false

  unfoldable pub after_claim : Bool → Book → Option ℕ → Bool → Program Float Final
  unfolding after_stat usable_file
  after_claim batch book at false = done in_flight_
  after_claim batch book none true = pick_or_search batch book book.picked_candidate_id
  after_claim batch book (some at) true =
      if is_given book.file_path
      then usable_file (or_empty book.file_path) >>= after_stat batch book at
      else pick_or_search batch book book.picked_candidate_id

  -- `process_one` on a row as the caller read it.
  unfoldable pub process_one : Bool → Book → Program Float Final
  unfolding after_claim
  process_one batch book = claim env.kindle book.id >>= after_claim batch book book.downloaded_at
