-- ===== src/Pipeline/Settle/Process.antt =====
-- The status that a run of `process_one` returns is the one in the table.
use biblichor.Prelude.{
  ℕ, zero, suc, ◌≡◌, String, Bool, true, false, Option, none, some, List, [], ◌∷◌,
}
use mathlib.Core.Path.{subst}
use biblichor.Prelude.Number.{Floats}
use biblichor.Prelude.Result.{ok}
use biblichor.Domain.AutoPick.{AutoPickDecision, auto}
use biblichor.Db.Books.Row.{Book}
use biblichor.Db.Candidates.{Candidate, CandidateRow, get_by_id}
use biblichor.Pipeline.Run.{State, PipelineConfig, Services}
use biblichor.Pipeline.Search.{Pool, Scored}
use biblichor.Pipeline.Download.{Final, in_flight_, Resolved}
use biblichor.Pipeline.Process.{
  after_auto, after_manual, after_decision, after_scoring, after_pool, fresh_search, after_loads,
  after_pick, pick_or_search, after_stat, after_claim, process_one,
}
use biblichor.Pipeline.Hoare.{Always, Post, Hoare-done, Hoare-notify}
use biblichor.Pipeline.Settle.{
  Ends, SettledAs, Ends-then, Ends-if, Ends-skipped, Ends-raise, fail_with-Ends,
  search_fail_or_skip-Ends, review-Ends, process_from_downloaded-Ends,
}

module _ (F : Floats) (env : Services F) (cfg : PipelineConfig F) (batch : Bool) (book : Book) where
  open F use {Float}

  after_auto-Ends : (r : Resolved) → Ends book.id (after_auto F env cfg batch book r)
  unfolding after_auto
  after_auto-Ends (some path, e) = process_from_downloaded-Ends F env cfg book batch path
  after_auto-Ends (none, e) =
      Ends-if book.id _ _ _ (Ends-skipped book.id) (fail_with-Ends F env cfg book _)

  after_manual-Ends : (i : ℕ) (r : Resolved) → Ends book.id (after_manual F env cfg batch book i r)
  unfolding after_manual
  after_manual-Ends i (some path, e) = process_from_downloaded-Ends F env cfg book batch path
  after_manual-Ends i (none, e) =
      Ends-if book.id _ _ _ (Ends-skipped book.id) (search_fail_or_skip-Ends F env cfg book _)

  after_decision-Ends :
      (c : Candidate) (top second : Float) (d : AutoPickDecision)
      → Ends book.id (after_decision F env cfg batch book c top second d)
  unfolding after_decision
  after_decision-Ends c top second AutoPickDecision.failed =
      search_fail_or_skip-Ends F env cfg book _
  after_decision-Ends c top second AutoPickDecision.needs_review =
      review-Ends F env cfg book _ _ (Hoare-notify _ _)
  after_decision-Ends c top second auto = Ends-then book.id _ _ after_auto-Ends

  after_scoring-Ends :
      (scored : List (Scored F env cfg)) → Ends book.id (after_scoring F env cfg batch book scored)
  unfolding after_scoring
  after_scoring-Ends [] = search_fail_or_skip-Ends F env cfg book _
  after_scoring-Ends ((c, b) ∷ scored) =
      Ends-then book.id _ _ (λ u. after_decision-Ends c b.total _ _)

  after_pool-Ends : (p : Pool F env cfg) → Ends book.id (after_pool F env cfg batch book p)
  unfolding after_pool
  after_pool-Ends ([], last) = search_fail_or_skip-Ends F env cfg book _
  after_pool-Ends (c ∷ cs, last) =
      Ends-then book.id _ _
        (λ a. Ends-then book.id _ _ (λ b. Ends-then book.id _ _ after_scoring-Ends))

  fresh_search-Ends : Ends book.id (fresh_search F env cfg batch book)
  unfolding fresh_search
  fresh_search-Ends = Ends-then book.id _ _ (λ u. Ends-then book.id _ _ after_pool-Ends)

  after_loads-Ends :
      (i : ℕ) (row : CandidateRow Float) (raw : Option String)
      → Ends book.id (after_loads F env cfg batch book i row raw)
  unfolding after_loads
  after_loads-Ends i row none = Ends-raise book.id _
  after_loads-Ends i row (some raw) =
      Ends-then book.id _ _ (λ u. Ends-then book.id _ _ (after_manual-Ends i))

  after_pick-Ends :
      (i : ℕ) (row : Option (CandidateRow Float))
      → Ends book.id (after_pick F env cfg batch book i row)
  unfolding after_pick
  after_pick-Ends i (some row) = after_loads-Ends i row _
  after_pick-Ends i none = Ends-then book.id _ _ (λ u. fresh_search-Ends)

  pick_or_search-Ends : (o : Option ℕ) → Ends book.id (pick_or_search F env cfg batch book o)
  unfolding pick_or_search
  pick_or_search-Ends none = fresh_search-Ends
  pick_or_search-Ends (some zero) = fresh_search-Ends
  pick_or_search-Ends (some (suc i)) =
      Ends-then book.id _ _ (λ s. after_pick-Ends (suc i) (get_by_id (suc i) s.cands))

  after_stat-Ends :
      (at : ℕ) (usable : Bool) → Ends book.id (after_stat F env cfg batch book at usable)
  unfolding after_stat
  after_stat-Ends at usable =
      Ends-if book.id _ _ _
        (Ends-then book.id _ _ (λ u. process_from_downloaded-Ends F env cfg book batch _))
        (Ends-then book.id _ _
          (λ u. Ends-then book.id _ _ (λ v. pick_or_search-Ends book.picked_candidate_id)))

  after_claim-Ends :
      (at : Option ℕ) (won : Bool) → Ends book.id (after_claim F env cfg batch book at won)
  unfolding after_claim
  after_claim-Ends at false = Hoare-done Always (SettledAs book.id) in_flight_ (λ t o. tt)
  after_claim-Ends none true = pick_or_search-Ends book.picked_candidate_id
  after_claim-Ends (some at) true =
      Ends-if book.id _ _ _ (Ends-then book.id _ _ (after_stat-Ends at))
        (pick_or_search-Ends book.picked_candidate_id)

  process_one-Ends : Ends book.id (process_one F env cfg batch book)
  unfolding process_one
  process_one-Ends = Ends-then book.id _ _ (after_claim-Ends book.downloaded_at)

  -- Where `process_one` returns sent, failed or needs_review, every row of the book has the status
  -- kindled, failed or needs_review then.
  pub process_one_settles :
      (s : State Float) (f : Final)
      → (process_one F env cfg batch book s).0 ≡ ok f
      → SettledAs book.id f (process_one F env cfg batch book s).1.books
  process_one_settles s f h =
      subst (λ r. Post (SettledAs book.id) (r, (process_one F env cfg batch book s).1)) h
        (process_one-Ends.at s tt)
