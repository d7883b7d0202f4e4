-- ===== src/Pipeline/Refine/Process.antt =====
-- One run of `process_one` as `BookRepo` operations on its own book.
use biblichor.Prelude.{
  ℕ, zero, suc, refl, ==_refl, String, Bool, true, false, Option, none, some, List, [], ◌∷◌, arith,
}
use biblichor.Prelude.Number.{Floats}
use biblichor.Domain.AutoPick.{AutoPickDecision, auto}
use biblichor.Db.Books.Row.{Book}
use biblichor.Db.Candidates.{Candidate, CandidateRow, get_by_id}
use biblichor.Pipeline.Run.{State, PipelineConfig, Services}
use biblichor.Pipeline.Search.{Pool, Scored}
use biblichor.Pipeline.Download.{Final, Resolved}
use biblichor.Pipeline.Process.{
  set_cap, after_auto, after_manual, after_decision, after_scoring, after_pool, fresh_search,
  after_loads, after_pick, pick_or_search, after_stat, usable_file, after_claim, process_one,
}
use biblichor.Pipeline.Refine.{
  Keeps-ask, Keeps, Refines, Refines-same, quietly, Keeps-done, Keeps-raise, Keeps-call, Keeps-get,
  Keeps-log, Keeps-notify, Keeps-when, Keeps-if, Keeps-update, Keeps-claim,
}
use biblichor.Pipeline.Refine.Search.{search_with_strategies-Keeps, score_and_persist-Keeps}
use biblichor.Pipeline.Refine.Download.{
  Keeps-fail, resolve_and_download-Keeps, search_fail_or_skip-Keeps,
}
use biblichor.Pipeline.Refine.Deliver.{process_from_downloaded-Keeps}

module _ (F : Floats) (env : Services F) (cfg : PipelineConfig F) (batch : Bool) (book : Book) where
  open F use {Float}

  after_auto-Keeps : (r : Resolved) → Keeps book.id 1 1 (after_auto F env cfg batch book r)
  unfolding after_auto
  after_auto-Keeps (some path, e) = process_from_downloaded-Keeps F env cfg book batch path
  after_auto-Keeps (none, e) =
      Keeps-if book.id 1 1 _ _ _ (Keeps-done book.id 1 1 _) (Keeps-fail F env cfg book 1 _ _)

  after_manual-Keeps :
      (i : ℕ) (r : Resolved) → Keeps book.id 1 1 (after_manual F env cfg batch book i r)
  unfolding after_manual
  after_manual-Keeps i (some path, e) = process_from_downloaded-Keeps F env cfg book batch path
  after_manual-Keeps i (none, e) =
      Keeps-if book.id 1 1 _ _ _ (Keeps-done book.id 1 1 _)
        (search_fail_or_skip-Keeps F env cfg book _)

  after_decision-Keeps :
      (c : Candidate) (top second : Float) (d : AutoPickDecision)
      → Keeps book.id 1 1 (after_decision F env cfg batch book c top second d)
  unfolding after_decision
  after_decision-Keeps c top second AutoPickDecision.failed =
      search_fail_or_skip-Keeps F env cfg book _
  after_decision-Keeps c top second AutoPickDecision.needs_review =
      quietly book.id 1 1 _ _
        (Keeps-update book.id env.kindle 0 0 _ (==_refl book.id) (omega arith))
        (λ a. quietly book.id 1 1 _ _ (Keeps-notify book.id _) (λ b. Keeps-done book.id 1 1 _))
  after_decision-Keeps c top second auto =
      quietly book.id 1 1 _ _ (resolve_and_download-Keeps F env cfg book c) after_auto-Keeps

  after_scoring-Keeps :
      (scored : List (Scored F env cfg))
      → Keeps book.id 1 1 (after_scoring F env cfg batch book scored)
  unfolding after_scoring
  after_scoring-Keeps [] = search_fail_or_skip-Keeps F env cfg book _
  after_scoring-Keeps ((c, b) ∷ scored) =
      quietly book.id 1 1 _ _ (Keeps-when book.id _ _ (Keeps-log book.id env.kindle _ _ _ _))
        (λ a. after_decision-Keeps c b.total _ _)

  set_cap-Keeps : (cap : ℕ) → Keeps book.id 0 0 (set_cap F env cfg cap)
  unfolding set_cap
  set_cap-Keeps cap = record { keep = λ s. Refines-same book.id 0 0 s _ refl refl }

  after_pool-Keeps : (p : Pool F env cfg) → Keeps book.id 1 1 (after_pool F env cfg batch book p)
  unfolding after_pool
  after_pool-Keeps ([], last) = search_fail_or_skip-Keeps F env cfg book _
  after_pool-Keeps (c ∷ cs, last) = quietly book.id 1 1 _ _ (Keeps-call book.id _) (λ configured.
      quietly book.id 1 1 _ _ (set_cap-Keeps _) (λ a.
        quietly book.id 1 1 _ _ (score_and_persist-Keeps F env cfg book (c ∷ cs))
          after_scoring-Keeps))

  fresh_search-Keeps : Keeps book.id 1 1 (fresh_search F env cfg batch book)
  unfolding fresh_search
  fresh_search-Keeps =
      quietly book.id 1 1 _ _ (Keeps-log book.id env.kindle _ _ _ _) (λ a.
        quietly book.id 1 1 _ _ (search_with_strategies-Keeps F env cfg book) after_pool-Keeps)

  after_loads-Keeps :
      (i : ℕ) (row : CandidateRow Float) (raw : Option String)
      → Keeps book.id 1 1 (after_loads F env cfg batch book i row raw)
  unfolding after_loads
  after_loads-Keeps i row none = Keeps-raise book.id Final 1 1 _
  after_loads-Keeps i row (some raw) =
      quietly book.id 1 1 _ _ (Keeps-log book.id env.kindle _ _ _ _) (λ a.
        quietly book.id 1 1 _ _ (resolve_and_download-Keeps F env cfg book _)
          (after_manual-Keeps i))

  after_pick-Keeps :
      (i : ℕ) (row : Option (CandidateRow Float))
      → Keeps book.id 1 1 (after_pick F env cfg batch book i row)
  unfolding after_pick
  after_pick-Keeps i (some row) = after_loads-Keeps i row _
  after_pick-Keeps i none =
      quietly book.id 1 1 _ _ (Keeps-log book.id env.kindle _ _ _ _) (λ a. fresh_search-Keeps)

  pick_or_search-Keeps : (o : Option ℕ) → Keeps book.id 1 1 (pick_or_search F env cfg batch book o)
  unfolding pick_or_search
  pick_or_search-Keeps none = fresh_search-Keeps
  pick_or_search-Keeps (some zero) = fresh_search-Keeps
  pick_or_search-Keeps (some (suc i)) =
      quietly book.id 1 1 _ _ (Keeps-get book.id)
        (λ s. after_pick-Keeps (suc i) (get_by_id (suc i) s.cands))

  after_stat-Keeps :
      (at : ℕ) (usable : Bool) → Keeps book.id 1 1 (after_stat F env cfg batch book at usable)
  unfolding after_stat
  after_stat-Keeps at usable =
      Keeps-if book.id 1 1 _ _ _
        (quietly book.id 1 1 _ _ (Keeps-log book.id env.kindle _ _ _ _)
          (λ a. process_from_downloaded-Keeps F env cfg book batch _))
        (quietly book.id 1 1 _ _
          (Keeps-update book.id env.kindle 0 0 _ (==_refl book.id) (omega arith))
          (λ a.
            quietly book.id 1 1 _ _ (Keeps-log book.id env.kindle _ _ _ _)
              (λ b. pick_or_search-Keeps book.picked_candidate_id)))

  usable_file-Keeps : (path : String) → Keeps book.id 0 0 (usable_file F env cfg path)
  unfolding usable_file
  usable_file-Keeps path = quietly book.id 0 0 _ _ (Keeps-call book.id _) (λ a.
      Keeps-if book.id 0 0 _ _ _
        (quietly book.id 0 0 _ _ (Keeps-ask book.id _) (λ b. Keeps-done book.id 0 0 _))
        (Keeps-done book.id 0 0 _))

  after_claim-Keeps :
      (at : Option ℕ) (won : Bool) → Keeps book.id 1 1 (after_claim F env cfg batch book at won)
  unfolding after_claim
  after_claim-Keeps at false = Keeps-done book.id 1 1 _
  after_claim-Keeps none true = pick_or_search-Keeps book.picked_candidate_id
  after_claim-Keeps (some at) true =
      Keeps-if book.id 1 1 _ _ _
        (quietly book.id 1 1 _ _ (usable_file-Keeps _) (after_stat-Keeps at))
        (pick_or_search-Keeps book.picked_candidate_id)

  pub process_one-Keeps : Keeps book.id 1 1 (process_one F env cfg batch book)
  unfolding process_one
  process_one-Keeps =
      quietly book.id 1 1 _ _ (Keeps-claim book.id env.kindle)
        (after_claim-Keeps book.downloaded_at)

  -- Whatever the scrapers, the files, Calibre and the deliveries answer, and also where it raises, a
  -- run of `process_one` changes the table by `BookRepo` operations on its own book alone, none of
  -- them a reset, records at most one failure and sends at most one mail.
  pub process_one-Refines :
      (s : State Float) → Refines book.id 1 1 s (process_one F env cfg batch book s).1
  process_one-Refines = process_one-Keeps.keep
