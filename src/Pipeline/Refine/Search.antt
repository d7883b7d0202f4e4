-- ===== src/Pipeline/Refine/Search.antt =====
-- The search of a book records no failure and mails nothing.
use biblichor.Prelude.{ℕ, refl, ==_refl, String, Option, none, List, [], ◌∷◌, arith}
use biblichor.Prelude.Number.{Floats}
use biblichor.Db.Books.Row.{Book}
use biblichor.Db.Books.Stages.{searched}
use biblichor.Db.Books.Ops.{Op}
use biblichor.Db.Candidates.{Candidate}
use biblichor.Pipeline.Run.{
  Scraped, found, not_implemented, failed, Score, PipelineConfig, Services, Program, update,
}
use biblichor.Pipeline.Search.{
  Pool, after_search, chain_exhausted, search_loop, search_with_strategies, after_context,
  book_chain, persist, forget, score_loop, score_of, score_and_persist,
}
use biblichor.Pipeline.Refine.{
  Keeps, Refines-same, quietly, Keeps-done, Keeps-call, Keeps-get, Keeps-log, Keeps-if,
  Keeps-update,
}

module _ (F : Floats) (env : Services F) (cfg : PipelineConfig F) (book : Book) where
  open F use {Float}

  stage_searched : Keeps book.id 0 0 (update {S = Float} env.kindle (Op.stage book.id searched))
  stage_searched =
      Keeps-update book.id env.kindle 0 0 (Op.stage book.id searched) (==_refl book.id)
        (omega arith)

  after_search-Keeps :
      (name : String) (pool : List Candidate) (seen : List String) (last : Option String)
      (continue : List Candidate → List String → Option String → Program Float (Pool F env cfg))
      → ((p : List Candidate) (s : List String) (l : Option String)
          → Keeps book.id 0 0 (continue p s l))
      → (a : Scraped (List Candidate))
      → Keeps book.id 0 0 (after_search F env cfg book name pool seen last continue a)
  unfolding after_search
  after_search-Keeps name pool seen last continue h not_implemented = h pool seen last
  after_search-Keeps name pool seen last continue h (failed e) =
      quietly book.id 0 0 _ _ (Keeps-log book.id env.kindle _ _ _ _) (λ u. h pool seen last)
  after_search-Keeps name pool seen last continue h (found []) =
      quietly book.id 0 0 _ _ (Keeps-log book.id env.kindle _ _ _ _) (λ u. h pool seen last)
  after_search-Keeps name pool seen last continue h (found (c ∷ cs)) =
      quietly book.id 0 0 _ _ (Keeps-get book.id) (λ s.
        Keeps-if book.id 0 0 _ _ _
          (quietly book.id 0 0 _ _ (Keeps-log book.id env.kindle _ _ _ _)
            (λ u. quietly book.id 0 0 _ _ stage_searched (λ v. Keeps-done book.id 0 0 _)))
          (quietly book.id 0 0 _ _ (Keeps-log book.id env.kindle _ _ _ _) (λ u. h _ _ _)))

  chain_exhausted-Keeps :
      (pool : List Candidate) (seen : List String) (last : Option String)
      → Keeps book.id 0 0 (chain_exhausted F env cfg book pool seen last)
  unfolding chain_exhausted
  chain_exhausted-Keeps [] seen last = Keeps-done book.id 0 0 _
  chain_exhausted-Keeps (c ∷ pool) seen last = quietly book.id 0 0 _ _ stage_searched (λ u.
      quietly book.id 0 0 _ _ (Keeps-log book.id env.kindle _ _ _ _)
        (λ v. Keeps-done book.id 0 0 _))

  search_loop-Keeps :
      (names : List String) (pool : List Candidate) (seen : List String) (last : Option String)
      → Keeps book.id 0 0 (search_loop F env cfg book names pool seen last)
  unfolding search_loop
  search_loop-Keeps [] pool seen last = chain_exhausted-Keeps pool seen last
  search_loop-Keeps (name ∷ names) pool seen last =
      quietly book.id 0 0 _ _ (Keeps-call book.id (λ n. env.search n name book)) (
        after_search-Keeps name pool seen last (search_loop F env cfg book names)
          (search_loop-Keeps names))

  after_context-Keeps : (year : ℕ) → Keeps book.id 0 0 (after_context F env cfg book year)
  unfolding after_context
  after_context-Keeps year =
      Keeps-if book.id 0 0 _ _ _
        (quietly book.id 0 0 _ _ (Keeps-log book.id env.kindle _ _ _ _)
          (λ u. quietly book.id 0 0 _ _ stage_searched (λ v. Keeps-done book.id 0 0 _)))
        (search_loop-Keeps (book_chain F env cfg year book) [] [] none)

  pub search_with_strategies-Keeps : Keeps book.id 0 0 (search_with_strategies F env cfg book)
  unfolding search_with_strategies
  search_with_strategies-Keeps =
      quietly book.id 0 0 _ _ (Keeps-call book.id env.year) after_context-Keeps

  persist-Keeps : (c : Candidate) (b : Score Float) → Keeps book.id 0 0 (persist F env cfg book c b)
  unfolding persist
  persist-Keeps c b = record { keep = λ s. Refines-same book.id 0 0 s _ refl refl }

  forget-Keeps : Keeps book.id 0 0 (forget F env cfg book)
  unfolding forget
  forget-Keeps = record { keep = λ s. Refines-same book.id 0 0 s _ refl refl }

  score_loop-Keeps : (cs : List Candidate) → Keeps book.id 0 0 (score_loop F env cfg book cs)
  unfolding score_loop
  score_loop-Keeps [] = Keeps-done book.id 0 0 _
  score_loop-Keeps (c ∷ cs) = quietly book.id 0 0 _ _ (Keeps-get book.id) (λ s.
      Keeps-if book.id 0 0 _ _ _ (score_loop-Keeps cs) (
        quietly book.id 0 0 _ _
          (persist-Keeps c (score_of F env cfg s.deliverable_max_bytes book c))
          (λ u. quietly book.id 0 0 _ _ (score_loop-Keeps cs) (λ v. Keeps-done book.id 0 0 _))))

  pub score_and_persist-Keeps :
      (cs : List Candidate) → Keeps book.id 0 0 (score_and_persist F env cfg book cs)
  unfolding score_and_persist
  score_and_persist-Keeps cs =
      quietly book.id 0 0 _ _ forget-Keeps
        (λ u. quietly book.id 0 0 _ _ (score_loop-Keeps cs) (λ v. Keeps-done book.id 0 0 _))
