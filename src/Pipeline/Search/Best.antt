-- ===== src/Pipeline/Search/Best.antt =====
-- The candidates that `_score_and_persist` leaves.
use biblichor.Prelude.{
  ℕ, String, ◌≡◌, refl, true, false, Option, none, some, List, [], ◌∷◌, All, if-both,
}
use mathlib.Core.Path.{subst}
use biblichor.Prelude.Number.{Floats}
use biblichor.Prelude.Result.{Result, ok, err}
use biblichor.Db.Books.Row.{Book}
use biblichor.Db.Candidates.{Candidate}
use biblichor.Domain.Scoring.{SkipReason}
use biblichor.Domain.Scoring.Skips.{Passes, score_candidate-Passes}
use biblichor.Pipeline.Run.{State, PipelineConfig, Services, Program, then_run, ◌>>=◌, done, get}
use biblichor.Pipeline.Search.{
  Scored, query_of, is_skipped, score_of, insert_scored, sort_scored, persist, forget, score_loop,
  score_and_persist,
}

module _ (F : Floats) (env : Services F) (cfg : PipelineConfig F) where
  open F use {Float, le, le_refl, le_trans, le_total}

  -- From the highest total to the lowest.
  abbrev pub IsDescending : List (Scored F env cfg) → Type 0
  IsDescending [] = Unit
  IsDescending (x ∷ xs) = All (λ y. le y.1.total x.1.total ≡ true) xs × IsDescending xs

  All-insert :
      (P : Scored F env cfg → Type 0) (x : Scored F env cfg) (xs : List (Scored F env cfg))
      → P x
      → All P xs
      → All P (insert_scored F env cfg x xs)
  All-insert P x [] p h = (p, tt)
  All-insert P x (y ∷ ys) p h =
      if-both (All P) (le y.1.total x.1.total) _ _ (λ e. (p, h))
        (λ e. (h.0, All-insert P x ys p h.1))

  All-sort :
      (P : Scored F env cfg → Type 0) (xs : List (Scored F env cfg))
      → All P xs
      → All P (sort_scored F env cfg xs)
  All-sort P [] h = tt
  All-sort P (x ∷ xs) h = All-insert P x _ h.0 (All-sort P xs h.1)

  All-below :
      (a b : Float) (xs : List (Scored F env cfg))
      → le a b ≡ true
      → All (λ y. le y.1.total a ≡ true) xs
      → All (λ y. le y.1.total b ≡ true) xs
  All-below a b [] h k = tt
  All-below a b (x ∷ xs) h k = (le_trans x.1.total a b k.0 h, All-below a b xs h k.1)

  insert-IsDescending :
      (x : Scored F env cfg) (xs : List (Scored F env cfg))
      → IsDescending xs
      → IsDescending (insert_scored F env cfg x xs)
  insert-IsDescending x [] h = (tt, tt)
  insert-IsDescending x (y ∷ ys) h =
      if-both IsDescending (le y.1.total x.1.total) _ _
        (λ e. ((e, All-below y.1.total x.1.total ys e h.0), h))
        (λ e. (
          All-insert (λ z. le z.1.total y.1.total ≡ true) x ys (le_total _ _ e) h.0,
          insert-IsDescending x ys h.1,
        ))

  sort-IsDescending : (xs : List (Scored F env cfg)) → IsDescending (sort_scored F env cfg xs)
  sort-IsDescending [] = tt
  sort-IsDescending (x ∷ xs) = insert-IsDescending x _ (sort-IsDescending xs)

  module _ (book : Book) (cap : Option ℕ) where
    -- The candidate of a pair passes the skips for the book and the cap.
    abbrev pub IsFit : Scored F env cfg → Type 0
    IsFit x = Passes F env.score_ops cfg.scoring cap x.0 (query_of F env cfg book)

    abbrev AllFit : Result String (List (Scored F env cfg)) × State Float → Type 0
    AllFit (ok xs, s) = All IsFit xs
    AllFit (err e, s) = true ≡ false

    -- From a state with the cap, the program returns fitting candidates.
    record Leaves (p : Program Float (List (Scored F env cfg))) : Type 0 where
      at : (s : State Float) → s.deliverable_max_bytes ≡ cap → AllFit (p s)

    fit : (o : Option SkipReason) → is_skipped F env cfg o ≡ false → o ≡ none
    fit none h = refl
    fit (some r) h = cc

    score_of-IsFit :
        (c : Candidate)
        → (score_of F env cfg cap book c).is_hard_skip ≡ false
        → IsFit (c, score_of F env cfg cap book c)
    unfolding score_of
    score_of-IsFit c h =
        score_candidate-Passes F env.score_ops cfg.scoring cap c (query_of F env cfg book) _
          (fit _ h)

    cons-AllFit :
        (x : Scored F env cfg) (r : Result String (List (Scored F env cfg)) × State Float)
        → IsFit x
        → AllFit r
        → AllFit (then_run (λ rest. done (x ∷ rest)) r)
    unfolding done
    cons-AllFit x (ok xs, s) h k = (h, k)
    cons-AllFit x (err e, s) h k = k

    score_loop-Leaves : (cs : List Candidate) → Leaves (score_loop F env cfg book cs)
    unfolding score_loop ◌>>=◌ get done persist
    score_loop-Leaves [] = record { at = λ s h. tt }
    score_loop-Leaves (c ∷ cs) = record {
      at = λ s h.
          let b = score_of F env cfg s.deliverable_max_bytes book c in
          (if-both {A = Program Float (List (Scored F env cfg))} Leaves b.is_hard_skip
              (score_loop F env cfg book cs)
              (persist F env cfg book c b
                >>= (λ u. score_loop F env cfg book cs >>= (λ rest. done ((c, b) ∷ rest))))
              (λ e. score_loop-Leaves cs)
              (λ e. record {
                at = λ s' h'.
                    cons-AllFit (c, b) _
                      (score_of-IsFit c
                        (subst (λ k. (score_of F env cfg k book c).is_hard_skip ≡ false) h e))
                      ((score_loop-Leaves cs).at _ h');
              })).at
            s h;
    }

    sorted-AllFit :
        (r : Result String (List (Scored F env cfg)) × State Float)
        → AllFit r
        → (xs : List (Scored F env cfg)) × ((then_run (λ xs. done (sort_scored F env cfg xs)) r).0
            ≡ ok xs)
          × All IsFit xs
          × IsDescending xs
    unfolding done
    sorted-AllFit (ok xs, s) h =
        (sort_scored F env cfg xs, refl, All-sort IsFit xs h, sort-IsDescending xs)
    sorted-AllFit (err e, s) h = cc

  -- `_score_and_persist` returns, with candidates from the highest total to the lowest, none of them
  -- an audio book, a derivative, in another script than the title or larger than the cap of the state.
  pub score_and_persist_best :
      (book : Book) (cands : List Candidate) (s : State Float)
      → (xs : List (Scored F env cfg)) × ((score_and_persist F env cfg book cands s).0 ≡ ok xs)
        × All (IsFit book s.deliverable_max_bytes) xs
        × IsDescending xs
  unfolding score_and_persist ◌>>=◌ forget
  score_and_persist_best book cands s =
      sorted-AllFit book s.deliverable_max_bytes _
        ((score_loop-Leaves book s.deliverable_max_bytes cands).at _ refl)
