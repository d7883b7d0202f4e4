-- ===== src/Pipeline/Refine/Effect.antt =====
-- What the rows of the table are after one run of `process_one`.

use biblichor.Prelude.{
  ℕ, ◌+◌, ◌≤◌, ◌≡◌, ◌≢◌, refl, ap, ◌∙◌, Bool, true, false, none, some, List, [], ◌∷◌, arith, All,
}
use biblichor.Prelude.Sql.{update_where}
use biblichor.Prelude.Number.{Floats}
use biblichor.Db.Books.Row.{Book, Books, has_id, get}
use biblichor.Db.Books.Queue.{
  claim_for_processing, set_failed, set_skipped, increment_attempts, mark_dedup,
}
use biblichor.Db.Books.Stages.{
  Stage, searched, downloaded, converted, delivered, stage_row, clear_row, set_status, mark_stage,
  clear_stages_from, set_tags, mark_kindled,
}
use biblichor.Db.Books.Ops.{Op, apply, run, resets, attempts_count_failures}
use biblichor.Pipeline.Run.{State, PipelineConfig, Services}
use biblichor.Pipeline.Process.{process_one}
use biblichor.Pipeline.Refine.{is_own, AllOwn}
use biblichor.Pipeline.Refine.Process.{process_one-Refines}

-- An UPDATE of no row of book `j` leaves that book.
get-update_where :
    (j : ℕ) (p : Book → Bool) (f : Book → Book) (t : Books)
    → ((x : Book) → (f x).id ≡ x.id)
    → ((x : Book) → has_id j x ≡ true → p x ≡ false)
    → get j (update_where p f t) ≡ get j t
unfolding get
get-update_where j p f [] same away = refl
get-update_where j p f (x ∷ t) same away =
    ground (arith, same x, away x, get-update_where j p f t same away)

away_from : (i j : ℕ) → j ≢ i → (x : Book) → has_id j x ≡ true → has_id i x ≡ false
away_from i j n x h = ground (arith, n)

stage_row-id : (now : ℕ) (s : Stage) (x : Book) → (stage_row now s x).id ≡ x.id
stage_row-id now searched x = refl
stage_row-id now downloaded x = refl
stage_row-id now converted x = refl
stage_row-id now delivered x = refl

clear_row-id : (now : ℕ) (s : Stage) (x : Book) → (clear_row now s x).id ≡ x.id
clear_row-id now searched x = refl
clear_row-id now downloaded x = refl
clear_row-id now converted x = refl
clear_row-id now delivered x = refl

get-apply_own :
    (i j now : ℕ) (op : Op) (t : Books)
    → j ≢ i
    → is_own i op ≡ true
    → get j (apply now op t) ≡ get j t
unfolding apply claim_for_processing set_failed set_skipped increment_attempts mark_dedup set_status
    mark_stage clear_stages_from set_tags mark_kindled
get-apply_own i j now (Op.claim k) t n h =
    get-update_where j _ _ t (λ x. refl) (λ x e. ground (arith, n))
get-apply_own i j now (Op.increment k) t n h =
    get-update_where j _ _ t (λ x. refl) (λ x e. ground (arith, n))
get-apply_own i j now (Op.research k) t n h = cc
get-apply_own i j now (Op.redownload k) t n h = cc
get-apply_own i j now (Op.fail k e) t n h =
    get-update_where j _ _ t (λ x. refl) (λ x e. ground (arith, n))
get-apply_own i j now (Op.skip k e) t n h =
    get-update_where j _ _ t (λ x. refl) (λ x e. ground (arith, n))
get-apply_own i j now (Op.zombies m) t n h = cc
get-apply_own i j now (Op.dedup k l m) t n h =
    get-update_where j _ _ t (λ x. refl) (λ x e. ground (arith, n))
get-apply_own i j now (Op.status k s a) t n h =
    get-update_where j _ _ t (λ x. refl) (λ x e. ground (arith, n))
get-apply_own i j now (Op.stage k s) t n h =
    get-update_where j _ _ t (λ x. stage_row-id now s x) (λ x e. ground (arith, n))
get-apply_own i j now (Op.clear k s) t n h =
    get-update_where j _ _ t (λ x. clear_row-id now s x) (λ x e. ground (arith, n))
get-apply_own i j now (Op.tag k none none) t n h = refl
get-apply_own i j now (Op.tag k (some a) b) t n h =
    get-update_where j _ _ t (λ x. refl) (λ x e. ground (arith, n))
get-apply_own i j now (Op.tag k none (some b)) t n h =
    get-update_where j _ _ t (λ x. refl) (λ x e. ground (arith, n))
get-apply_own i j now (Op.kindle k m) t n h =
    get-update_where j _ _ t (λ x. refl) (λ x e. ground (arith, n))

get-run_own :
    (i j : ℕ) (ops : List (ℕ × Op)) (t : Books) → j ≢ i → AllOwn i ops → get j (run ops t) ≡ get j t
unfolding run
get-run_own i j [] t n h = refl
get-run_own i j ((now, op) ∷ ops) t n h =
    get-run_own i j ops (apply now op t) n h.1 ∙ get-apply_own i j now op t n h.0

own_resets : (i : ℕ) (op : Op) → is_own i op ≡ true → resets i op ≡ false
own_resets i (Op.claim k) h = refl
own_resets i (Op.increment k) h = refl
own_resets i (Op.research k) h = cc
own_resets i (Op.redownload k) h = cc
own_resets i (Op.fail k e) h = refl
own_resets i (Op.skip k e) h = refl
own_resets i (Op.zombies m) h = cc
own_resets i (Op.dedup k l m) h = refl
own_resets i (Op.status k s a) h = refl
own_resets i (Op.stage k s) h = refl
own_resets i (Op.clear k s) h = refl
own_resets i (Op.tag k a b) h = refl
own_resets i (Op.kindle k m) h = refl

no_resets : (i : ℕ) (ops : List (ℕ × Op)) → AllOwn i ops → All (λ o. resets i o.1 ≡ false) ops
no_resets i [] h = tt
no_resets i ((now, op) ∷ ops) h = (own_resets i op h.0, no_resets i ops h.1)

module _ (F : Floats) (env : Services F) (cfg : PipelineConfig F) (batch : Bool) (book : Book)
    (s : State F.Float) where
  -- A run of `process_one` leaves every other book as it was.
  pub process_one_spares :
      (j : ℕ) → j ≢ book.id → get j (process_one F env cfg batch book s).1.books ≡ get j s.books
  process_one_spares j n =
      let r = process_one-Refines F env cfg batch book s in
      ap (get j) r.ran ∙ get-run_own book.id j r.ops s.books n r.own

  -- A run of `process_one` keeps the row of its book, and adds at most one to its attempts.
  pub process_one_attempts :
      (b : Book)
      → get book.id s.books ≡ some b
      → (b' : Book) × (get book.id (process_one F env cfg batch book s).1.books ≡ some b')
        × (b.attempts ≤ b'.attempts)
        × (b'.attempts ≤ b.attempts + 1)
  process_one_attempts b h =
      let r = process_one-Refines F env cfg batch book s in
      let (b', e, n) =
        attempts_count_failures book.id r.ops b s.books h (no_resets book.id r.ops r.own) in
      (b', ap (get book.id) r.ran ∙ e, omega (arith, n), omega (arith, n, r.failed))
