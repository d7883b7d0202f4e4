-- ===== src/Pipeline/Queue/Counts.antt =====
-- `process_queue` counts every pending book once.
use biblichor.Prelude.{
  some, ℕ, suc, ◌+◌, ◌≡◌, refl, ap, ◌∙◌, String, Bool, true, false, Option, none, List, [], ◌∷◌,
  map, length, arith, if-both,
}
use biblichor.Prelude.Number.{Floats}
use biblichor.Prelude.Text.{Text}
use biblichor.Prelude.Result.{Result, ok, err}
use biblichor.Db.Books.Row.{Book}
use biblichor.Db.Books.Queue.{pending}
use biblichor.Db.Books.Ops.{Op, apply}
use biblichor.Kindle.Pack.{first_failure, BookFile}
use biblichor.Kindle.Session.{World}
use biblichor.Kindle.Smtp.{DeliveryResult, read}
use biblichor.Kindle.Batch.{BatchError, key_error, deliver_batch}
use biblichor.Kindle.Batch.Total.{deliver_batch_total}
use biblichor.Pipeline.Run.{
  State, Notice, returned, PipelineConfig, Services, Program, then_run, ◌>>=◌, done, when, call,
  get, update, log, notify,
}
use biblichor.Pipeline.Download.{
  Final, sent, failed_, skipped_, needs_review_, in_flight_, needs_delivery, fail_with,
}
use biblichor.Pipeline.Deliver.{failure_of, record_delivery}
use biblichor.Pipeline.Process.{process_one}
use biblichor.Pipeline.Queue.{
  Tally, no_tally, total, count_final, Ready, sort_out, recover, run_book, run_books, ready_file,
  batch_answer, kindle_deliver_batch, record_results, deliver_ready, run_queue, with_mode,
  process_queue,
}

-- The program returns, with a value that has the property.
record Returns {S A : Type 0} (P : A → Type 0) (p : Program S A) : Type 0 where
  at : (s : State S) → (a : A) × ((p s).0 ≡ ok a) × P a

module _ {S : Type 0} where
  then_run-ok :
      {A B : Type 0} (f : A → Program S B) (a : A) (x : Result String A × State S)
      → x.0 ≡ ok a
      → then_run f x ≡ f a x.1
  then_run-ok f a (r, s) h = ap (λ r. then_run f (r, s)) h

  Returns-then :
      {A B : Type 0} (P : A → Type 0) (Q : B → Type 0) (p : Program S A) (f : A → Program S B)
      → Returns P p
      → ((a : A) → P a → Returns Q (f a))
      → Returns Q (p >>= f)
  unfolding ◌>>=◌
  Returns-then P Q p f h k = record {
    at = λ s.
        let (a, e, r) = h.at s in
        let (b, e', r') = (k a r).at (p s).1 in
        (b, ap (λ x. x.0) (then_run-ok f a (p s) e) ∙ e', r');
  }

  Returns-weaken :
      {A : Type 0} (P Q : A → Type 0) (p : Program S A)
      → ((a : A) → P a → Q a)
      → Returns P p
      → Returns Q p
  Returns-weaken P Q p f h = record { at = λ s. let (a, e, r) = h.at s in (a, e, f a r) }

  Returns-done : {A : Type 0} (P : A → Type 0) (a : A) → P a → Returns P (done {S = S} a)
  unfolding done
  Returns-done P a h = record { at = λ s. (a, refl, h) }

-- A final status that the tally counts.
abbrev IsCounted : Final → Type 0
IsCounted f = (t : Tally) → total (count_final f t) ≡ suc (total t)

sent-IsCounted : IsCounted sent
unfolding count_final
sent-IsCounted t = omega arith

failed-IsCounted : IsCounted failed_
unfolding count_final
failed-IsCounted t = omega arith

skipped-IsCounted : IsCounted skipped_
unfolding count_final
skipped-IsCounted t = omega arith

needs_review-IsCounted : IsCounted needs_review_
unfolding count_final
needs_review-IsCounted t = omega arith

in_flight-IsCounted : IsCounted in_flight_
unfolding count_final
in_flight-IsCounted t = omega arith

sort_out-total :
    (rs : List (Book × Final)) (ready : List Ready) (t : Tally)
    → let (ready', t') = sort_out rs (ready, t) in
      length ready' + total t' ≡ length rs + length ready + total t
unfolding sort_out
sort_out-total [] ready t = omega arith
sort_out-total ((b, needs_delivery path) ∷ rs) ready t = omega (arith, sort_out-total rs ready t)
sort_out-total ((b, sent) ∷ rs) ready t =
    omega (arith, sort_out-total rs ready (count_final sent t), sent-IsCounted t)
sort_out-total ((b, failed_) ∷ rs) ready t =
    omega (arith, sort_out-total rs ready (count_final failed_ t), failed-IsCounted t)
sort_out-total ((b, skipped_) ∷ rs) ready t =
    omega (arith, sort_out-total rs ready (count_final skipped_ t), skipped-IsCounted t)
sort_out-total ((b, needs_review_) ∷ rs) ready t =
    omega (arith, sort_out-total rs ready (count_final needs_review_ t), needs_review-IsCounted t)
sort_out-total ((b, in_flight_) ∷ rs) ready t =
    omega (arith, sort_out-total rs ready (count_final in_flight_ t), in_flight-IsCounted t)

module _ (F : Floats) (env : Services F) (cfg : PipelineConfig F) where
  open F use {Float}

  abbrev Any : {A : Type 0} → A → Type 0
  Any a = Unit {0}

  update-Returns : (op : Op) → Returns Any (update {S = Float} env.kindle op)
  unfolding update
  update-Returns op = record { at = λ s. (tt, refl, tt) }

  notify-Returns : (n : Notice) → Returns Any (notify {S = Float} n)
  unfolding notify
  notify-Returns n = record { at = λ s. (tt, refl, tt) }

  fail_with-Returns : (b : Book) (e : String) → Returns IsCounted (fail_with F env b e failed_)
  unfolding fail_with
  fail_with-Returns b e =
      Returns-then Any IsCounted _ _ (update-Returns _)
        (λ u v. Returns-done IsCounted failed_ failed-IsCounted)

  recover-ok :
      (b : Book) (x : Result String Final × State Float)
      → (f : Final) × ((recover F env cfg b x).0 ≡ ok f)
  unfolding recover
  recover-ok b (ok f, s) = (f, refl)
  recover-ok b (err e, s) = let (f, h, c) = (fail_with-Returns b _).at s in (f, h)

  run_book-Returns : (batch : Bool) (b : Book) → Returns Any (run_book F env cfg batch b)
  unfolding run_book
  run_book-Returns batch b = record {
    at = λ s. let (f, h) = recover-ok b (process_one F env cfg batch b s) in (f, h, tt);
  }

  run_books-Returns :
      (batch : Bool) (bs : List Book)
      → Returns (λ rs. length rs ≡ length bs) (run_books F env cfg batch bs)
  unfolding run_books
  run_books-Returns batch [] = Returns-done _ [] refl
  run_books-Returns batch (b ∷ bs) = Returns-then Any _ _ _ (run_book-Returns batch b) (λ f u.
      Returns-then (λ rs. length rs ≡ length bs) _ _ _ (run_books-Returns batch bs)
        (λ rest h. Returns-done _ _ (ap suc h)))

  when-log-Returns :
      (b : Bool) (i : Option ℕ) (kind m : String)
      → Returns Any (when b (log {S = Float} env.kindle i kind none m))
  unfolding when log done
  when-log-Returns true i kind m = record { at = λ s. (tt, refl, tt) }
  when-log-Returns false i kind m = record { at = λ s. (tt, refl, tt) }

  record_delivery-Returns :
      (b : Book) (path : String) (r : DeliveryResult)
      → Returns IsCounted (record_delivery F env cfg b path r)
  unfolding record_delivery
  record_delivery-Returns b path r =
      if-both (Returns IsCounted) r.succeeded _ _
        (λ yes_. Returns-then Any IsCounted _ _ (update-Returns _) (λ u v.
          Returns-then Any IsCounted _ _ (when-log-Returns _ _ _ _) (λ u v.
            Returns-then Any IsCounted _ _ (notify-Returns _)
              (λ u v. Returns-done IsCounted sent sent-IsCounted))))
        (λ no_. fail_with-Returns b _)

  record_results-Returns :
      (ready : List Ready) (rs : List DeliveryResult) (t : Tally)
      → length rs ≡ length ready
      → Returns (λ t'. total t' ≡ length ready + total t) (record_results F env cfg ready rs t)
  unfolding record_results
  record_results-Returns [] rs t h = Returns-done _ t (omega arith)
  record_results-Returns ((b, path) ∷ ready) [] t h = absurd (omega (arith, h))
  record_results-Returns ((b, path) ∷ ready) (r ∷ rs) t h =
      Returns-then IsCounted _ _ _ (record_delivery-Returns b path r) (λ f counted.
        Returns-weaken _ _ _ (λ t' e. omega (arith, e, counted t))
          (record_results-Returns ready rs (count_final f t) (omega (arith, h))))

  length-map : (f : Ready → BookFile) (ready : List Ready) → length (map f ready) ≡ length ready
  length-map f [] = refl
  length-map f (r ∷ ready) = ap suc (length-map f ready)

  abbrev length_or : Result BatchError (List DeliveryResult) → ℕ
  length_or (ok rs) = length rs
  length_or (err i) = 0

  batch_answer-ok :
      (s : State Float) (n : ℕ) (x : Result BatchError (List DeliveryResult) × World)
      → (rs : List DeliveryResult) × (x.0 ≡ ok rs) × (length rs ≡ n)
      → (rs : List DeliveryResult) × ((batch_answer F env cfg s x).0 ≡ ok rs) × (length rs ≡ n)
  unfolding batch_answer
  batch_answer-ok s n (ok rs, w) (rs', e, h) = (rs, refl, ap length_or e ∙ h)
  batch_answer-ok s n (err (key_error i), w) (rs', e, h) = cc
  batch_answer-ok s n (err (BatchError.raised m), w) (rs', e, h) = cc

  no_gate_failure :
      (cap : Option ℕ) (n : ℕ)
      → env.kindle.quota_failure n ≡ none
      → (elim cap [ none ↦ none | some c ↦ env.kindle.quota_failure n ]) ≡ none
  no_gate_failure none n h = refl
  no_gate_failure (some c) n h = h

  -- The secrets, the quotas and the sizes of the files can be read, and the router's events inserted,
  -- at any time.
  abbrev pub IsReadable : Type 0
  IsReadable =
      ((n : ℕ) → env.kindle.secrets_failure n ≡ none)
      × ((n : ℕ) → env.kindle.quota_failure n ≡ none)
      × ((n : ℕ) → env.kindle.insert_failure n ≡ none)
      × ((n : ℕ) (t : Text) → env.kindle.lost n t ≡ none)
      × ((n : ℕ) (path : String) → failure_of (env.size_of n path) ≡ none)

  no_first_failure :
      (n : ℕ) (ready : List Ready)
      → ((path : String) → failure_of (env.size_of n path) ≡ none)
      → first_failure (map (ready_file F env cfg (env.size_of n)) ready) ≡ none
  no_first_failure n [] h = refl
  no_first_failure n ((b, path) ∷ ready) h = rw (h path) (no_first_failure n ready h)

  kindle_deliver_batch-Returns :
      IsReadable
      → (ready : List Ready)
      → Returns (λ rs. length rs ≡ length ready) (kindle_deliver_batch F env cfg ready)
  unfolding kindle_deliver_batch
  kindle_deliver_batch-Returns can ready = record {
    at = λ s.
        let files = map (ready_file F env cfg (env.size_of s.world.reads)) ready in
        let (rs, e, h) =
          deliver_batch_total env.kindle cfg.router files s.world can.2 can.3 (can.0 _)
            (no_gate_failure cfg.router.daily_cap _ (can.1 _))
            (no_first_failure s.world.reads ready (can.4 s.world.reads)) in
        batch_answer-ok s (length ready) (deliver_batch env.kindle cfg.router files s.world)
          (rs, e, h ∙ length-map (ready_file F env cfg (env.size_of s.world.reads)) ready);
  }

  deliver_ready-Returns :
      IsReadable
      → (ready : List Ready) (t : Tally)
      → Returns (λ t'. total t' ≡ length ready + total t) (deliver_ready F env cfg (ready, t))
  unfolding deliver_ready
  deliver_ready-Returns can [] t = Returns-done _ t (omega arith)
  deliver_ready-Returns can (r ∷ ready) t =
      Returns-then (λ rs. length rs ≡ length (r ∷ ready)) _ _ _
        (kindle_deliver_batch-Returns can (r ∷ ready))
        (λ rs h. record_results-Returns (r ∷ ready) rs t h)

  run_queue-Returns :
      IsReadable
      → (batch : Bool) (books : List Book)
      → Returns (λ t. total t ≡ length books) (run_queue F env cfg batch books)
  unfolding run_queue
  run_queue-Returns can batch books =
      Returns-then (λ rs. length rs ≡ length books) _ _ _ (run_books-Returns batch books)
        (λ rs h.
          Returns-weaken _ _ _ (λ t e. omega (arith, e, h, sort_out-total rs [] no_tally))
            (deliver_ready-Returns can (sort_out rs ([], no_tally)).0
              (sort_out rs ([], no_tally)).1))

  -- In the serial mode, where one book runs after another, if the check for STK returns, the router
  -- can read the secrets, the quotas and the sizes of the files and insert its events whenever it
  -- asks, and no other statement on the database fails, then `process_queue` returns, whatever its
  -- books, crashes of their runs and failed deliveries do, and its tally counts every book that was
  -- pending after the sweep exactly once.
  pub process_queue_counts :
      (s : State Float) (batch : Bool)
      → IsReadable
      → env.stk_configured (suc s.world.reads) ≡ returned batch
      → (t : Tally) × ((process_queue F env cfg s).0 ≡ ok t)
        × (total t
            ≡ length (
                pending cfg.max_attempts (
                  apply
                    (env.kindle.now s.world.reads)
                    (Op.zombies cfg.zombie_stale_minutes)
                    s.books)))
  unfolding process_queue with_mode ◌>>=◌ update call get
  process_queue_counts s batch can h =
      let t = apply (env.kindle.now s.world.reads) (Op.zombies cfg.zombie_stale_minutes) s.books in
      let s' : State Float = record s { books = t; world = read (read s.world) } in
      let (a, e, r) = (run_queue-Returns can batch (pending cfg.max_attempts t)).at s' in
      (a, ap (λ x. (with_mode F env cfg x s').0) h ∙ e, r)
