-- ===== src/Pipeline/Poll/Added.antt =====
-- A poll appends to the table as many rows as it says.
use biblichor.Prelude.{
  ℕ, suc, ◌+◌, ◌≡◌, sym, String, true, false, Option, none, some, List, [], ◌∷◌, ◌++◌, length, ltb,
  if-both,
}
use mathlib.Core.Path.{subst}
use biblichor.Prelude.Result.{ok}
use biblichor.Db.Books.Row.{Books}
use biblichor.Db.Books.Upsert.{NewBook, upsert, count}
use biblichor.Db.Sources.{SourceAccount}
use biblichor.Kindle.Session.{Env}
use biblichor.Pipeline.Run.{State, Answer, returned, raised, crashed, Program}
use biblichor.Pipeline.Poll.Growth.{
  GrownBy, GrownBy-same, GrownBy-trans, upsert-Upserted, Midway, Midway-new, Midway-old,
}
use biblichor.Pipeline.Hoare.{
  Post-weaken, Post, Hoare, Hoare-then, Hoare-done, Hoare-log, Hoare-call, Hoare-get, Hoare-if,
}
use biblichor.Pipeline.Poll.{
  BookRef, SourceServices, backfill, new_book, log_added, upsert_result, upsert_book, after_upsert,
  add_ref, add_refs, mark_polled, after_list, poll_account, poll_source_account, poll_each,
  poll_sources, failed_poll,
}

module _ {S : Type 0} (env : Env) (src : SourceServices) where
  backfill-Hoare :
      (P : Books → Type 0) (ref : BookRef) → Hoare P (backfill {S = S} env src ref) (λ a. P)
  unfolding backfill
  backfill-Hoare P ref =
      Hoare-if P (λ a. P) _ _ _
        (Hoare-then P (λ a. P) (λ a. P) _ _ (Hoare-call P _)
          (λ a. Hoare-done P (λ a. P) _ (λ t o. o)))
        (Hoare-done P (λ a. P) _ (λ t o. o))

  upsert_result-Post :
      (P : Books → Type 0) (r : Option ℕ × Books) (s : State S)
      → P r.1
      → Post (λ a. P) (upsert_result env src r s)
  unfolding upsert_result
  upsert_result-Post P (some i, t) s h = h
  upsert_result-Post P (none, t) s h = tt

  upsert_book-Hoare :
      (t u : Books) (n : ℕ) (b : NewBook)
      → Hoare (λ v. GrownBy t n v × (u ≡ v)) (upsert_book {S = S} env src b) (λ i v. Midway t n u v)
  unfolding upsert_book
  upsert_book-Hoare t u n b = record {
    at = λ s o.
        upsert_result-Post (λ v. Midway t n u v) _ s
          (subst (λ w. Midway t n w (upsert (env.now s.world.reads) b s.books).1) (sym o.1)
            (o.0, upsert-Upserted _ b s.books));
  }

  log_added-Hoare :
      (P : Books → Type 0) (ref : BookRef) (i : ℕ)
      → Hoare P (log_added {S = S} env src ref i) (λ a. P)
  unfolding log_added
  log_added-Hoare P ref i = record { at = λ s o. o }

  after_upsert-Hoare :
      (t u w : Books) (n : ℕ) (ref : BookRef) (i : ℕ)
      → Hoare
          (λ v. Midway t n u v × (w ≡ v))
          (after_upsert {S = S} env src ref (length u) n i (length w))
          (λ a. GrownBy t a)
  unfolding after_upsert
  after_upsert-Hoare t u w n ref i =
      if-both {A = Program S ℕ} (λ p. Hoare (λ v. Midway t n u v × (w ≡ v)) p (λ a. GrownBy t a))
        (ltb (length u) (length w)) _ _
        (λ h.
          Hoare-then _ (λ a v. Midway t n u v × (w ≡ v)) _ _ _ (log_added-Hoare _ ref i)
            (λ a.
              Hoare-done _ (λ a. GrownBy t a) (suc n)
                (λ v o.
                  Midway-new t u v n o.0 (subst (λ x. ltb (length u) (length x) ≡ true) o.1 h))))
        (λ h.
          Hoare-done _ (λ a. GrownBy t a) n
            (λ v o. Midway-old t u v n o.0 (subst (λ x. ltb (length u) (length x) ≡ false) o.1 h)))

  add_ref-Hoare :
      (t : Books) (n : ℕ) (ref : BookRef)
      → Hoare (GrownBy t n) (add_ref {S = S} env src n ref) (λ a. GrownBy t a)
  unfolding add_ref count
  add_ref-Hoare t n ref =
      Hoare-then (GrownBy t n) (λ s v. GrownBy t n v × (s.books ≡ v)) _ _ _ (Hoare-get _)
        (λ s.
          Hoare-then _ (λ a v. GrownBy t n v × (s.books ≡ v)) _ _ _ (backfill-Hoare _ ref)
            (λ isbn.
              Hoare-then _ (λ i v. Midway t n s.books v) _ _ _
                (upsert_book-Hoare t s.books n (new_book ref isbn))
                (λ i.
                  Hoare-then _ (λ s' v. Midway t n s.books v × (s'.books ≡ v)) _ _ _ (Hoare-get _)
                    (λ s'. after_upsert-Hoare t s.books s'.books n ref i))))

  add_refs-Hoare :
      (t : Books) (n : ℕ) (refs : List BookRef)
      → Hoare (GrownBy t n) (add_refs {S = S} env src n refs) (λ a. GrownBy t a)
  unfolding add_refs
  add_refs-Hoare t n [] = Hoare-done _ (λ a. GrownBy t a) n (λ v o. o)
  add_refs-Hoare t n (ref ∷ refs) =
      Hoare-then _ (λ a. GrownBy t a) _ _ _ (add_ref-Hoare t n ref) (λ a. add_refs-Hoare t a refs)

  failed_poll-Hoare :
      (t : Books) (a : SourceAccount) (e : String)
      → Hoare (GrownBy t 0) (failed_poll {S = S} env src a e) (λ n. GrownBy t n)
  failed_poll-Hoare t a e =
      Hoare-then _ (λ u. GrownBy t 0) _ _ _ (Hoare-log _ env _ _ _ _)
        (λ u. Hoare-done _ (λ n. GrownBy t n) 0 (λ v o. o))

  mark_polled-Hoare :
      (P : Books → Type 0) (i : ℕ) → Hoare P (mark_polled {S = S} env src i) (λ u. P)
  unfolding mark_polled
  mark_polled-Hoare P i = record { at = λ s o. o }

  after_list-Hoare :
      (t : Books) (a : SourceAccount) (answer : Answer (List BookRef))
      → Hoare (GrownBy t 0) (after_list {S = S} env src a answer) (λ n. GrownBy t n)
  unfolding after_list
  after_list-Hoare t a (raised e) = failed_poll-Hoare t a e
  after_list-Hoare t a (crashed e) = failed_poll-Hoare t a e
  after_list-Hoare t a (returned refs) =
      Hoare-then _ (λ n. GrownBy t n) _ _ _ (add_refs-Hoare t 0 refs)
        (λ n.
          Hoare-then _ (λ u. GrownBy t n) _ _ _ (mark_polled-Hoare _ a.id)
            (λ u. Hoare-done _ (λ n. GrownBy t n) n (λ v o. o)))

  poll_account-Hoare :
      (t : Books) (o : Option SourceAccount)
      → Hoare (GrownBy t 0) (poll_account {S = S} env src o) (λ n. GrownBy t n)
  unfolding poll_account
  poll_account-Hoare t none = Hoare-done _ (λ n. GrownBy t n) 0 (λ v o. o)
  poll_account-Hoare t (some a) =
      Hoare-if _ (λ n. GrownBy t n) _ _ _ (Hoare-done _ (λ n. GrownBy t n) 0 (λ v o. o))
        (Hoare-then _ (λ s v. GrownBy t 0 v × (s.books ≡ v)) _ _ _ (Hoare-get _)
          (λ s.
            Hoare-then _ (λ r. GrownBy t 0) _ _ _
              (record { at = λ s o. (Hoare-call (GrownBy t 0) _).at s o.0 })
              (λ r. after_list-Hoare t a r)))

  poll_source_account-Hoare :
      (t : Books) (i : ℕ)
      → Hoare (GrownBy t 0) (poll_source_account {S = S} env src i) (λ n. GrownBy t n)
  unfolding poll_source_account
  poll_source_account-Hoare t i =
      Hoare-then _ (λ s v. GrownBy t 0 v × (s.books ≡ v)) _ _ _ (Hoare-get _)
        (λ s. record { at = λ s' o. (poll_account-Hoare t _).at s' o.0 })

  -- From a table that has grown already.
  poll-Hoare :
      (t : Books) (m i : ℕ)
      → Hoare (GrownBy t m) (poll_source_account {S = S} env src i) (λ n. GrownBy t (m + n))
  poll-Hoare t m i = record {
    at = λ s o.
        Post-weaken (λ n. GrownBy s.books n) (λ n. GrownBy t (m + n)) _
          (λ n v k. GrownBy-trans t s.books v m n o k)
          ((poll_source_account-Hoare s.books i).at s (GrownBy-same s.books));
  }

  poll_each-Hoare :
      (t : Books) (m : ℕ) (accounts : List SourceAccount)
      → Hoare (GrownBy t m) (poll_each {S = S} env src m accounts) (λ n. GrownBy t n)
  unfolding poll_each
  poll_each-Hoare t m [] = Hoare-done _ (λ n. GrownBy t n) m (λ v o. o)
  poll_each-Hoare t m (a ∷ accounts) =
      Hoare-then _ (λ n. GrownBy t (m + n)) _ _ _ (poll-Hoare t m a.id)
        (λ n. poll_each-Hoare t (m + n) accounts)

  -- Where `poll_sources` returns a number, it is the number of the rows that the table has more, all
  -- of them after the rows that were there, which are as they were.
  pub poll_sources_appends :
      (s : State S) (n : ℕ)
      → (poll_sources env src s).0 ≡ ok n
      → (new : Books) × ((poll_sources env src s).1.books ≡ s.books ++ new) × (length new ≡ n)
  unfolding poll_sources
  poll_sources_appends s n h =
      subst (λ r. Post (λ n. GrownBy s.books n) (r, (poll_sources env src s).1)) h
        ((Hoare-then (GrownBy s.books 0) (λ s' v. GrownBy s.books 0 v × (s'.books ≡ v)) _ _ _
            (Hoare-get _) (λ s'. record { at = λ s o. (poll_each-Hoare _ 0 _).at s o.0 })).at
          s (GrownBy-same s.books))
