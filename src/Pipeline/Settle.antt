-- ===== src/Pipeline/Settle.antt =====
-- The status that a run of `process_one` returns, and the status that the table has then: the
-- rules, and the runs from the delivery backwards.
pub mod Process
use biblichor.Prelude.{
  ℕ, ◌≡◌, refl, String, Bool, true, false, Option, none, some, List, [], ◌∷◌, All, arith,
  if◌then◌else◌, if-both,
}
use biblichor.Prelude.Sql.{update_where}
use biblichor.Prelude.Number.{Floats}
use biblichor.Prelude.Text.{codes}
use biblichor.Prelude.Path.{file_suffix}
use biblichor.Prelude.Result.{Result, ok, err}
use biblichor.Domain.Status.{Status, kindled, failed, needs_review}
use biblichor.Domain.FormatRouter.{FormatAction, send_native, convert, skip, decide_format_action}
use biblichor.Db.Books.Row.{Book, Books, has_id}
use biblichor.Db.Books.Queue.{set_failed}
use biblichor.Db.Books.Stages.{StatusArgs, set_status, mark_kindled}
use biblichor.Db.Books.Ops.{Op, apply}
use biblichor.Kindle.Session.{Env}
use biblichor.Kindle.Smtp.{DeliveryResult}
use biblichor.Pipeline.Run.{
  State, Notice, Answer, returned, raised, crashed, PipelineConfig, Services, Program, then_run,
  ◌>>=◌, done, raise, when, call, update, log, notify,
}
use biblichor.Pipeline.Hoare.{
  Hoare, Always, Post, always-Post, Hoare-then, Hoare-done, Hoare-log, Hoare-notify, Hoare-when,
}
use biblichor.Pipeline.Download.{
  Final, sent, failed_, skipped_, needs_review_, in_flight_, needs_delivery, fail_with,
  search_fail_or_skip,
}
use biblichor.Pipeline.Convert.{
  Sized, after_convert, after_exists, convert_step, enrich_step, rescue_step, compress_step,
}
use biblichor.Pipeline.Deliver.{
  after_stk, oversize_step, library_step, record_delivery, kindle_deliver, send_step,
  send_file_step, after_convert_step, process_from_downloaded,
}

-- Every row of book `i` has the status.
abbrev pub HasStatus : ℕ → Status → Books → Type 0
HasStatus i st t = All (λ (b : Book). has_id i b ≡ true → b.status ≡ st) t

-- What the table says of book `i` when the run returned.
abbrev pub SettledAs : ℕ → Final → Books → Type 0
SettledAs i sent t = HasStatus i kindled t
SettledAs i failed_ t = HasStatus i failed t
SettledAs i needs_review_ t = HasStatus i needs_review t
SettledAs i skipped_ t = Unit
SettledAs i in_flight_ t = Unit
SettledAs i (needs_delivery path) t = Unit

-- From any table the status that the program returns is the one in the table.
abbrev pub Ends : {S : Type 0} → ℕ → Program S Final → Type 0
Ends i p = Hoare Always p (SettledAs i)

module _ {S : Type 0} where
  -- Whatever comes first, the rest decides.
  pub Ends-then :
      {A : Type 0} (i : ℕ) (p : Program S A) (f : A → Program S Final)
      → ((a : A) → Ends i (f a))
      → Ends i (p >>= f)
  Ends-then i p f k =
      Hoare-then Always (λ a t. Unit {0}) (SettledAs i) p f
        (record { at = λ s o. always-Post (p s) }) k

  pub Ends-if :
      (i : ℕ) (b : Bool) (x y : Program S Final) → Ends i x → Ends i y → Ends i (if b then x else y)
  Ends-if i true x y h k = h
  Ends-if i false x y h k = k

  pub Ends-skipped : (i : ℕ) → Ends i (done {S = S} skipped_)
  Ends-skipped i = Hoare-done Always (SettledAs i) skipped_ (λ t o. tt)

  pub Ends-raise : (i : ℕ) (e : String) → Ends i (raise {S = S} {A = Final} e)
  unfolding raise
  Ends-raise i e = record { at = λ s o. tt }

update_where-HasStatus :
    (i : ℕ) (st : Status) (f : Book → Book) (t : Books)
    → ((x : Book) → (f x).status ≡ st)
    → HasStatus i st (update_where (has_id i) f t)
update_where-HasStatus i st f [] h = tt
update_where-HasStatus i st f (x ∷ t) h = (written, update_where-HasStatus i st f t h)
  where
    written :
        has_id i (if has_id i x then f x else x) ≡ true
        → (if has_id i x then f x else x).status ≡ st
    written = ground (arith, h x)

module _ {S : Type 0} (env : Env) (i : ℕ) where
  pub fail-HasStatus :
      (e : String) → Hoare Always (update {S = S} env (Op.fail i e)) (λ u. HasStatus i failed)
  unfolding update apply set_failed
  fail-HasStatus e = record { at = λ s o. update_where-HasStatus i failed _ s.books (λ x. refl) }

  pub kindle-HasStatus :
      (m : Option String)
      → Hoare Always (update {S = S} env (Op.kindle i m)) (λ u. HasStatus i kindled)
  unfolding update apply mark_kindled
  kindle-HasStatus m = record { at = λ s o. update_where-HasStatus i kindled _ s.books (λ x. refl) }

  pub review-HasStatus :
      (a : StatusArgs)
      → Hoare Always
          (update {S = S} env (Op.status i needs_review a))
          (λ u. HasStatus i needs_review)
  unfolding update apply set_status
  review-HasStatus a = record {
    at = λ s o. update_where-HasStatus i needs_review _ s.books (λ x. refl);
  }

module _ (F : Floats) (env : Services F) (cfg : PipelineConfig F) (book : Book) where
  open F use {Float}

  pub fail_with-Ends : (e : String) → Ends book.id (fail_with F env book e failed_)
  unfolding fail_with
  fail_with-Ends e =
      Hoare-then Always (λ u. HasStatus book.id failed) _ _ _ (fail-HasStatus env.kindle book.id e)
        (λ u. Hoare-done _ _ failed_ (λ t o. o))

  pub search_fail_or_skip-Ends : (e : String) → Ends book.id (search_fail_or_skip F env cfg book e)
  unfolding search_fail_or_skip
  search_fail_or_skip-Ends e =
      Ends-if book.id _ _ _
        (Ends-then book.id _ _ (λ u. Ends-then book.id _ _ (λ v. Ends-skipped book.id)))
        (fail_with-Ends e)

  record_delivery-Ends :
      (path : String) (r : DeliveryResult) → Ends book.id (record_delivery F env cfg book path r)
  unfolding record_delivery
  record_delivery-Ends path r =
      Ends-if book.id _ _ _
        (Hoare-then Always (λ u. HasStatus book.id kindled) _ _ _
          (kindle-HasStatus env.kindle book.id _)
          (λ u.
            Hoare-then (HasStatus book.id kindled) (λ v. HasStatus book.id kindled) _ _ _
              (Hoare-when _ _ _ (Hoare-log _ env.kindle _ _ _ _))
              (λ v.
                Hoare-then (HasStatus book.id kindled) (λ v. HasStatus book.id kindled) _ _ _
                  (Hoare-notify _ _) (λ w. Hoare-done _ _ sent (λ t o. o)))))
        (fail_with-Ends _)

  send_step-Ends :
      (batch : Bool) (path : String) → Ends book.id (send_step F env cfg batch book path)
  unfolding send_step
  send_step-Ends true path = Hoare-done Always (SettledAs book.id) (needs_delivery path) (λ t o. tt)
  send_step-Ends false path = Ends-then book.id _ _ (record_delivery-Ends path)

  send_file_step-Ends :
      (batch : Bool) (path : String) → Ends book.id (send_file_step F env cfg batch book path)
  unfolding send_file_step
  send_file_step-Ends batch path = Ends-then book.id _ _ (λ u. send_step-Ends batch path)

  pub review-Ends :
      (a : StatusArgs) (p : Program Float (Unit {0}))
      → Hoare (HasStatus book.id needs_review) p (λ u. HasStatus book.id needs_review)
      → Ends book.id (
          update env.kindle (Op.status book.id needs_review a) >>= λ u.
          p >>= λ v. done needs_review_)
  review-Ends a p h =
      Hoare-then Always (λ u. HasStatus book.id needs_review) _ _ _
        (review-HasStatus env.kindle book.id a)
        (λ u.
          Hoare-then _ (λ v. HasStatus book.id needs_review) _ _ _ h
            (λ v. Hoare-done _ _ needs_review_ (λ t o. o)))

  module _ (rest : String → Program Float Final)
      (h : (path : String) → Ends book.id (rest path)) where
    after_stk-Ends :
        (f : Sized) (a : Answer Bool) → Ends book.id (after_stk F env cfg book rest f a)
    unfolding after_stk
    after_stk-Ends f a =
        Ends-if book.id _ _ _ (Ends-then book.id _ _ (λ u. h _))
          (review-Ends _ _ (Hoare-log _ env.kindle _ _ _ _))

    oversize_step-Ends : (f : Sized) → Ends book.id (oversize_step F env cfg book rest f)
    unfolding oversize_step
    oversize_step-Ends f =
        Ends-if book.id _ _ _ (Ends-then book.id _ _ (after_stk-Ends f)) (h f.path)

    after_convert-Ends : (a : Answer String) → Ends book.id (after_convert F env cfg book rest a)
    unfolding after_convert
    after_convert-Ends (crashed e) = Ends-raise book.id e
    after_convert-Ends (raised e) = fail_with-Ends _
    after_convert-Ends (returned path) =
        Ends-then book.id _ _
          (λ u. Ends-then book.id _ _ (λ v. Ends-then book.id _ _ (λ w. h path)))

    after_exists-Ends :
        (path : String) (b : Bool) → Ends book.id (after_exists F env cfg book rest path b)
    unfolding after_exists
    after_exists-Ends path b =
        Ends-if book.id _ _ _ (Ends-then book.id _ _ (λ u. h _))
          (Ends-then book.id _ _ (λ u. Ends-then book.id _ _ after_convert-Ends))

    convert_step-Ends :
        (action : FormatAction) (path : String)
        → Ends book.id (convert_step F env cfg book rest action path)
    unfolding convert_step
    convert_step-Ends send_native path = h path
    convert_step-Ends skip path = Ends-then book.id _ _ (λ u. Ends-skipped book.id)
    convert_step-Ends convert path =
        Ends-if book.id _ _ _ (Ends-then book.id _ _ (after_exists-Ends path)) (h path)

  after_convert_step-Ends :
      (batch : Bool) (path : String) → Ends book.id (after_convert_step F env cfg batch book path)
  unfolding after_convert_step
  after_convert_step-Ends batch path = Ends-then book.id _ _ (λ a. Ends-then book.id _ _ (λ b.
      Ends-then book.id _ _ (λ raw. Ends-then book.id _ _ (λ f.
        Ends-then book.id _ _
          (oversize_step-Ends (send_file_step F env cfg batch book) (send_file_step-Ends batch))))))

  pub process_from_downloaded-Ends :
      (batch : Bool) (path : String)
      → Ends book.id (process_from_downloaded F env cfg batch book path)
  unfolding process_from_downloaded
  process_from_downloaded-Ends batch path =
      convert_step-Ends (after_convert_step F env cfg batch book) (after_convert_step-Ends batch)
        (decide_format_action (codes (file_suffix path))) path
