-- ===== src/Pipeline/Refine/Deliver.antt =====
-- From a downloaded file on, a run records at most one failure and mails the book at most once.
use biblichor.Prelude.{ℕ, refl, ==_refl, String, Bool, true, false, Option, none, some, [], arith}
use biblichor.Prelude.Number.{Floats}
use biblichor.Prelude.Text.{codes}
use biblichor.Prelude.Path.{file_suffix}
use biblichor.Domain.FormatRouter.{FormatAction, send_native, convert, skip, decide_format_action}
use biblichor.Db.Books.Row.{Book}
use biblichor.Db.Books.Ops.{run, failures}
use biblichor.Kindle.Smtp.{DeliveryResult}
use biblichor.Kindle.Deliver.Routes.{deliver_bounded}
use biblichor.Pipeline.Run.{Answer, returned, raised, crashed, PipelineConfig, Services, Program}
use biblichor.Pipeline.Download.{Final}
use biblichor.Pipeline.Convert.{
  rescue_failed, after_raw, Sized, after_convert, after_exists, convert_step, after_enrich,
  enrich_step, rescued, after_rescue, rescue_step, after_compress, compress_step,
}
use biblichor.Pipeline.Deliver.{
  after_stk, oversize_step, after_drop, after_root, library_step, record_delivery, kindle_deliver,
  send_step, send_file_step, after_convert_step, process_from_downloaded,
}
use biblichor.Pipeline.Refine.{
  Keeps-ask, Keeps, quietly, Keeps-then, Keeps-done, Keeps-raise, Keeps-call, Keeps-get, Keeps-log,
  Keeps-notify, Keeps-when, Keeps-if, Keeps-update,
}
use biblichor.Pipeline.Refine.Download.{Keeps-fail}

module _ (F : Floats) (env : Services F) (cfg : PipelineConfig F) (book : Book) where
  open F use {Float}

  module _ (rest : String → Program Float Final)
      (h : (path : String) → Keeps book.id 1 1 (rest path)) where
    after_convert-Keeps :
        (a : Answer String) → Keeps book.id 1 1 (after_convert F env cfg book rest a)
    unfolding after_convert
    after_convert-Keeps (crashed e) = Keeps-raise book.id Final 1 1 e
    after_convert-Keeps (raised e) = Keeps-fail F env cfg book 1 _ _
    after_convert-Keeps (returned path) =
        quietly book.id 1 1 _ _
          (Keeps-update book.id env.kindle 0 0 _ (==_refl book.id) (omega arith))
          (λ a.
            quietly book.id 1 1 _ _
              (Keeps-update book.id env.kindle 0 0 _ (==_refl book.id) (omega arith))
              (λ b. quietly book.id 1 1 _ _ (Keeps-log book.id env.kindle _ _ _ _) (λ c. h path)))

    after_exists-Keeps :
        (path : String) (b : Bool) → Keeps book.id 1 1 (after_exists F env cfg book rest path b)
    unfolding after_exists
    after_exists-Keeps path b =
        Keeps-if book.id 1 1 _ _ _
          (quietly book.id 1 1 _ _ (Keeps-log book.id env.kindle _ _ _ _) (λ a. h _))
          (quietly book.id 1 1 _ _
            (Keeps-update book.id env.kindle 0 0 _ (==_refl book.id) (omega arith))
            (λ a. quietly book.id 1 1 _ _ (Keeps-call book.id _) after_convert-Keeps))

    convert_step-Keeps :
        (action : FormatAction) (path : String)
        → Keeps book.id 1 1 (convert_step F env cfg book rest action path)
    unfolding convert_step
    convert_step-Keeps send_native path = h path
    convert_step-Keeps skip path =
        quietly book.id 1 1 _ _
          (Keeps-update book.id env.kindle 0 0 _ (==_refl book.id) (omega arith))
          (λ a. Keeps-done book.id 1 1 _)
    convert_step-Keeps convert path =
        Keeps-if book.id 1 1 _ _ _
          (quietly book.id 1 1 _ _ (Keeps-call book.id _) (after_exists-Keeps path)) (h path)

    after_stk-Keeps :
        (f : Sized) (a : Answer Bool) → Keeps book.id 1 1 (after_stk F env cfg book rest f a)
    unfolding after_stk
    after_stk-Keeps f a =
        Keeps-if book.id 1 1 _ _ _
          (quietly book.id 1 1 _ _ (Keeps-log book.id env.kindle _ _ _ _) (λ b. h _))
          (quietly book.id 1 1 _ _
            (Keeps-update book.id env.kindle 0 0 _ (==_refl book.id) (omega arith))
            (λ b.
              quietly book.id 1 1 _ _ (Keeps-log book.id env.kindle _ _ _ _)
                (λ c. Keeps-done book.id 1 1 _)))

    oversize_step-Keeps : (f : Sized) → Keeps book.id 1 1 (oversize_step F env cfg book rest f)
    unfolding oversize_step
    oversize_step-Keeps f =
        Keeps-if book.id 1 1 _ _ _
          (quietly book.id 1 1 _ _ (Keeps-call book.id _) (after_stk-Keeps f)) (h f.path)

  after_enrich-Keeps : (a : Answer Unit) → Keeps book.id 0 0 (after_enrich F env cfg book a)
  unfolding after_enrich
  after_enrich-Keeps (returned u) = Keeps-log book.id env.kindle _ _ _ _
  after_enrich-Keeps (raised e) = Keeps-log book.id env.kindle _ _ _ _
  after_enrich-Keeps (crashed e) = Keeps-raise book.id (Unit {0}) 0 0 e

  enrich_step-Keeps : (path : String) → Keeps book.id 0 0 (enrich_step F env cfg book path)
  unfolding enrich_step
  enrich_step-Keeps path =
      Keeps-when book.id _ _ (quietly book.id 0 0 _ _ (Keeps-call book.id _) after_enrich-Keeps)

  rescue_failed-Keeps :
      (f : Sized) (e : String) → Keeps book.id 0 0 (rescue_failed F env cfg book f e)
  unfolding rescue_failed
  rescue_failed-Keeps f e =
      quietly book.id 0 0 _ _ (Keeps-log book.id env.kindle _ _ _ _) (λ a. Keeps-done book.id 0 0 _)

  after_raw-Keeps :
      (f : Sized) (epub : String) (size : ℕ) (a : Answer ℕ)
      → Keeps book.id 0 0 (after_raw F env cfg book f epub size a)
  unfolding after_raw
  after_raw-Keeps f epub size (raised e) = rescue_failed-Keeps _ e
  after_raw-Keeps f epub size (crashed e) = rescue_failed-Keeps _ e
  after_raw-Keeps f epub size (returned raw) =
      quietly book.id 0 0 _ _
        (Keeps-update book.id env.kindle 0 0 _ (==_refl book.id) (omega arith))
        (λ b. Keeps-done book.id 0 0 _)

  rescued-Keeps :
      (f : Sized) (epub : String) (a : Answer ℕ)
      → Keeps book.id 0 0 (rescued F env cfg book f epub a)
  unfolding rescued
  rescued-Keeps f epub (raised e) = rescue_failed-Keeps f e
  rescued-Keeps f epub (crashed e) = rescue_failed-Keeps f e
  rescued-Keeps f epub (returned size) =
      Keeps-if book.id 0 0 _ _ _
        (quietly book.id 0 0 _ _ (Keeps-log book.id env.kindle _ _ _ _)
          (λ a. quietly book.id 0 0 _ _ (Keeps-call book.id _) (after_raw-Keeps f epub size)))
        (Keeps-done book.id 0 0 _)

  after_rescue-Keeps :
      (f : Sized) (a : Answer String) → Keeps book.id 0 0 (after_rescue F env cfg book f a)
  unfolding after_rescue
  after_rescue-Keeps f (returned epub) =
      quietly book.id 0 0 _ _ (Keeps-call book.id _) (rescued-Keeps f epub)
  after_rescue-Keeps f (raised e) = rescue_failed-Keeps f e
  after_rescue-Keeps f (crashed e) = rescue_failed-Keeps f e

  rescue_step-Keeps : (f : Sized) → Keeps book.id 0 0 (rescue_step F env cfg book f)
  unfolding rescue_step
  rescue_step-Keeps f =
      Keeps-if book.id 0 0 _ _ _
        (quietly book.id 0 0 _ _ (Keeps-call book.id _) (after_rescue-Keeps f))
        (Keeps-done book.id 0 0 _)

  after_compress-Keeps :
      (f : Sized) (a : Answer (Option String))
      → Keeps book.id 0 0 (after_compress F env cfg book f a)
  unfolding after_compress
  after_compress-Keeps f (returned none) = Keeps-done book.id 0 0 _
  after_compress-Keeps f (returned (some path)) =
      quietly book.id 0 0 _ _ (Keeps-ask book.id _) (λ raw.
        quietly book.id 0 0 _ _
          (Keeps-update book.id env.kindle 0 0 _ (==_refl book.id) (omega arith))
          (λ b.
            quietly book.id 0 0 _ _ (Keeps-log book.id env.kindle _ _ _ _)
              (λ c. Keeps-done book.id 0 0 _)))
  after_compress-Keeps f (raised e) =
      quietly book.id 0 0 _ _ (Keeps-log book.id env.kindle _ _ _ _) (λ a. Keeps-done book.id 0 0 _)
  after_compress-Keeps f (crashed e) =
      quietly book.id 0 0 _ _ (Keeps-log book.id env.kindle _ _ _ _) (λ a. Keeps-done book.id 0 0 _)

  compress_step-Keeps : (f : Sized) → Keeps book.id 0 0 (compress_step F env cfg book f)
  unfolding compress_step
  compress_step-Keeps f =
      Keeps-if book.id 0 0 _ _ _
        (quietly book.id 0 0 _ _ (Keeps-call book.id _) (after_compress-Keeps f))
        (Keeps-done book.id 0 0 _)

  after_drop-Keeps : (a : Answer String) → Keeps book.id 0 0 (after_drop F env cfg book a)
  unfolding after_drop
  after_drop-Keeps (returned n) = Keeps-log book.id env.kindle _ _ _ _
  after_drop-Keeps (raised e) = Keeps-log book.id env.kindle _ _ _ _
  after_drop-Keeps (crashed e) = Keeps-raise book.id (Unit {0}) 0 0 e

  after_root-Keeps :
      (path root : String) (b : Bool) → Keeps book.id 0 0 (after_root F env cfg book path root b)
  unfolding after_root
  after_root-Keeps path root b =
      Keeps-if book.id 0 0 _ _ _ (quietly book.id 0 0 _ _ (Keeps-call book.id _) after_drop-Keeps)
        (Keeps-log book.id env.kindle _ _ _ _)

  library_step-Keeps : (path : String) → Keeps book.id 0 0 (library_step F env cfg book path)
  unfolding library_step
  library_step-Keeps path = quietly book.id 0 0 _ _ (Keeps-get book.id) (λ s.
      Keeps-when book.id _ _
        (quietly book.id 0 0 _ _ (Keeps-call book.id _) (after_root-Keeps path _)))

  pub record_delivery-Keeps :
      (path : String) (r : DeliveryResult)
      → Keeps book.id 1 0 (record_delivery F env cfg book path r)
  unfolding record_delivery
  record_delivery-Keeps path r =
      Keeps-if book.id 1 0 _ _ _
        (quietly book.id 1 0 _ _
          (Keeps-update book.id env.kindle 0 0 _ (==_refl book.id) (omega arith))
          (λ a.
            quietly book.id 1 0 _ _ (Keeps-when book.id _ _ (Keeps-log book.id env.kindle _ _ _ _))
              (λ b.
                quietly book.id 1 0 _ _ (Keeps-notify book.id _) (λ c. Keeps-done book.id 1 0 _))))
        (Keeps-fail F env cfg book 0 _ _)

  kindle_deliver-Keeps : (path : String) → Keeps book.id 0 1 (kindle_deliver F env cfg book path)
  unfolding kindle_deliver run failures
  kindle_deliver-Keeps path = record {
    keep = λ s. record {
      ops = [];
      ran = refl;
      own = tt;
      failed = omega arith;
      mailed = (deliver_bounded env.kindle cfg.router _ s.world).1;
    };
  }

  send_step-Keeps :
      (batch : Bool) (path : String) → Keeps book.id 1 1 (send_step F env cfg batch book path)
  unfolding send_step
  send_step-Keeps true path = Keeps-done book.id 1 1 _
  send_step-Keeps false path =
      Keeps-then book.id 0 1 1 0 1 1 _ _ (omega arith) (omega arith) (kindle_deliver-Keeps path)
        (record_delivery-Keeps path)

  send_file_step-Keeps :
      (batch : Bool) (path : String) → Keeps book.id 1 1 (send_file_step F env cfg batch book path)
  unfolding send_file_step
  send_file_step-Keeps batch path =
      quietly book.id 1 1 _ _ (library_step-Keeps path) (λ a. send_step-Keeps batch path)

  after_convert_step-Keeps :
      (batch : Bool) (path : String)
      → Keeps book.id 1 1 (after_convert_step F env cfg batch book path)
  unfolding after_convert_step
  after_convert_step-Keeps batch path =
      quietly book.id 1 1 _ _
        (Keeps-update book.id env.kindle 0 0 _ (==_refl book.id) (omega arith))
        (λ a. quietly book.id 1 1 _ _ (enrich_step-Keeps path) (λ b.
          quietly book.id 1 1 _ _ (Keeps-ask book.id _) (λ raw.
            quietly book.id 1 1 _ _ (rescue_step-Keeps _) (λ f.
              quietly book.id 1 1 _ _ (compress_step-Keeps f) (
                oversize_step-Keeps (send_file_step F env cfg batch book)
                  (send_file_step-Keeps batch))))))

  pub process_from_downloaded-Keeps :
      (batch : Bool) (path : String)
      → Keeps book.id 1 1 (process_from_downloaded F env cfg batch book path)
  unfolding process_from_downloaded
  process_from_downloaded-Keeps batch path =
      convert_step-Keeps (after_convert_step F env cfg batch book) (after_convert_step-Keeps batch)
        (decide_format_action (codes (file_suffix path))) path
