-- ===== src/Kindle/Batch/Growth.antt =====
-- The uploads and mails of the steps of a batch.

use biblichor.Prelude.{
  ℕ, suc, ◌+◌, ◌≤◌, ◌≡◌, refl, ap, ◌∙◌, Bool, true, false, str_eq, String, Option, none, some, List,
  [], ◌∷◌, length, arith,
}
use biblichor.Prelude.Text.{Text}
use biblichor.Prelude.Result.{Result, ok, err}
use biblichor.Db.Events.{Meta}
use biblichor.Kindle.Pack.{BookFile}
use biblichor.Kindle.Errors.{ClientError}
use biblichor.Kindle.Quota.{is_recent}
use biblichor.Kindle.Session.{
  FileEntry, World, Env, Raised, upload, file_pause, session_loop, after_call, in_session,
}
use biblichor.Kindle.Smtp.{Config, read, record_event}
use biblichor.Kindle.Deliver.Attempts.{
  IsAttempted, IsAttempted-refl, IsAttempted-trans, IsAttempted-pause, IsAttempted-upload,
}
use biblichor.Kindle.Smtp.Counts.{smtp_count, count_where-append, smtp_deliver-IsMailed}
use biblichor.Kindle.Batch.{fall_back}

-- At most `k` more uploads and `l` more mails, and the same count at the gate of SMTP.
pub record IsBounded (k l : ℕ) (w w' : World) : Type 0 where
  pub uploads : length w'.uploads ≤ length w.uploads + k
  pub mails : length w'.mails ≤ length w.mails + l
  pub gate : (now : ℕ) → smtp_count now w'.events ≡ smtp_count now w.events

pub IsBounded-trans :
    (i j k l m n : ℕ) (a b c : World)
    → i + k ≤ m
    → j + l ≤ n
    → IsBounded i j a b
    → IsBounded k l b c
    → IsBounded m n a c
IsBounded-trans i j k l m n a b c x y f g = record {
  uploads = omega (arith, f.uploads, g.uploads, x);
  mails = omega (arith, f.mails, g.mails, y);
  gate = λ now. g.gate now ∙ f.gate now;
}

pub IsBounded-refl : (k l : ℕ) (w : World) → IsBounded k l w w
IsBounded-refl k l w = record { uploads = omega arith; mails = omega arith; gate = λ now. refl }

pub IsBounded-read : (w : World) → IsBounded 0 0 w (read w)
IsBounded-read w = record { uploads = omega arith; mails = omega arith; gate = λ now. refl }

pub IsBounded-record_event :
    (env : Env) (kind : String) (i : Option ℕ) (m : String) (meta : Meta) (w : World)
    → str_eq kind "send-smtp" ≡ false
    → IsBounded 0 0 w (record_event env kind i m meta w)
unfolding record_event
IsBounded-record_event env kind i m meta w h = record {
  uploads = omega arith;
  mails = omega arith;
  gate = λ now. count_where-append (is_recent "send-smtp" now) w.events _ ∙ rw h (omega arith);
}

pub IsBounded-IsAttempted : (n l : ℕ) (w w' : World) → IsAttempted n w w' → IsBounded n l w w'
IsBounded-IsAttempted n l w w' h = record {
  uploads = h.uploads;
  mails = omega (arith, ap length h.mails);
  gate = λ now. ap (smtp_count now) h.events;
}

pub IsBounded-fall_back :
    (env : Env) (cfg : Config) (n : ℕ) (bf : BookFile) (w : World)
    → IsBounded 0 1 w (fall_back env cfg n bf w).1
unfolding fall_back
IsBounded-fall_back env cfg n bf w =
    let h = smtp_deliver-IsMailed env cfg bf w in
    record {
      uploads = omega (arith, ap length h.uploads);
      mails = h.mails;
      gate = λ now. ap (smtp_count now) h.events;
    }

IsAttempted-file_pause : (b c : Bool) (w : World) → IsAttempted 0 w (file_pause b c w)
IsAttempted-file_pause true c w = IsAttempted-refl 0 w
IsAttempted-file_pause false true w = IsAttempted-pause true _ w
IsAttempted-file_pause false false w = IsAttempted-refl 0 w

after_call-IsAttempted :
    (env : Env) (fe : FileEntry) (n : ℕ) (w : World)
    (rest : Result Raised (List (String × Text)) × World) (a : Result ClientError String)
    → IsAttempted n w rest.1
    → IsAttempted n w (after_call env fe w rest a).1
unfolding after_call
after_call-IsAttempted env fe n w rest (err e) h = IsAttempted-refl n w
after_call-IsAttempted env fe n w (ok sent, v) (ok sku) h = h
after_call-IsAttempted env fe n w (err e, v) (ok sku) h = h

session_loop-IsAttempted :
    (env : Env) (b c : Bool) (fes : List FileEntry) (w : World)
    → IsAttempted (length fes) w (session_loop env b c fes w).1
unfolding session_loop
session_loop-IsAttempted env b c [] w = IsAttempted-refl 0 w
session_loop-IsAttempted env b c (fe ∷ fes) w =
    let w0 = file_pause b c w in
    IsAttempted-trans 1 (length fes) (suc (length fes)) w (upload fe w0) _ (omega arith)
      (IsAttempted-trans 0 1 1 w w0 (upload fe w0) (omega arith) (IsAttempted-file_pause b c w)
        (IsAttempted-upload fe w0))
      (after_call-IsAttempted env fe (length fes) (upload fe w0)
        (session_loop env false c fes (upload fe w0)) (env.client (length w0.uploads))
        (session_loop-IsAttempted env false c fes (upload fe w0)))

pub in_session-IsAttempted :
    (env : Env) (c : Bool) (fes : List FileEntry) (w : World) (e : Option Raised)
    → IsAttempted (length fes) w (in_session env c fes w e).1
unfolding in_session
in_session-IsAttempted env c fes w none = session_loop-IsAttempted env true c fes w
in_session-IsAttempted env c fes w (some e) = IsAttempted-refl (length fes) w
