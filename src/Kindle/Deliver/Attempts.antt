-- ===== src/Kindle/Deliver/Attempts.antt =====
-- What the loop over the attempts of one delivery does.
use biblichor.Prelude.{
  ℕ, zero, suc, ◌+◌, ◌≤◌, ◌≡◌, refl, ◌∙◌, Bool, true, false, String, Option, some, [], ◌∷◌, length,
  length-append, ltb, if◌then◌else◌, arith,
}
use biblichor.Prelude.Result.{Result, ok, err}
use biblichor.Kindle.Errors.{message_of}
use biblichor.Kindle.Session.{
  FileEntry, World, Env, Raised, typed, untyped, between_sends, Pause, upload, send_file,
}
use biblichor.Kindle.Smtp.{Config}
use biblichor.Kindle.Deliver.{
  attempts_loop, after_answer, after_failure, Ending, after_error, Next, stop, leave, retry,
  pause_if, count_backoff,
}

-- The world after calls of the client: as before, but for at most `n` more uploads.
pub record IsAttempted (n : ℕ) (w w' : World) : Type 0 where
  pub events : w'.events ≡ w.events
  pub mails : w'.mails ≡ w.mails
  pub uploads : length w'.uploads ≤ length w.uploads + n
  pub kept : length w.uploads ≤ length w'.uploads

pub IsAttempted-trans :
    (m n o : ℕ) (a b c : World)
    → m + n ≤ o
    → IsAttempted m a b
    → IsAttempted n b c
    → IsAttempted o a c
IsAttempted-trans m n o a b c le f g = record {
  events = g.events ∙ f.events;
  mails = g.mails ∙ f.mails;
  uploads = omega (arith, f.uploads, g.uploads, le);
  kept = omega (arith, f.kept, g.kept);
}

pub IsAttempted-refl : (n : ℕ) (w : World) → IsAttempted n w w
IsAttempted-refl n w = record {
  events = refl;
  mails = refl;
  uploads = omega arith;
  kept = omega arith;
}

pub IsAttempted-pause : (b : Bool) (p : Pause) (w : World) → IsAttempted 0 w (pause_if b p w)
IsAttempted-pause true p w = record {
  events = refl;
  mails = refl;
  uploads = omega arith;
  kept = omega arith;
}
IsAttempted-pause false p w = IsAttempted-refl 0 w

pub IsAttempted-upload : (fe : FileEntry) (w : World) → IsAttempted 1 w (upload fe w)
IsAttempted-upload fe w = record {
  events = refl;
  mails = refl;
  uploads = omega (arith, length-append w.uploads (fe ∷ []));
  kept = omega (arith, length-append w.uploads (fe ∷ []));
}

IsAttempted-send_file :
    (env : Env) (fe : FileEntry) (w : World) → IsAttempted 1 w (send_file env fe w).1
unfolding send_file
IsAttempted-send_file env fe w = ground (arith, IsAttempted-refl 1 w, IsAttempted-upload fe w)

module _ (cfg : Config) (next k n : ℕ) (continue : ℕ → Option String → World → Ending × World)
    (h : (k : ℕ) (e : Option String) (w : World) → IsAttempted n w (continue k e w).1) where
  after_failure-IsAttempted :
      (m : String) (w : World) (x : Next)
      → IsAttempted n w (after_failure cfg next k continue m w x).1
  unfolding after_failure
  after_failure-IsAttempted m w stop = IsAttempted-refl n w
  after_failure-IsAttempted m w (leave t) = IsAttempted-refl n w
  after_failure-IsAttempted m w (retry p) =
      let again = ltb next cfg.max_attempts in
      IsAttempted-trans 0 n n w (pause_if again p w) _ (omega arith) (IsAttempted-pause again p w)
        (h (if again then count_backoff p k else k) (some m) (pause_if again p w))

  after_answer-IsAttempted :
      (a : Result Raised String × World) → IsAttempted n a.1 (after_answer cfg next k continue a).1
  unfolding after_answer
  after_answer-IsAttempted (ok sku, w) = IsAttempted-refl n w
  after_answer-IsAttempted (err (untyped m), w) = IsAttempted-refl n w
  after_answer-IsAttempted (err (typed e), w) =
      after_failure-IsAttempted (message_of e) w (after_error k e)

pub attempts_loop-IsAttempted :
    (env : Env) (cfg : Config) (fe : FileEntry) (left next last k : ℕ) (e : Option String)
    (w : World)
    → IsAttempted left w (attempts_loop env cfg fe left next last k e w).1
unfolding attempts_loop
attempts_loop-IsAttempted env cfg fe zero next last k e w = IsAttempted-refl 0 w
attempts_loop-IsAttempted env cfg fe (suc left) next last k e w =
    let w0 : World = pause_if cfg.min_send_interval between_sends w in
    let a : Result Raised String × World = send_file env fe w0 in
    IsAttempted-trans 1 left (suc left) w a.1 _ (omega arith)
      (IsAttempted-trans 0 1 1 w w0 a.1 (omega arith)
        (IsAttempted-pause cfg.min_send_interval between_sends w) (IsAttempted-send_file env fe w0))
      (after_answer-IsAttempted cfg next k left (attempts_loop env cfg fe left (suc next) next)
        (attempts_loop-IsAttempted env cfg fe left (suc next) next) a)
