-- ===== src/Kindle/Deliver.antt =====
-- `deliver` of src/endless_library/kindle_router.py.
pub mod Attempts
pub mod Routes
use biblichor.Prelude.{
  ℕ, zero, suc, ◌+◌, String, Bool, true, false, Option, none, some, [], ◌∷◌, ltb, if◌then◌else◌,
  str_eq,
}
use biblichor.Prelude.Result.{Result, ok, err}
use biblichor.Db.Events.{MetaValue}
use biblichor.Kindle.Pack.{BookFile}
use biblichor.Kindle.Errors.{
  StkError, auth_expired, rate_limited, upload_failed, not_configured, batch_overflow, message_of,
}
use biblichor.Kindle.Session.{
  Raised, FileEntry, World, Env, unless_raised, typed, untyped, Pause, between_sends, retry_after,
  backoff, pause, send_file,
}
use biblichor.Kindle.Quota.{stk_quota_status, StkQuotaStatus}
use biblichor.Kindle.Smtp.{Config, DeliveryResult, by_smtp, entry_of, read, record_event, smtp, stk}

-- How the attempts end: sent at an attempt; given up after one, with the last error and whether
-- the certificate is rejected; or left by an exception that `deliver` does not catch.
pub data Ending : Type 0 where
  sent : ℕ → Ending
  given_up : ℕ → Option String → Bool → Ending
  escaped : String → Ending

-- What an attempt that raised leads to: `break`, an exception that `deliver` does not catch,
-- or the next attempt after a pause, when there is one.
pub data Next : Type 0 where
  stop : Next
  leave : String → Next
  retry : Pause → Next

abbrev pub after_error : ℕ → StkError → Next
after_error backoffs (auth_expired m) = stop
after_error backoffs (rate_limited m n) = retry (retry_after n)
after_error backoffs (upload_failed m) = retry (backoff backoffs)
after_error backoffs (not_configured m) = retry (backoff backoffs)
after_error backoffs (batch_overflow m) = leave m

abbrev pub pause_if : Bool → Pause → World → World
pause_if b p w = if b then pause p w else w

-- The number of times the backoff has been multiplied.
abbrev pub count_backoff : Pause → ℕ → ℕ
count_backoff between_sends k = k
count_backoff Pause.between_files k = k
count_backoff (retry_after n) k = k
count_backoff (backoff n) k = suc k

-- An attempt that raised the message `m`; `continue` is the next round.
unfoldable pub after_failure :
    Config
    → ℕ
    → ℕ
    → (ℕ → Option String → World → Ending × World)
    → String
    → World
    → Next
    → Ending × World
after_failure cfg next backoffs continue m w stop = (given_up next (some m) true, w)
after_failure cfg next backoffs continue m w (leave t) = (escaped t, w)
after_failure cfg next backoffs continue m w (retry p) =
    continue (if ltb next cfg.max_attempts then count_backoff p backoffs else backoffs) (some m)
      (pause_if (ltb next cfg.max_attempts) p w)

-- The rest of a round of the loop, when the attempt numbered `next` answered.
unfoldable pub after_answer :
    Config
    → ℕ
    → ℕ
    → (ℕ → Option String → World → Ending × World)
    → Result Raised String × World
    → Ending × World
unfolding after_failure
after_answer cfg next backoffs continue (ok sku, w) = (sent next, w)
after_answer cfg next backoffs continue (err (untyped m), w) = (escaped m, w)
after_answer cfg next backoffs continue (err (typed e), w) =
    after_failure cfg next backoffs continue (message_of e) w (after_error backoffs e)

-- The loop over `left` attempts, of which the next has the number `next`; `last` is the value of
-- `attempt` before.
unfoldable pub attempts_loop :
    Env → Config → FileEntry → ℕ → ℕ → ℕ → ℕ → Option String → World → Ending × World
unfolding send_file after_answer
attempts_loop env cfg fe zero next last backoffs last_error w = (given_up last last_error false, w)
attempts_loop env cfg fe (suc left) next last backoffs last_error w =
    after_answer cfg next backoffs (attempts_loop env cfg fe left (suc next) next)
      (send_file env fe (pause_if cfg.min_send_interval between_sends w))

abbrev pub text_of : Option String → MetaValue
text_of none = MetaValue.absent
text_of (some s) = MetaValue.text s

-- `last_error or default`
abbrev pub message_or : String → Option String → String
message_or default none = default
message_or default (some m) = if str_eq m "" then default else m

-- Branch 3, and what follows the loop.
unfoldable pub after_attempts :
    Env → Config → BookFile → Ending × World → Result String DeliveryResult × World
unfolding by_smtp record_event
after_attempts env cfg bf (sent attempt, w) =
    unless_raised (λ e. e) (env.insert_failure (read w).reads) (read w)
      (let w' =
          record_event env "send-stk" (some bf.book_id) "send-stk-ok"
            (("attempts", MetaValue.number attempt)
              ∷ ("duration_ms", MetaValue.number (env.elapsed_ms w.reads))
              ∷ [])
            (read w) in
        (
          ok (record {
            succeeded = true;
            method = stk;
            error = none;
            attempts = attempt;
            duration_ms = env.elapsed_ms w'.reads;
          }),
          read w',
        ))
after_attempts env cfg bf (given_up attempt last_error expired, w) =
    unless_raised (λ e. e) (env.insert_failure w.reads) w
      (let (r, w') = by_smtp env cfg bf (attempt + 1) (
          record_event env "send-stk-failed" (some bf.book_id)
            (message_or "send-stk-failed" last_error)
            (("attempts", MetaValue.number attempt)
              ∷ ("last_error", text_of last_error)
              ∷ ("auth_expired", MetaValue.flag expired)
              ∷ ("fellback_to", MetaValue.text "smtp")
              ∷ [])
            w) in
        (ok r, w'))
after_attempts env cfg bf (escaped m, w) = (err m, w)

unfoldable pub attempt_stk : Env → Config → BookFile → World → Result String DeliveryResult × World
unfolding after_attempts attempts_loop
attempt_stk env cfg bf w =
    after_attempts env cfg bf (attempts_loop env cfg (entry_of bf) cfg.max_attempts 1 1 0 none w)

-- `_stk_quota_status`, when there is a cap.
abbrev pub stk_quota : Env → Config → World → Option StkQuotaStatus
stk_quota env cfg w = elim cfg.daily_cap [
  | none ↦ none
  | some cap ↦ some (stk_quota_status (env.now w.reads) cap w.events)
]

abbrev pub stk_exhausted : Env → Config → World → Bool
stk_exhausted env cfg w = elim (stk_quota env cfg w) [
  | none ↦ false
  | some status ↦ status.exhausted
]

abbrev pub cap_reached : Env → BookFile → StkQuotaStatus → World → World
unfolding record_event
cap_reached env bf status w =
    record_event env "send-stk-failed" (some bf.book_id) "stk-cap-reached"
      (("reason", MetaValue.text "stk-cap-reached")
        ∷ ("sent_24h", MetaValue.number status.sent_24h)
        ∷ ("cap", MetaValue.number status.cap)
        ∷ [])
      (read w)

-- The quota that branch 2 read.
unfoldable pub past_quota :
    Env → Config → BookFile → World → Option StkQuotaStatus → Result String DeliveryResult × World
unfolding by_smtp attempt_stk record_event
past_quota env cfg bf w none = attempt_stk env cfg bf w
past_quota env cfg bf w (some status) =
    if status.exhausted
    then unless_raised (λ e. e) (env.insert_failure (read w).reads) (read w)
        (let (r, w') = by_smtp env cfg bf 1 (cap_reached env bf status w) in (ok r, w'))
    else attempt_stk env cfg bf (read w)

-- What the query behind the quota of STK raises; without a cap it is not run.
abbrev pub gate_failure : Env → Config → World → Option String
gate_failure env cfg w = elim cfg.daily_cap [ none ↦ none | some cap ↦ env.quota_failure w.reads ]

-- `deliver`: an error is an exception that leaves it.
unfoldable pub deliver : Env → Config → BookFile → World → Result String DeliveryResult × World
unfolding by_smtp past_quota
deliver env cfg bf w =
    unless_raised (λ e. e) (env.secrets_failure w.reads) w
      (if env.is_configured
        then unless_raised (λ e. e) (gate_failure env cfg w) w
            (past_quota env cfg bf w (stk_quota env cfg w))
        else (let (r, w') = by_smtp env cfg bf 1 w in (ok r, w')))
