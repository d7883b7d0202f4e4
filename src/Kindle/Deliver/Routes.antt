-- ===== src/Kindle/Deliver/Routes.antt =====
-- What one delivery promises on each of its routes.
use biblichor.Prelude.{
  if-both, ℕ, ◌+◌, ◌≤◌, ◌≡◌, refl, sym, ap, ◌∙◌, inl, inr, Bool, true, String, Option, none, some,
  [], ◌∷◌, length, Bool-cases, arith,
}
use biblichor.Prelude.Result.{Result, ok, err}
use biblichor.Db.Events.{MetaValue, Meta}
use biblichor.Kindle.Pack.{BookFile}
use biblichor.Kindle.Quota.{smtp_quota_status, StkQuotaStatus}
use biblichor.Kindle.Session.{unless_raised-both, World, Env}
use biblichor.Kindle.Smtp.{
  Config, DeliveryResult, DeliveryMethod, stk, smtp, read, record_event, by_smtp, entry_of,
}
use biblichor.Kindle.Deliver.{
  gate_failure, Ending, sent, given_up, escaped, attempts_loop, after_attempts, attempt_stk,
  stk_quota, past_quota, cap_reached, text_of, message_or, deliver,
}
use biblichor.Kindle.Deliver.Attempts.{IsAttempted-refl, IsAttempted, attempts_loop-IsAttempted}
use biblichor.Kindle.Smtp.Counts.{
  IsLogged, IsLogged-smtp_count, by_smtp-IsMailed, record_event-IsLogged, smtp_count,
}

-- What a delivery with at most `n` uploads ends with.
record IsOutcome (n : ℕ) (bf : BookFile) (w : World) (x : Result String DeliveryResult × World)
    : Type 0 where
  uploads : length x.1.uploads ≤ length w.uploads + n
  mails : length x.1.mails ≤ length w.mails + 1
  gate : (now : ℕ) → smtp_count now x.1.events ≡ smtp_count now w.events
  by_stk :
      (r : DeliveryResult)
      → x.0 ≡ ok r
      → r.method ≡ stk
      → (r.succeeded ≡ true) × (x.1.mails ≡ w.mails) × IsLogged "send-stk" bf w.events x.1.events

raised-IsOutcome :
    (n : ℕ) (bf : BookFile) (w w' : World)
    → IsAttempted n w w'
    → (e : String) → IsOutcome n bf w (err e, w')
raised-IsOutcome n bf w w' h e = record {
  uploads = h.uploads;
  mails = omega (arith, ap length h.mails);
  gate = λ now. ap (smtp_count now) h.events;
  by_stk = λ r h k. cc;
}

IsAttempted-read : (n : ℕ) (w : World) → IsAttempted n w (read w)
IsAttempted-read n w = record {
  events = refl;
  mails = refl;
  uploads = omega arith;
  kept = omega arith;
}

by_smtp-method :
    (env : Env) (cfg : Config) (bf : BookFile) (n : ℕ) (w : World)
    → (by_smtp env cfg bf n w).0.method ≡ smtp
unfolding by_smtp
by_smtp-method env cfg bf n w = refl

stk≢smtp : ¬ (stk ≡ smtp)
stk≢smtp h = cc

abbrev method_or_stk : Result String DeliveryResult → DeliveryMethod
method_or_stk (ok r) = r.method
method_or_stk (err e) = stk

by_smtp-IsOutcome :
    (env : Env) (cfg : Config) (bf : BookFile) (n k : ℕ) (w w0 : World)
    → length w0.uploads ≤ length w.uploads + k
    → w0.mails ≡ w.mails
    → ((now : ℕ) → smtp_count now w0.events ≡ smtp_count now w.events)
    → IsOutcome k bf w (ok (by_smtp env cfg bf n w0).0, (by_smtp env cfg bf n w0).1)
by_smtp-IsOutcome env cfg bf n k w w0 uploads mails gate =
    let h = by_smtp-IsMailed env cfg bf n w0 in
    record {
      uploads = rw h.uploads uploads;
      mails = omega (arith, h.mails, ap length mails);
      gate = λ now. ap (smtp_count now) h.events ∙ gate now;
      by_stk = λ r e m.
          absurd (stk≢smtp (sym m ∙ ap method_or_stk (sym e) ∙ by_smtp-method env cfg bf n w0));
    }

abbrev succeeded_or_not : Result String DeliveryResult → Bool
succeeded_or_not (ok r) = r.succeeded
succeeded_or_not (err e) = true

after_attempts-IsOutcome :
    (env : Env) (cfg : Config) (bf : BookFile) (n : ℕ) (w : World) (x : Ending × World)
    → IsAttempted n w x.1
    → IsOutcome n bf w (after_attempts env cfg bf x)
unfolding after_attempts
after_attempts-IsOutcome env cfg bf n w (sent k, v) h =
    let meta : Meta =
      ("attempts", MetaValue.number k)
      ∷ ("duration_ms", MetaValue.number (env.elapsed_ms v.reads))
      ∷ [] in
    let logged =
      record_event-IsLogged env "send-stk" bf "send-stk-ok" meta (read v) w.events h.events in
    unless_raised-both (IsOutcome n bf w) (λ e. e) (env.insert_failure (read v).reads) (read v) _
      (record {
        uploads = omega (arith, h.uploads);
        mails = omega (arith, ap length h.mails);
        gate = λ now. IsLogged-smtp_count "send-stk" bf w.events _ now refl logged;
        by_stk = λ r e m. (ap succeeded_or_not (sym e), h.mails, logged);
      })
      (raised-IsOutcome n bf w (read v)
        (record { uploads = h.uploads; mails = h.mails; events = h.events; kept = h.kept }))
after_attempts-IsOutcome env cfg bf n w (given_up k e b, v) h =
    let meta : Meta =
      ("attempts", MetaValue.number k)
      ∷ ("last_error", text_of e)
      ∷ ("auth_expired", MetaValue.flag b)
      ∷ ("fellback_to", MetaValue.text "smtp")
      ∷ [] in
    let m = message_or "send-stk-failed" e in
    unless_raised-both (IsOutcome n bf w) (λ e. e) (env.insert_failure v.reads) v _
      (by_smtp-IsOutcome env cfg bf (k + 1) n w
        (record_event env "send-stk-failed" (some bf.book_id) m meta v) h.uploads h.mails
        (λ now.
          IsLogged-smtp_count "send-stk-failed" bf w.events _ now refl
            (record_event-IsLogged env "send-stk-failed" bf m meta v w.events h.events)))
      (raised-IsOutcome n bf w v h)
after_attempts-IsOutcome env cfg bf n w (escaped m, v) h = raised-IsOutcome n bf w v h m

IsOutcome-read :
    (n : ℕ) (bf : BookFile) (w : World) (x : Result String DeliveryResult × World)
    → IsOutcome n bf (read w) x
    → IsOutcome n bf w x
IsOutcome-read n bf w x h = record {
  uploads = h.uploads;
  mails = h.mails;
  gate = h.gate;
  by_stk = h.by_stk;
}

attempt_stk-IsOutcome :
    (env : Env) (cfg : Config) (bf : BookFile) (w : World)
    → IsOutcome cfg.max_attempts bf w (attempt_stk env cfg bf w)
unfolding attempt_stk
attempt_stk-IsOutcome env cfg bf w =
    after_attempts-IsOutcome env cfg bf cfg.max_attempts w
      (attempts_loop env cfg (entry_of bf) cfg.max_attempts 1 1 0 none w)
      (attempts_loop-IsAttempted env cfg (entry_of bf) cfg.max_attempts 1 1 0 none w)

past_quota-IsOutcome :
    (env : Env) (cfg : Config) (bf : BookFile) (w : World) (status : Option StkQuotaStatus)
    → IsOutcome cfg.max_attempts bf w (past_quota env cfg bf w status)
unfolding past_quota
past_quota-IsOutcome env cfg bf w none = attempt_stk-IsOutcome env cfg bf w
past_quota-IsOutcome env cfg bf w (some status) = elim (Bool-cases status.exhausted) [
  | inl full ↦
      let meta : Meta =
        ("reason", MetaValue.text "stk-cap-reached")
        ∷ ("sent_24h", MetaValue.number status.sent_24h)
        ∷ ("cap", MetaValue.number status.cap)
        ∷ [] in
      rw full (
        unless_raised-both (IsOutcome cfg.max_attempts bf w) (λ e. e)
          (env.insert_failure (read w).reads) (read w) _
          (by_smtp-IsOutcome env cfg bf 1 cfg.max_attempts w (cap_reached env bf status w)
            (omega arith) refl
            (λ now. IsLogged-smtp_count "send-stk-failed" bf w.events _ now refl (
              record_event-IsLogged env "send-stk-failed" bf "stk-cap-reached" meta (read w)
                w.events refl)))
          (raised-IsOutcome cfg.max_attempts bf w (read w) (IsAttempted-read cfg.max_attempts w)))
  | inr open_ ↦
      rw open_ (IsOutcome-read cfg.max_attempts bf w _ (attempt_stk-IsOutcome env cfg bf (read w)))
]

deliver-IsOutcome :
    (env : Env) (cfg : Config) (bf : BookFile) (w : World)
    → IsOutcome cfg.max_attempts bf w (deliver env cfg bf w)
unfolding deliver
deliver-IsOutcome env cfg bf w =
    let P = IsOutcome cfg.max_attempts bf w in
    unless_raised-both P (λ e. e) (env.secrets_failure w.reads) w _
      (if-both P env.is_configured _ _
        (λ on.
          unless_raised-both P (λ e. e) (gate_failure env cfg w) w _
            (past_quota-IsOutcome env cfg bf w (stk_quota env cfg w))
            (raised-IsOutcome cfg.max_attempts bf w w (IsAttempted-refl cfg.max_attempts w)))
        (λ off.
          by_smtp-IsOutcome env cfg bf 1 cfg.max_attempts w w (omega arith) refl (λ now. refl)))
      (raised-IsOutcome cfg.max_attempts bf w w (IsAttempted-refl cfg.max_attempts w))

-- One delivery uploads the file at most `max_attempts` times and mails it at most once.
pub deliver_bounded :
    (env : Env) (cfg : Config) (bf : BookFile) (w : World)
    → let w' = (deliver env cfg bf w).1 in
      (length w'.uploads ≤ length w.uploads + cfg.max_attempts)
      × (length w'.mails ≤ length w.mails + 1)
deliver_bounded env cfg bf w = let h = deliver-IsOutcome env cfg bf w in (h.uploads, h.mails)

-- A delivery that returns the method STK returns success, mails nothing, and adds one event to the
-- log, which has the kind that the quota counts and names the book.
pub deliver_by_stk :
    (env : Env) (cfg : Config) (bf : BookFile) (w : World) (r : DeliveryResult)
    → (deliver env cfg bf w).0 ≡ ok r
    → r.method ≡ stk
    → (r.succeeded ≡ true)
      × ((deliver env cfg bf w).1.mails ≡ w.mails)
      × IsLogged "send-stk" bf w.events (deliver env cfg bf w).1.events
deliver_by_stk env cfg bf w = (deliver-IsOutcome env cfg bf w).by_stk

-- No delivery changes what the gate of SMTP counts: whatever is mailed, the gate reads the same
-- number of mails at any later time.
pub smtp_gate_frozen :
    (env : Env) (cfg : Config) (bf : BookFile) (w : World) (now cap : ℕ)
    → smtp_quota_status now cap (deliver env cfg bf w).1.events ≡ smtp_quota_status now cap w.events
smtp_gate_frozen env cfg bf w now cap = rw ((deliver-IsOutcome env cfg bf w).gate now) refl
