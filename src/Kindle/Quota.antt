-- ===== src/Kindle/Quota.antt =====
-- The two daily quotas, which count rows of the event log: src/endless_library/stk_rate.py and
-- src/endless_library/smtp_rate.py.
use biblichor.Prelude.{ℕ, ◌+◌, ◌-◌, String, Bool, ◌&&◌, ltb, leb, str_eq, if◌then◌else◌}
use biblichor.Prelude.Sql.{count_where}
use biblichor.Db.Events.{Event, Events}

-- `kind = ? AND ts >= datetime('now', '-1 day')`
abbrev pub is_recent : String → ℕ → Event → Bool
is_recent kind now e = str_eq e.kind kind && leb now (e.ts + 86400)

pub record StkQuotaStatus : Type 0 where
  pub sent_24h : ℕ
  pub cap : ℕ
  pub remaining : ℕ
  pub exhausted : Bool

-- `stk_rate.quota_status`
abbrev pub stk_quota_status : ℕ → ℕ → Events → StkQuotaStatus
stk_quota_status now daily_cap t =
    let n = count_where (is_recent "send-stk" now) t in
    record { sent_24h = n; cap = daily_cap; remaining = daily_cap - n; exhausted = leb daily_cap n }

pub record SmtpQuotaStatus : Type 0 where
  pub sent_24h : ℕ
  pub cap : ℕ

-- The properties `remaining` and `exhausted`.
abbrev pub smtp_remaining : SmtpQuotaStatus → ℕ
smtp_remaining s = s.cap - s.sent_24h

abbrev pub smtp_exhausted : SmtpQuotaStatus → Bool
smtp_exhausted s = ltb 0 s.cap && leb s.cap s.sent_24h

-- `smtp_rate.quota_status`
abbrev pub smtp_quota_status : ℕ → ℕ → Events → SmtpQuotaStatus
smtp_quota_status now daily_cap t =
    if leb daily_cap 0
    then record { sent_24h = 0; cap = 0 }
    else record { sent_24h = count_where (is_recent "send-smtp" now) t; cap = daily_cap }
