-- ===== src/Kindle/Smtp.antt =====
-- `_smtp_deliver`, `_infer_format` and `_record_event` of src/endless_library/kindle_router.py, and
-- the results of a delivery.
pub mod Counts
use Prim.Native.String.{◌++◌ as ◌++ˢ◌}
use biblichor.Prelude.{
  ℕ, suc, String, Bool, true, false, ◌&&◌, Option, none, some, [], ◌∷◌, ◌++◌, ◌==◌, length, ltb,
  if◌then◌else◌,
}
use biblichor.Prelude.Decimal.{decimal}
use biblichor.Prelude.Text.{
  Text, codes, same_codes, lower, lstrip_if, strip, or_else, suffix, stem, path_name,
}
use biblichor.Db.Events.{Meta, append}
use biblichor.Kindle.Pack.{BookFile}
use biblichor.Kindle.Session.{FileEntry, Mail, World, Env}
use biblichor.Kindle.Quota.{smtp_quota_status, SmtpQuotaStatus, smtp_exhausted}

-- The configuration that the router reads: `cfg.stk`, where the two intervals say only whether
-- they are positive, and `cfg.smtp.daily_cap`, where 0 stands also for a missing value.
pub record Config : Type 0 where
  pub daily_cap : Option ℕ
  pub max_attempts : ℕ
  pub min_send_interval : Bool
  pub per_file_interval : Bool
  pub max_batch_bytes : ℕ
  pub max_batch_files : ℕ
  pub smtp_daily_cap : ℕ

pub data DeliveryMethod : Type 0 where
  stk smtp : DeliveryMethod

pub record DeliveryResult : Type 0 where
  pub succeeded : Bool
  pub method : DeliveryMethod
  pub error : Option String
  pub attempts : ℕ
  pub duration_ms : ℕ

-- A reading of a clock.
abbrev pub read : World → World
read w = record w { reads = suc w.reads }

-- `_record_event`; the time stamp is the table's default, the clock at the insertion.
unfoldable pub record_event : Env → String → Option ℕ → String → Meta → World → World
unfolding append
record_event env kind book_id message meta w = record w {
  events =
      (append (env.now w.reads)
        (record { book_id = book_id; kind = kind; scraper = none; message = message; meta = meta })
        w.events).1;
  reads = suc w.reads;
}

-- `_infer_format`
abbrev pub format_of : Text → String
format_of ext =
    if same_codes ext (codes "epub")
    then "EPUB"
    else if same_codes ext (codes "pdf")
    then "PDF"
    else if same_codes ext (codes "doc")
    then "DOC"
    else if same_codes ext (codes "docx")
    then "DOCX"
    else if same_codes ext (codes "txt")
    then "TXT"
    else if same_codes ext (codes "rtf")
    then "RTF"
    else if same_codes ext (codes "htm")
    then "HTM"
    else if same_codes ext (codes "html")
    then "HTM"
    else if same_codes ext (codes "png")
    then "PNG"
    else if same_codes ext (codes "gif")
    then "GIF"
    else if same_codes ext (codes "jpg")
    then "JPG"
    else if same_codes ext (codes "jpeg")
    then "JPG"
    else if same_codes ext (codes "bmp")
    then "BMP"
    else "EPUB"

unfoldable pub infer_format : Text → String
infer_format path = format_of (lstrip_if (λ c. c == b'.') (lower (suffix (path_name path))))

-- The descriptor that both ways of sending build.
abbrev pub entry_of : BookFile → FileEntry
entry_of bf = record {
  path = bf.file_path;
  title =
      or_else (or_else (strip bf.title) (stem (path_name bf.file_path))) (codes "Unknown title");
  author = or_else (strip bf.author) (codes "Unknown");
  format = infer_format bf.file_path;
  size = bf.size;
}

-- `_send_smtp`, and the `try` around it: `(ok, error)`.
unfoldable pub send_smtp : Env → BookFile → World → (Bool × Option String) × World
send_smtp env bf w =
    let mail : Mail = record { attachment = bf.file_path; title = bf.title; author = bf.author } in
    let w' : World = record w { mails = w.mails ++ mail ∷ [] } in
    elim (env.smtp (length w.mails)) [ none ↦ ((true, none), w') | some m ↦ ((false, some m), w') ]

-- Whether the gate of `_smtp_deliver` refuses, at the n-th reading of the clock.
abbrev pub smtp_gate : Env → Config → World → Bool
smtp_gate env cfg w =
    ltb 0 cfg.smtp_daily_cap
    && env.smtp_log_readable
    && smtp_exhausted (smtp_quota_status (env.now w.reads) cfg.smtp_daily_cap w.events)

abbrev pub smtp_cap_reached : SmtpQuotaStatus → String
smtp_cap_reached qs =
    "smtp-cap-reached (" ++ˢ (decimal qs.sent_24h ++ˢ ("/" ++ˢ (decimal qs.cap ++ˢ ")")))

-- `_smtp_deliver`, called with a database path.
unfoldable pub smtp_deliver : Env → Config → BookFile → World → (Bool × Option String) × World
unfolding send_smtp
smtp_deliver env cfg bf w =
    if smtp_gate env cfg w
    then (
      (
        false,
        some (smtp_cap_reached (smtp_quota_status (env.now w.reads) cfg.smtp_daily_cap w.events)),
      ),
      read w,
    )
    else send_smtp env bf (read w)

-- The return after a fallback to SMTP.
unfoldable pub by_smtp : Env → Config → BookFile → ℕ → World → DeliveryResult × World
unfolding smtp_deliver
by_smtp env cfg bf attempts w =
    let ((sent, error), w') = smtp_deliver env cfg bf w in
    (
      record {
        succeeded = sent;
        method = smtp;
        error = error;
        attempts = attempts;
        duration_ms = env.elapsed_ms w'.reads;
      },
      read w',
    )
