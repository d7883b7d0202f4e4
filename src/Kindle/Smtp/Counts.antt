-- ===== src/Kindle/Smtp/Counts.antt =====
-- What a mail and an event change.
use biblichor.Prelude.{
  ◌&&◌, leb, str_eq, ℕ, suc, ◌+◌, ◌≤◌, ◌≡◌, refl, sym, ap, ◌∙◌, inl, inr, Bool, false, String, none,
  some, [], ◌∷◌, ◌++◌, length, length-append, Bool-cases, arith,
}
use mathlib.Core.Path.{subst}
use biblichor.Prelude.Sql.{count_where, next_rowid}
use biblichor.Db.Events.{Event, Events, Meta}
use biblichor.Kindle.Pack.{BookFile}
use biblichor.Kindle.Quota.{is_recent}
use biblichor.Kindle.Session.{World, Env, Mail}
use biblichor.Kindle.Smtp.{Config, read, record_event, send_smtp, smtp_gate, smtp_deliver, by_smtp}

-- The events that the gate of SMTP counts.
abbrev pub smtp_count : ℕ → Events → ℕ
smtp_count now t = count_where (is_recent "send-smtp" now) t

pub count_where-append :
    (p : Event → Bool) (xs ys : Events)
    → count_where p (xs ++ ys) ≡ count_where p xs + count_where p ys
count_where-append p [] ys = omega arith
count_where-append p (x ∷ xs) ys = ground (arith, count_where-append p xs ys)

-- A delivery by SMTP leaves the log and the uploads alone and sends at most one mail.
pub record IsMailed (w w' : World) : Type 0 where
  pub events : w'.events ≡ w.events
  pub uploads : w'.uploads ≡ w.uploads
  pub mails : length w'.mails ≤ length w.mails + 1

send_smtp-IsMailed :
    (env : Env) (bf : BookFile) (w : World) → IsMailed w (send_smtp env bf (read w)).1
unfolding send_smtp
send_smtp-IsMailed env bf w =
    let mail : Mail = record { attachment = bf.file_path; title = bf.title; author = bf.author } in
    let done : IsMailed w (record w { mails = w.mails ++ mail ∷ []; reads = suc w.reads }) =
      record {
        events = refl;
        uploads = refl;
        mails = omega (arith, length-append w.mails (mail ∷ []));
      } in
    ground (arith, done)

pub smtp_deliver-IsMailed :
    (env : Env) (cfg : Config) (bf : BookFile) (w : World)
    → IsMailed w (smtp_deliver env cfg bf w).1
unfolding smtp_deliver
smtp_deliver-IsMailed env cfg bf w = elim (Bool-cases (smtp_gate env cfg w)) [
  | inl h ↦ rw h (record { events = refl; uploads = refl; mails = omega arith })
  | inr h ↦ rw h (send_smtp-IsMailed env bf w)
]

pub by_smtp-IsMailed :
    (env : Env) (cfg : Config) (bf : BookFile) (n : ℕ) (w : World)
    → IsMailed w (by_smtp env cfg bf n w).1
unfolding by_smtp
by_smtp-IsMailed env cfg bf n w =
    let h = smtp_deliver-IsMailed env cfg bf w in
    record { events = h.events; uploads = h.uploads; mails = h.mails }

-- An event for the book of another kind than SMTP's.
pub record IsLogged (kind : String) (bf : BookFile) (t t' : Events) : Type 0 where
  pub row : Event
  pub kind_of : row.kind ≡ kind
  pub book : row.book_id ≡ some bf.book_id
  pub last : t' ≡ t ++ row ∷ []

pub record_event-IsLogged :
    (env : Env) (kind : String) (bf : BookFile) (m : String) (meta : Meta) (w : World) (t : Events)
    → w.events ≡ t
    → IsLogged kind bf t (record_event env kind (some bf.book_id) m meta w).events
unfolding record_event
record_event-IsLogged env kind bf m meta w t h =
    let new : Event = record {
      id = next_rowid (λ (x : Event). x.id) w.events;
      book_id = some bf.book_id;
      ts = env.now w.reads;
      kind = kind;
      scraper = none;
      message = m;
      meta = meta;
    } in
    record { row = new; kind_of = refl; book = refl; last = ap (λ l. l ++ new ∷ []) h }

pub IsLogged-smtp_count :
    (kind : String) (bf : BookFile) (t t' : Events) (now : ℕ)
    → str_eq kind "send-smtp" ≡ false
    → IsLogged kind bf t t'
    → smtp_count now t' ≡ smtp_count now t
IsLogged-smtp_count kind bf t t' now other h =
    let uncounted : is_recent "send-smtp" now h.row ≡ false =
      subst (λ k. (str_eq k "send-smtp" && leb now (h.row.ts + 86400)) ≡ false) (sym h.kind_of)
        (rw other refl) in
    ap (smtp_count now) h.last
    ∙ count_where-append (is_recent "send-smtp" now) t (h.row ∷ [])
    ∙ rw uncounted (omega arith)
