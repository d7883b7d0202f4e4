-- ===== src/Kindle/Batch/Bounds.antt =====
-- How often `deliver_batch` uploads and mails.
use mathlib.Core.Path.{subst}
use biblichor.Prelude.{
  ℕ, suc, ◌+◌, ◌≤◌, ◌≡◌, refl, ap, Bool, String, Option, none, some, List, [], ◌∷◌, map, length,
  length-append, if-both, select, arith,
}
use biblichor.Prelude.Text.{Text}
use biblichor.Prelude.Result.{Result, ok, err}
use biblichor.Kindle.Pack.{first_failure, BookFile, pack_batches}
use biblichor.Kindle.Pack.Partition.{concat, fits, pack_batches_partition}
use biblichor.Kindle.Quota.{StkQuotaStatus}
use biblichor.Kindle.Session.{
  unless_raised, unless_raised-both, World, Env, Raised, between_sends, in_session, first_raised,
  build_client, require_configured, preflight,
}
use biblichor.Kindle.Smtp.{Config, DeliveryResult, read, entry_of}
use biblichor.Kindle.Deliver.{gate_failure, stk_quota, pause_if}
use biblichor.Kindle.Deliver.Attempts.{IsAttempted, IsAttempted-trans, IsAttempted-pause}
use biblichor.Kindle.Smtp.Counts.{smtp_count}
use biblichor.Kindle.Batch.{
  Mapped, and_then, first_lost, BatchError, raised, pack_and_send, ResultMap, fall_back,
  refuse_oversized, mark_sent, send_by_smtp, after_session, send_batch, send_batches, all_by_smtp,
  by_sessions, past_gate, deliver_batch, text_raised,
}
use biblichor.Kindle.Batch.Growth.{
  IsBounded, IsBounded-IsAttempted, IsBounded-fall_back, IsBounded-read, IsBounded-record_event,
  IsBounded-refl, IsBounded-trans, in_session-IsAttempted,
}

-- An exception before the rest.
or_raised :
    (k l : ℕ) (o : Option String) (w : World) (x : Mapped)
    → IsBounded k l w x.1
    → IsBounded k l w (unless_raised raised o w x).1
or_raised k l o w x h =
    unless_raised-both (λ (x : Mapped). IsBounded k l w x.1) raised o w x h
      (λ e. IsBounded-refl k l w)

refuse_oversized-IsBounded :
    (env : Env) (bfs : List BookFile) (m : ResultMap) (w : World)
    → IsBounded 0 0 w (refuse_oversized env bfs m w).1
unfolding refuse_oversized
refuse_oversized-IsBounded env [] m w = IsBounded-refl 0 0 w
refuse_oversized-IsBounded env (bf ∷ bfs) m w = or_raised 0 0 (env.lost w.reads bf.file_path) w _ (
    or_raised 0 0 (env.insert_failure w.reads) w _ (
      IsBounded-trans 0 0 0 0 0 0 w _ _ (omega arith) (omega arith)
        (IsBounded-record_event env "send-stk-failed" (some bf.book_id) _ _ w refl)
        (refuse_oversized-IsBounded env bfs _ _)))

mark_sent-IsBounded :
    (env : Env) (d : ℕ) (bfs : List BookFile) (m : ResultMap) (w : World)
    → IsBounded 0 0 w (mark_sent env d bfs m w).1
unfolding mark_sent
mark_sent-IsBounded env d [] m w = IsBounded-refl 0 0 w
mark_sent-IsBounded env d (bf ∷ bfs) m w = or_raised 0 0 (env.insert_failure w.reads) w _ (
    IsBounded-trans 0 0 0 0 0 0 w _ _ (omega arith) (omega arith)
      (IsBounded-record_event env "send-stk" (some bf.book_id) _ _ w refl)
      (mark_sent-IsBounded env d bfs _ _))

send_by_smtp-IsBounded :
    (env : Env) (cfg : Config) (e : Option String) (bfs : List BookFile) (m : ResultMap) (w : World)
    → IsBounded 0 (length bfs) w (send_by_smtp env cfg e bfs m w).1
unfolding send_by_smtp
send_by_smtp-IsBounded env cfg e [] m w = IsBounded-refl 0 0 w
send_by_smtp-IsBounded env cfg e (bf ∷ bfs) m w =
    or_raised 0 (suc (length bfs)) (env.insert_failure w.reads) w _ (
      IsBounded-trans 0 1 0 (length bfs) 0 (suc (length bfs)) w _ _ (omega arith) (omega arith)
        (IsBounded-trans 0 0 0 1 0 1 w _ _ (omega arith) (omega arith)
          (IsBounded-record_event env "send-stk-failed" (some bf.book_id) _ _ w refl)
          (IsBounded-fall_back env cfg 2 bf _))
        (send_by_smtp-IsBounded env cfg e bfs _ _))

after_session-IsBounded :
    (env : Env) (cfg : Config) (batch : List BookFile) (m : ResultMap)
    (a : Result Raised (List (String × Text))) (w : World)
    → IsBounded 0 (length batch) w (after_session env cfg batch m a w).1
unfolding after_session
after_session-IsBounded env cfg batch m (ok skus) w =
    let n = length batch in
    IsBounded-trans 0 0 0 n 0 n w (read w) _ (omega arith) (omega arith) (IsBounded-read w) (
      or_raised 0 n (first_lost env batch (read w)) (read w) _ (
        or_raised 0 n (env.insert_failure (read w).reads) (read w) _ (
          IsBounded-trans 0 0 0 0 0 n (read w) _ _ (omega arith) (omega arith)
            (IsBounded-record_event env "send-stk-batch" none _ _ (read w) refl)
            (mark_sent-IsBounded env (env.elapsed_ms w.reads) batch m _))))
after_session-IsBounded env cfg batch m (err e) w =
    let n = length batch in
    IsBounded-trans 0 0 0 n 0 n w (read w) _ (omega arith) (omega arith) (IsBounded-read w) (
      or_raised 0 n (first_lost env batch (read w)) (read w) _
        (send_by_smtp-IsBounded env cfg (some (text_raised e)) batch m (read w)))

length-map : (bfs : List BookFile) → length (map entry_of bfs) ≡ length bfs
length-map [] = refl
length-map (bf ∷ bfs) = ap suc (length-map bfs)

send_batch-IsBounded :
    (env : Env) (cfg : Config) (batch : List BookFile) (m : ResultMap) (w : World)
    → IsBounded (length batch) (length batch) w (send_batch env cfg batch m w).1
unfolding send_batch
send_batch-IsBounded env cfg batch m w =
    let n = length batch in
    let w0 : World = pause_if cfg.min_send_interval between_sends (read w) in
    let failure =
      first_raised (require_configured env) (
        first_raised (preflight env cfg.max_batch_bytes (map entry_of batch)) (build_client env)) in
    let a = in_session env cfg.per_file_interval (map entry_of batch) w0 failure in
    let session : IsAttempted n w0 a.1 =
      subst (λ n. IsAttempted n w0 a.1) (length-map batch)
        (in_session-IsAttempted env cfg.per_file_interval (map entry_of batch) w0 failure) in
    IsBounded-trans n 0 0 n n n w a.1 _ (omega arith) (omega arith)
      (IsBounded-trans 0 0 n 0 n 0 w (read w) a.1 (omega arith) (omega arith) (IsBounded-read w) (
        IsBounded-IsAttempted n 0 (read w) a.1 (
          IsAttempted-trans 0 n n (read w) w0 a.1 (omega arith)
            (IsAttempted-pause cfg.min_send_interval between_sends (read w)) session)))
      (after_session-IsBounded env cfg batch m a.0 a.1)

and_then-IsBounded :
    {A : Type 0} (k l n : ℕ) (w : World) (x : Mapped)
    (f : ResultMap → World → Result BatchError A × World)
    → k + l ≤ n
    → IsBounded k k w x.1
    → ((m : ResultMap) (v : World) → IsBounded l l v (f m v).1)
    → IsBounded n n w (and_then x f).1
and_then-IsBounded k l n w (ok m, v) f le h g = IsBounded-trans k k l l n n w v _ le le h (g m v)
and_then-IsBounded k l n w (err e, v) f le h g =
    IsBounded-trans k k l l n n w v v le le h (IsBounded-refl l l v)

send_batches-IsBounded :
    (env : Env) (cfg : Config) (batches : List (List BookFile)) (m : ResultMap) (w : World)
    → IsBounded
        (length (concat batches))
        (length (concat batches))
        w
        (send_batches env cfg batches m w).1
unfolding send_batches
send_batches-IsBounded env cfg [] m w = IsBounded-refl 0 0 w
send_batches-IsBounded env cfg (batch ∷ batches) m w =
    let n = length (concat batches) in
    and_then-IsBounded (length batch) n _ w (send_batch env cfg batch m w) _
      (omega (arith, length-append batch (concat batches))) (send_batch-IsBounded env cfg batch m w)
      (send_batches-IsBounded env cfg batches)

length-select : (p : BookFile → Bool) (bfs : List BookFile) → length (select p bfs) ≤ length bfs
length-select p [] = omega arith
length-select p (bf ∷ bfs) = ground (arith, length-select p bfs)

abbrev fitting : Config → List BookFile → ℕ
fitting cfg files = length (select (fits cfg.max_batch_bytes cfg.max_batch_files) files)

by_sessions-IsBounded :
    (env : Env) (cfg : Config) (files : List BookFile) (w : World)
    → IsBounded (fitting cfg files) (length files) w (by_sessions env cfg files w).1
unfolding by_sessions
by_sessions-IsBounded env cfg files w =
    let (batches, oversized) = pack_batches cfg.max_batch_bytes cfg.max_batch_files files in
    let parts = pack_batches_partition cfg.max_batch_bytes cfg.max_batch_files files in
    let kept = length-select (fits cfg.max_batch_bytes cfg.max_batch_files) files in
    let n = length (concat batches) in
    IsBounded-trans n n 0 0 (fitting cfg files) (length files) w _ _
      (omega (arith, ap length parts.0)) (omega (arith, ap length parts.0, kept))
      (and_then-IsBounded 0 n n w (refuse_oversized env oversized [] w) _ (omega arith)
        (refuse_oversized-IsBounded env oversized [] w)
        (λ m v.
          and_then-IsBounded n 0 n v (send_batches env cfg batches m v) _ (omega arith)
            (send_batches-IsBounded env cfg batches m v) (λ m' v'. IsBounded-refl 0 0 v')))
      (IsBounded-refl 0 0 _)

all_by_smtp-IsBounded :
    (env : Env) (cfg : Config) (k : ℕ) (bfs : List BookFile) (w : World)
    → IsBounded k (length bfs) w (all_by_smtp env cfg bfs w).1
unfolding all_by_smtp
all_by_smtp-IsBounded env cfg k [] w = IsBounded-refl k 0 w
all_by_smtp-IsBounded env cfg k (bf ∷ bfs) w =
    let (r, w') = fall_back env cfg 1 bf (read w) in
    IsBounded-trans 0 1 k (length bfs) k (suc (length bfs)) w w' _ (omega arith) (omega arith)
      (IsBounded-trans 0 0 0 1 0 1 w (read w) w' (omega arith) (omega arith) (IsBounded-read w)
        (IsBounded-fall_back env cfg 1 bf (read w)))
      (all_by_smtp-IsBounded env cfg k bfs w')

abbrev Answer : Type 0
Answer = Result BatchError (List DeliveryResult) × World

pack_and_send-IsBounded :
    (env : Env) (cfg : Config) (files : List BookFile) (w : World)
    → IsBounded (fitting cfg files) (length files) w (pack_and_send env cfg files w).1
unfolding pack_and_send
pack_and_send-IsBounded env cfg files w =
    let k = fitting cfg files in
    let n = length files in
    unless_raised-both (λ (x : Answer). IsBounded k n w x.1) raised (first_failure files) w _
      (by_sessions-IsBounded env cfg files w) (λ e. IsBounded-refl k n w)

past_gate-IsBounded :
    (env : Env) (cfg : Config) (files : List BookFile) (w : World) (q : Option StkQuotaStatus)
    → IsBounded (fitting cfg files) (length files) w (past_gate env cfg files w q).1
unfolding past_gate
past_gate-IsBounded env cfg files w none = pack_and_send-IsBounded env cfg files w
past_gate-IsBounded env cfg files w (some status) =
    let k = fitting cfg files in
    let n = length files in
    if-both (λ (x : Answer). IsBounded k n w x.1) status.exhausted _ _
      (λ full.
        IsBounded-trans 0 0 k n k n w (read w) _ (omega arith) (omega arith) (IsBounded-read w)
          (all_by_smtp-IsBounded env cfg k files (read w)))
      (λ room.
        IsBounded-trans 0 0 k n k n w (read w) _ (omega arith) (omega arith) (IsBounded-read w)
          (pack_and_send-IsBounded env cfg files (read w)))

deliver_batch-IsBounded :
    (env : Env) (cfg : Config) (files : List BookFile) (w : World)
    → IsBounded (fitting cfg files) (length files) w (deliver_batch env cfg files w).1
unfolding deliver_batch
deliver_batch-IsBounded env cfg files w =
    let k = fitting cfg files in
    let n = length files in
    let P : Answer → Type 0 = λ x. IsBounded k n (read w) x.1 in
    IsBounded-trans 0 0 k n k n w (read w) _ (omega arith) (omega arith) (IsBounded-read w) (
      unless_raised-both P raised (env.secrets_failure (read w).reads) (read w) _
        (if-both P env.is_configured _ _
          (λ on.
            unless_raised-both P raised (gate_failure env cfg (read w)) (read w) _
              (past_gate-IsBounded env cfg files (read w) (stk_quota env cfg (read w)))
              (λ e. IsBounded-refl k n (read w)))
          (λ off. all_by_smtp-IsBounded env cfg k files (read w)))
        (λ e. IsBounded-refl k n (read w)))

-- A batch delivery calls the client at most once for each file that fits in a batch, mails at most
-- once for each file, and leaves the count of the gate of SMTP as it was.
pub deliver_batch_bounded :
    (env : Env) (cfg : Config) (files : List BookFile) (w : World) (now : ℕ)
    → let w' = (deliver_batch env cfg files w).1 in
      (length w'.uploads
        ≤ length w.uploads + length (select (fits cfg.max_batch_bytes cfg.max_batch_files) files))
      × (length w'.mails ≤ length w.mails + length files)
      × (smtp_count now w'.events ≡ smtp_count now w.events)
deliver_batch_bounded env cfg files w now =
    let h = deliver_batch-IsBounded env cfg files w in (h.uploads, h.mails, h.gate now)
