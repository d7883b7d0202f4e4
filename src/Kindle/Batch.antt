-- ===== src/Kindle/Batch.antt =====
-- `deliver_batch` of src/endless_library/kindle_router.py.
pub mod Learns
pub mod Total
pub mod Sessions
pub mod Growth
pub mod Bounds
use Prim.Native.String.{◌++◌ as ◌++ˢ◌}
use biblichor.Prelude.{
  ℕ, ◌/◌, ◌==◌, String, true, false, Option, none, some, List, [], ◌∷◌, map, length, if◌then◌else◌,
}
use biblichor.Prelude.Decimal.{decimal}
use biblichor.Prelude.Text.{Text}
use biblichor.Prelude.Result.{Result, ok, err}
use biblichor.Db.Events.{MetaValue}
use biblichor.Kindle.Pack.{BookFile, first_failure, pack_batches}
use biblichor.Kindle.Pack.Partition.{total_bytes}
use biblichor.Kindle.Errors.{message_of}
use biblichor.Kindle.Session.{
  World, Env, unless_raised, Raised, typed, untyped, between_sends, send_files,
}
use biblichor.Kindle.Quota.{StkQuotaStatus}
use biblichor.Kindle.Smtp.{
  Config, DeliveryResult, stk, smtp, read, record_event, smtp_deliver, entry_of,
}
use biblichor.Kindle.Deliver.{gate_failure, pause_if, message_or, stk_quota}

-- What leaves `deliver_batch`: the key of a `KeyError`, or the text of another exception.
pub data BatchError : Type 0 where
  key_error : ℕ → BatchError
  raised : String → BatchError

-- `result_map`: a dictionary from the identifiers of books, the newest entry first.
abbrev pub ResultMap : Type 0
ResultMap = List (ℕ × DeliveryResult)

-- What the loops that fill it end with.
abbrev pub Mapped : Type 0
Mapped = Result BatchError ResultMap × World

abbrev pub lookup : ℕ → ResultMap → Option DeliveryResult
lookup i [] = none
lookup i ((j, r) ∷ m) = if j == i then some r else lookup i m

-- A book that goes by SMTP, the result with the number of attempts that the caller gives.
unfoldable pub fall_back : Env → Config → ℕ → BookFile → World → DeliveryResult × World
unfolding smtp_deliver
fall_back env cfg attempts bf w =
    let ((sent, error), w') = smtp_deliver env cfg bf w in
    (
      record {
        succeeded = sent;
        method = smtp;
        error = error;
        attempts = attempts;
        duration_ms = env.elapsed_ms w'.reads;
      },
      read w',
    )

-- The loop when the session is not available.
unfoldable pub all_by_smtp : Env → Config → List BookFile → World → List DeliveryResult × World
unfolding fall_back
all_by_smtp env cfg [] w = ([], w)
all_by_smtp env cfg (bf ∷ bfs) w =
    let (r, w') = fall_back env cfg 1 bf (read w) in
    let (rs, w'') = all_by_smtp env cfg bfs w' in (r ∷ rs, w'')

abbrev too_large : BookFile → String
too_large bf = "file-too-large-for-stk (" ++ˢ (decimal (bf.size / 1048576) ++ˢ " MB > 200 MB)")

-- The loop over the oversized files.
unfoldable pub refuse_oversized : Env → List BookFile → ResultMap → World → Mapped
unfolding record_event
refuse_oversized env [] m w = (ok m, w)
refuse_oversized env (bf ∷ bfs) m w = unless_raised raised (env.lost w.reads bf.file_path) w (
    unless_raised raised (env.insert_failure w.reads) w (
      refuse_oversized env bfs
        ((
          bf.book_id,
          record {
            succeeded = false;
            method = stk;
            error = some (too_large bf);
            attempts = 0;
            duration_ms = 0;
          },
        )
          ∷ m)
        (record_event env "send-stk-failed" (some bf.book_id) (too_large bf)
          (("reason", MetaValue.text "file-too-large-for-stk")
            ∷ ("size_bytes", MetaValue.number bf.size)
            ∷ [])
          w)))

-- The loop over the books of a session that succeeded.
unfoldable pub mark_sent : Env → ℕ → List BookFile → ResultMap → World → Mapped
unfolding record_event
mark_sent env batch_dur [] m w = (ok m, w)
mark_sent env batch_dur (bf ∷ bfs) m w = unless_raised raised (env.insert_failure w.reads) w (
    mark_sent env batch_dur bfs
      ((
        bf.book_id,
        record {
          succeeded = true;
          method = stk;
          error = none;
          attempts = 1;
          duration_ms = batch_dur;
        },
      )
        ∷ m)
      (record_event env "send-stk" (some bf.book_id) "send-stk-ok"
        (("batch", MetaValue.flag true) ∷ ("duration_ms", MetaValue.number batch_dur) ∷ []) w))

-- The loop over the books of a session that failed.
unfoldable pub send_by_smtp :
    Env → Config → Option String → List BookFile → ResultMap → World → Mapped
unfolding record_event fall_back
send_by_smtp env cfg batch_error [] m w = (ok m, w)
send_by_smtp env cfg batch_error (bf ∷ bfs) m w =
    unless_raised raised (env.insert_failure w.reads) w (
      let (r, w') = fall_back env cfg 2 bf (
        record_event env "send-stk-failed" (some bf.book_id)
          (message_or "stk-batch-failed" batch_error)
          (("batch", MetaValue.flag true) ∷ ("fell_back_to", MetaValue.text "smtp") ∷ []) w) in
      send_by_smtp env cfg batch_error bfs ((bf.book_id, r) ∷ m) w')

abbrev pub text_raised : Raised → String
text_raised (typed e) = message_of e
text_raised (untyped m) = m

-- The event of a session that succeeded.
abbrev batch_ok_event : Env → ℕ → List BookFile → World → World
unfolding record_event
batch_ok_event env batch_dur batch w =
    record_event env "send-stk-batch" none
      ("stk-batch-ok: "
        ++ˢ (decimal (length batch)
            ++ˢ (" files, " ++ˢ (decimal (total_bytes batch / 1024) ++ˢ " KB"))))
      (("file_count", MetaValue.number (length batch))
        ∷ ("total_bytes", MetaValue.number (total_bytes batch))
        ∷ ("book_ids", MetaValue.numbers (map (λ (bf : BookFile). bf.book_id) batch))
        ∷ ("duration_ms", MetaValue.number batch_dur)
        ∷ [])
      w

-- The sum of the sizes of the batch: the first exception of its `stat()`.
abbrev pub first_lost : Env → List BookFile → World → Option String
first_lost env [] w = none
first_lost env (bf ∷ bfs) w =
    let later = first_lost env bfs w in
    elim (env.lost w.reads bf.file_path) [ some e ↦ some e | none ↦ later ]

-- What `try: stk_svc.send_files(…)` and the rest of the round make of its answer.
unfoldable pub after_session :
    Env → Config → List BookFile → ResultMap → Result Raised (List (String × Text)) → World → Mapped
unfolding mark_sent send_by_smtp
after_session env cfg batch m (ok skus) w =
    unless_raised raised (first_lost env batch (read w)) (read w) (
      unless_raised raised (env.insert_failure (read w).reads) (read w) (
        mark_sent env (env.elapsed_ms w.reads) batch m
          (batch_ok_event env (env.elapsed_ms w.reads) batch (read w))))
after_session env cfg batch m (err e) w =
    unless_raised raised (first_lost env batch (read w)) (read w)
      (send_by_smtp env cfg (some (text_raised e)) batch m (read w))

-- One round of the loop over the batches.
unfoldable pub send_batch : Env → Config → List BookFile → ResultMap → World → Mapped
unfolding send_files after_session
send_batch env cfg batch m w =
    let (answer, w') =
      send_files env cfg.per_file_interval cfg.max_batch_bytes (map entry_of batch)
        (pause_if cfg.min_send_interval between_sends (read w)) in
    after_session env cfg batch m answer w'

-- The rest of the function, when the part before returned.
abbrev pub and_then :
    {A : Type 0}
    → Mapped
    → (ResultMap → World → Result BatchError A × World)
    → Result BatchError A × World
and_then (ok m, w) f = f m w
and_then (err e, w) f = (err e, w)

-- The loop over the batches.
unfoldable pub send_batches : Env → Config → List (List BookFile) → ResultMap → World → Mapped
unfolding send_batch
send_batches env cfg [] m w = (ok m, w)
send_batches env cfg (batch ∷ batches) m w =
    and_then (send_batch env cfg batch m w) (send_batches env cfg batches)

-- `results.append(result_map[bf.book_id])` before the rest; a missing key is a `KeyError`.
abbrev pub add_result :
    ℕ
    → Option DeliveryResult
    → Result BatchError (List DeliveryResult)
    → Result BatchError (List DeliveryResult)
add_result i none rest = err (key_error i)
add_result i (some r) (ok rs) = ok (r ∷ rs)
add_result i (some r) (err j) = err j

unfoldable pub collect : List BookFile → ResultMap → Result BatchError (List DeliveryResult)
collect [] m = ok []
collect (bf ∷ bfs) m = add_result bf.book_id (lookup bf.book_id m) (collect bfs m)

unfoldable pub by_sessions :
    Env → Config → List BookFile → World → Result BatchError (List DeliveryResult) × World
unfolding pack_batches refuse_oversized send_batches collect
by_sessions env cfg files w =
    let (batches, oversized) = pack_batches cfg.max_batch_bytes cfg.max_batch_files files in
    and_then (refuse_oversized env oversized [] w)
      (λ m w'. and_then (send_batches env cfg batches m w') (λ m' w''. (collect files m', w'')))

-- The packing asks for the sizes first.
abbrev pub pack_and_send :
    Env → Config → List BookFile → World → Result BatchError (List DeliveryResult) × World
unfolding by_sessions
pack_and_send env cfg files w =
    unless_raised raised (first_failure files) w (by_sessions env cfg files w)

-- The quota that the pre-check read.
unfoldable pub past_gate :
    Env
    → Config
    → List BookFile
    → World
    → Option StkQuotaStatus
    → Result BatchError (List DeliveryResult) × World
unfolding by_sessions all_by_smtp
past_gate env cfg files w none = pack_and_send env cfg files w
past_gate env cfg files w (some status) =
    if status.exhausted
    then (let (rs, w') = all_by_smtp env cfg files (read w) in (ok rs, w'))
    else pack_and_send env cfg files (read w)

-- `deliver_batch`. The first reading is `time.monotonic()`.
unfoldable pub deliver_batch :
    Env → Config → List BookFile → World → Result BatchError (List DeliveryResult) × World
unfolding past_gate all_by_smtp
deliver_batch env cfg files w = unless_raised raised (env.secrets_failure (read w).reads) (read w) (
    if env.is_configured
    then unless_raised raised (gate_failure env cfg (read w)) (read w)
        (past_gate env cfg files (read w) (stk_quota env cfg (read w)))
    else (let (rs, w') = all_by_smtp env cfg files (read w) in (ok rs, w')))
