-- ===== src/Kindle/Tests.antt =====
-- Deliveries of two small files, against a client that refuses its first call.
use biblichor.Prelude.{
  refl, ◌+◌, ◌≤◌, ◌≡◌, true, none, some, List, [], ◌∷◌, length, ltb, All, select, map,
  if◌then◌else◌, ◌==◌,
}
use biblichor.Prelude.Text.{codes}
use biblichor.Prelude.Result.{ok, err}
use biblichor.Kindle.Pack.{BookFile, pack_batches}
use biblichor.Kindle.Pack.Partition.{concat, fits, IsBatch, pack_batches_partition}
use biblichor.Kindle.Errors.{typed_error, other}
use biblichor.Kindle.Session.{World, Env, preflight}
use biblichor.Kindle.Quota.{smtp_quota_status}
use biblichor.Kindle.Smtp.{Config, DeliveryResult, stk, entry_of}
use biblichor.Kindle.Deliver.{deliver}
use biblichor.Kindle.Smtp.Counts.{smtp_count, IsLogged}
use biblichor.Kindle.Deliver.Routes.{deliver_bounded, smtp_gate_frozen, deliver_by_stk}
use biblichor.Kindle.Batch.{deliver_batch}
use biblichor.Kindle.Batch.Total.{IsComplete, deliver_batch-IsComplete, deliver_batch_total}
use biblichor.Kindle.Batch.Bounds.{deliver_batch_bounded}
use biblichor.Kindle.Batch.Sessions.{packed_batches_pass_preflight}

abbrev dune : BookFile
dune = record {
  book_id = 1;
  file_path = codes "/b/dune.epub";
  title = codes "Dune";
  author = codes "Herbert";
  size = 60;
  stat_failure = none;
}

abbrev emma : BookFile
emma = record dune { book_id = 2; size = 70 }

abbrev files : List BookFile
files = dune ∷ emma ∷ []

abbrev env : Env
env = record {
  is_configured = true;
  secrets_failure = λ n. none;
  quota_failure = λ n. none;
  insert_failure = λ n. none;
  lost = λ n t. none;
  build_failure = none;
  client = λ n. if n == 0 then err (other "timeout") else ok "sku";
  smtp = λ n. none;
  now = λ n. 1000 + n;
  elapsed_ms = λ n. n;
  smtp_log_readable = true;
  repr = λ t. "name";
}

abbrev cfg : Config
cfg = record {
  daily_cap = some 10;
  max_attempts = 3;
  min_send_interval = true;
  per_file_interval = true;
  max_batch_bytes = 100;
  max_batch_files = 5;
  smtp_daily_cap = 20;
}

abbrev start : World
start = record { events = []; uploads = []; mails = []; pauses = []; reads = 0 }

deliver_bounded_example :
    let w' = (deliver env cfg dune start).1 in
    (length w'.uploads ≤ length start.uploads + cfg.max_attempts)
    × (length w'.mails ≤ length start.mails + 1)
deliver_bounded_example = deliver_bounded env cfg dune start

smtp_gate_frozen_example :
    smtp_quota_status 2000 20 (deliver env cfg dune start).1.events
    ≡ smtp_quota_status 2000 20 start.events
smtp_gate_frozen_example = smtp_gate_frozen env cfg dune start 2000 20

deliver_batch_total_example :
    (rs : List DeliveryResult) × ((deliver_batch env cfg files start).0 ≡ ok rs)
    × (length rs ≡ length files)
deliver_batch_total_example =
    deliver_batch_total env cfg files start (λ n. refl) (λ n t. refl) refl refl refl

deliver_batch-IsComplete_example :
    IsComplete 2
      (deliver_batch env cfg (dune ∷ record emma { stat_failure = some "gone" } ∷ []) start)
deliver_batch-IsComplete_example =
    deliver_batch-IsComplete env cfg (dune ∷ record emma { stat_failure = some "gone" } ∷ []) start

deliver_batch_bounded_example :
    let w' = (deliver_batch env cfg files start).1 in
    (length w'.uploads
      ≤ length start.uploads + length (select (fits cfg.max_batch_bytes cfg.max_batch_files) files))
    × (length w'.mails ≤ length start.mails + length files)
    × (smtp_count 2000 w'.events ≡ smtp_count 2000 start.events)
deliver_batch_bounded_example = deliver_batch_bounded env cfg files start 2000

pack_batches_partition_example :
    let (batches, oversized) = pack_batches 100 5 files in
    (concat batches ≡ select (fits 100 5) files)
    × (oversized ≡ select (λ bf. ltb 100 bf.size) files)
    × All (IsBatch 100 5) batches
pack_batches_partition_example = pack_batches_partition 100 5 files

packed_batches_pass_preflight_example :
    All (λ batch. preflight env 100 (map entry_of batch) ≡ none) (pack_batches 100 5 files).0
packed_batches_pass_preflight_example = packed_batches_pass_preflight env 100 5 files

-- The second attempt succeeds.
abbrev sent : DeliveryResult
sent = record { succeeded = true; method = stk; error = none; attempts = 2; duration_ms = 3 }

delivered : (deliver env cfg dune start).0 ≡ ok sent
unfolding deliver typed_error
delivered = refl

deliver_by_stk_example :
    (sent.succeeded ≡ true)
    × ((deliver env cfg dune start).1.mails ≡ start.mails)
    × IsLogged "send-stk" dune start.events (deliver env cfg dune start).1.events
deliver_by_stk_example = deliver_by_stk env cfg dune start sent delivered refl
