-- ===== src/Db/Books/Queue.antt =====
-- The methods of `BookRepo` by which the queue is worked: claims, failures, parking, the sweep of
-- stale rows and the list of pending books.
use biblichor.Prelude.{
  ℕ, ◌+◌, ◌*◌, String, Bool, true, false, ◌&&◌, not, Option, none, some, List, ◌==◌, ltb, select,
  find?,
}
use Prim.Native.String.{◌++◌}
use biblichor.Prelude.Decimal.{decimal}
use biblichor.Prelude.Sql.{update_where, count_where, order_by}
use biblichor.Domain.Status.{
  Status, queued, searching, needs_review, downloading, converting, sending, skipped, failed,
}
use biblichor.Db.Books.Row.{Book, Books, has_id, sql_eq, is_filled}

-- `status IN ('queued', 'failed', 'needs_review')`
abbrev pub is_claimable : Status → Bool
is_claimable queued = true
is_claimable failed = true
is_claimable needs_review = true
is_claimable _ = false

abbrev pub claims_row : ℕ → Book → Bool
claims_row i b = has_id i b && is_claimable b.status

-- `claim_for_processing`
unfoldable pub claim_for_processing : ℕ → ℕ → Books → Bool × Books
claim_for_processing now i t = (
  count_where (claims_row i) t == 1,
  update_where (claims_row i) (λ b. record b { status = searching; updated_at = now }) t,
)

abbrev pub fail_row : ℕ → String → Book → Book
fail_row now error b = record b {
  status = failed;
  last_error = some error;
  attempts = b.attempts + 1;
  updated_at = now;
}

-- `set_failed`
unfoldable pub set_failed : ℕ → ℕ → String → Books → Books
set_failed now i error t = update_where (has_id i) (fail_row now error) t

-- `set_skipped`
unfoldable pub set_skipped : ℕ → ℕ → String → Books → Books
set_skipped now i error t =
    update_where (has_id i)
      (λ b. record b { status = skipped; last_error = some error; updated_at = now }) t

-- `increment_attempts`
unfoldable pub increment_attempts : ℕ → ℕ → Books → Books
increment_attempts now i t =
    update_where (has_id i) (λ b. record b { attempts = b.attempts + 1; updated_at = now }) t

-- `status IN ('queued', 'failed') AND attempts < ?`
abbrev pub is_pending : ℕ → Book → Bool
is_pending max_attempts b = elim b.status [
  | queued ↦ ltb b.attempts max_attempts
  | failed ↦ ltb b.attempts max_attempts
  | _ ↦ false
]

-- `pending`
unfoldable pub pending : ℕ → Books → List Book
pending max_attempts t = order_by (λ b. b.created_at) (select (is_pending max_attempts) t)

-- `_IN_FLIGHT`
abbrev pub in_flight : Status → Bool
in_flight searching = true
in_flight downloading = true
in_flight converting = true
in_flight sending = true
in_flight _ = false

abbrev pub is_zombie : ℕ → ℕ → Book → Bool
is_zombie now stale_minutes b = in_flight b.status && ltb (b.updated_at + stale_minutes * 60) now

-- `reset_zombies`: the number of rows reset, and the table.
unfoldable pub reset_zombies : ℕ → ℕ → Books → ℕ × Books
reset_zombies now stale_minutes t = (
  count_where (is_zombie now stale_minutes) t,
  update_where (is_zombie now stale_minutes)
      (λ b. record b {
        status = queued;
        last_error = some "reset by zombie sweep (will resume)";
        updated_at = now;
      })
      t,
)

abbrev pub has_file_of : String → Option ℕ → Book → Bool
has_file_of md5 exclude b =
    sql_eq b.md5 md5
    && is_filled b.file_path
    && elim exclude [ none ↦ true | some e ↦ not (b.id == e) ]

-- `find_downloaded_by_md5`
unfoldable pub find_downloaded_by_md5 : String → Option ℕ → Books → Option Book
find_downloaded_by_md5 md5 exclude t = find? (has_file_of md5 exclude) (order_by (λ b. b.id) t)

abbrev pub dedup_row : ℕ → ℕ → String → Book → Book
dedup_row now dedup_of_id md5 b = record b {
  status = skipped;
  last_error = some ("duplicate of book #" ++ decimal dedup_of_id);
  md5 = some md5;
  updated_at = now;
}

-- `mark_dedup`
unfoldable pub mark_dedup : ℕ → ℕ → ℕ → String → Books → Books
mark_dedup now i dedup_of_id md5 t = update_where (has_id i) (dedup_row now dedup_of_id md5) t
