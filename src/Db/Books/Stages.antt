-- ===== src/Db/Books/Stages.antt =====
-- The methods of `BookRepo` that write statuses and stage timestamps, and the two resets.
use biblichor.Prelude.{ℕ, String, Option, none, some}
use biblichor.Prelude.Sql.{update_where}
use biblichor.Domain.Status.{Status, queued, downloading, sent, kindled}
use biblichor.Db.Books.Row.{Book, Books, has_id}

-- A column that is written only if the argument is not None, and SQL's COALESCE.
abbrev pub keep_or {ℓ} : {A : Type ℓ} → Option A → Option A → Option A
keep_or none old = old
keep_or (some v) old = some v

-- The optional arguments of `set_status`.
pub record StatusArgs : Type 0 where
  pub error : Option String
  pub format : Option String
  pub file_path : Option String
  pub md5 : Option String
  pub file_size : Option ℕ

abbrev pub no_args : StatusArgs
no_args = record { error = none; format = none; file_path = none; md5 = none; file_size = none }

abbrev pub stamp_downloaded : ℕ → Status → Option ℕ → Option ℕ
stamp_downloaded now downloading old = some now
stamp_downloaded now _ old = old

abbrev pub stamp_sent : ℕ → Status → Option ℕ → Option ℕ
stamp_sent now sent old = some now
stamp_sent now _ old = old

abbrev pub status_row : ℕ → Status → StatusArgs → Book → Book
status_row now status a b = record b {
  status = status;
  updated_at = now;
  last_error = keep_or a.error b.last_error;
  format = keep_or a.format b.format;
  file_path = keep_or a.file_path b.file_path;
  md5 = keep_or a.md5 b.md5;
  file_size = keep_or a.file_size b.file_size;
  downloaded_at = stamp_downloaded now status b.downloaded_at;
  sent_at = stamp_sent now status b.sent_at;
}

-- `set_status`
unfoldable pub set_status : ℕ → ℕ → Status → StatusArgs → Books → Books
set_status now i status a t = update_where (has_id i) (status_row now status a) t

pub data Stage : Type 0 where
  searched downloaded converted delivered : Stage

abbrev pub stage_row : ℕ → Stage → Book → Book
stage_row now searched b = record b { searched_at = some now; updated_at = now }
stage_row now downloaded b = record b { downloaded_at = some now; updated_at = now }
stage_row now converted b = record b { converted_at = some now; updated_at = now }
stage_row now delivered b = record b { sent_at = some now; updated_at = now }

-- `mark_stage`
unfoldable pub mark_stage : ℕ → ℕ → Stage → Books → Books
mark_stage now i stage t = update_where (has_id i) (stage_row now stage) t

abbrev pub clear_row : ℕ → Stage → Book → Book
clear_row now searched b = record b {
  searched_at = none;
  downloaded_at = none;
  converted_at = none;
  sent_at = none;
  updated_at = now;
}
clear_row now downloaded b = record b {
  downloaded_at = none;
  converted_at = none;
  sent_at = none;
  updated_at = now;
}
clear_row now converted b = record b { converted_at = none; sent_at = none; updated_at = now }
clear_row now delivered b = record b { sent_at = none; updated_at = now }

-- `clear_stages_from`
unfoldable pub clear_stages_from : ℕ → ℕ → Stage → Books → Books
clear_stages_from now i stage t = update_where (has_id i) (clear_row now stage) t

-- `set_tags`: with neither argument no statement is run.
unfoldable pub set_tags : ℕ → ℕ → Option String → Option String → Books → Books
set_tags now i none none t = t
set_tags now i series tags t =
    update_where (has_id i)
      (λ b. record b {
        series = keep_or series b.series;
        tags = keep_or tags b.tags;
        updated_at = now;
      })
      t

abbrev pub kindled_row : ℕ → Option String → Book → Book
kindled_row now method b = record b {
  status = kindled;
  sent_method = method;
  sent_at = keep_or b.sent_at (some now);
  updated_at = now;
}

-- `mark_kindled`
unfoldable pub mark_kindled : ℕ → ℕ → Option String → Books → Books
mark_kindled now i method t = update_where (has_id i) (kindled_row now method) t

abbrev pub redownload_row : ℕ → Book → Book
redownload_row now b = record b {
  status = queued;
  attempts = 0;
  last_error = none;
  downloaded_at = none;
  converted_at = none;
  sent_at = none;
  file_path = none;
  md5 = none;
  format = none;
  file_size = none;
  updated_at = now;
}

abbrev pub research_row : ℕ → Book → Book
research_row now b = record b {
  status = queued;
  attempts = 0;
  last_error = none;
  picked_candidate_id = none;
  searched_at = none;
  downloaded_at = none;
  converted_at = none;
  sent_at = none;
  file_path = none;
  md5 = none;
  format = none;
  file_size = none;
  updated_at = now;
}

-- `reset_for_research`
unfoldable pub reset_for_research : ℕ → ℕ → Books → Books
reset_for_research now i t = update_where (has_id i) (research_row now) t

-- `reset_for_redownload`
unfoldable pub reset_for_redownload : ℕ → ℕ → Books → Books
reset_for_redownload now i t = update_where (has_id i) (redownload_row now) t
