-- ===== src/Db/BenchJobs.antt =====
-- src/endless_library/db/bench_jobs.py: the table of bench jobs and the methods of `BenchJobsRepo`.
use biblichor.Prelude.{
  ℕ, ◌+◌, String, Bool, true, false, ◌&&◌, Option, none, some, List, [], ◌∷◌, ◌++◌, ◌==◌, find?,
}
use biblichor.Prelude.Sql.{update_where}

-- The CHECK constraint on `status`.
pub data JobStatus : Type 0 where
  running done cancelled failed : JobStatus

pub record BenchJob : Type 0 where
  pub id : ℕ
  pub started_at : ℕ
  pub finished_at : Option ℕ
  pub mode : String
  pub status : JobStatus
  pub progress_done : ℕ
  pub progress_total : ℕ
  pub summary_json : Option String
  pub cancel_requested : Bool

-- The table, with the largest id that it ever gave out (AUTOINCREMENT).
pub record BenchJobs : Type 0 where
  pub sequence : ℕ
  pub rows : List BenchJob

abbrev pub has_id : ℕ → BenchJob → Bool
has_id i j = j.id == i

abbrev pub is_running : BenchJob → Bool
is_running j = elim j.status [ running ↦ true | _ ↦ false ]

-- `create`
unfoldable pub create : ℕ → String → ℕ → BenchJobs → ℕ × BenchJobs
create now mode progress_total t =
    let i = t.sequence + 1 in
    (
      i,
      record {
        sequence = i;
        rows =
            t.rows
            ++ record {
              id = i;
              started_at = now;
              finished_at = none;
              mode = mode;
              status = running;
              progress_done = 0;
              progress_total = progress_total;
              summary_json = none;
              cancel_requested = false;
            }
              ∷ [];
      },
    )

-- `increment_progress`
unfoldable pub increment_progress : ℕ → BenchJobs → BenchJobs
increment_progress i t = record t {
  rows = update_where (has_id i) (λ j. record j { progress_done = j.progress_done + 1 }) t.rows;
}

-- `finish`: `none` is the ValueError on a status that does not end a job.
unfoldable pub finish : ℕ → ℕ → JobStatus → Option String → BenchJobs → Option BenchJobs
finish now i running summary t = none
finish now i status summary t = some (record t {
  rows =
      update_where (has_id i)
        (λ j. record j { status = status; finished_at = some now; summary_json = summary }) t.rows;
})

-- `request_cancel`
unfoldable pub request_cancel : ℕ → BenchJobs → BenchJobs
request_cancel i t = record t {
  rows =
      update_where (λ j. has_id i j && is_running j) (λ j. record j { cancel_requested = true })
        t.rows;
}

-- `get`
unfoldable pub get : ℕ → BenchJobs → Option BenchJob
get i t = find? (has_id i) t.rows

-- `is_cancel_requested`
unfoldable pub is_cancel_requested : ℕ → BenchJobs → Bool
unfolding get
is_cancel_requested i t = elim (get i t) [ none ↦ false | some j ↦ j.cancel_requested ]
