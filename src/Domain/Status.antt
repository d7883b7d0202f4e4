-- ===== src/Domain/Status.antt =====
-- The values of the `status` column of a book: `State` of
-- src/endless_library/domain/state_machine.py, and `kindled`, which src/endless_library/db/books.py
-- writes on delivery.
use biblichor.Prelude.{ℕ, ◌≡◌, ◌↔◌, Bool, arith, ◌==◌, true}

pub data Status : Type 0 where
  queued searching needs_review downloading converting sending sent skipped failed : Status
  kindled : Status

abbrev index : Status → ℕ
index queued = 0
index searching = 1
index needs_review = 2
index downloading = 3
index converting = 4
index sending = 5
index sent = 6
index skipped = 7
index failed = 8
index kindled = 9

-- Equality of the two status texts.
abbrev pub same_status : Status → Status → Bool
same_status s t = index s == index t

pub same_status_iff : (s t : Status) → (same_status s t ≡ true) ↔ (s ≡ t)
same_status_iff s t = ground arith
