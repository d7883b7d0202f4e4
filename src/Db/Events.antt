-- ===== src/Db/Events.antt =====
-- src/endless_library/db/events.py: the event log and the methods of `EventRepo`.
pub mod Prune
pub mod Tests
use biblichor.Prelude.{
  ℕ, ◌+◌, ◌-◌, ◌*◌, String, Bool, false, Option, none, some, List, [], ◌∷◌, ◌++◌, ◌==◌, ltb, select,
  length, take, drop, if◌then◌else◌,
}
use mathlib.Core.List.{reverse}
use biblichor.Prelude.Sql.{delete_where, count_where, next_rowid}

-- A value in the metadata of an event, which the table stores as JSON text.
pub data MetaValue : Type 0 where
  absent : MetaValue
  number : ℕ → MetaValue
  text : String → MetaValue
  flag : Bool → MetaValue
  numbers : List ℕ → MetaValue

abbrev pub Meta : Type 0
Meta = List (String × MetaValue)

-- A row.
pub record Event : Type 0 where
  pub id : ℕ
  pub book_id : Option ℕ
  pub ts : ℕ
  pub kind : String
  pub scraper : Option String
  pub message : String
  pub meta : Meta

abbrev pub Events : Type 0
Events = List Event

-- What a caller of `append` gives.
pub record NewEvent : Type 0 where
  pub book_id : Option ℕ
  pub kind : String
  pub scraper : Option String
  pub message : String
  pub meta : Meta

-- `append`
unfoldable pub append : ℕ → NewEvent → Events → ℕ × Events
append now e t =
    let i = next_rowid (λ (x : Event). x.id) t in
    (
      i,
      t
          ++ record {
            id = i;
            book_id = e.book_id;
            ts = now;
            kind = e.kind;
            scraper = e.scraper;
            message = e.message;
            meta = e.meta;
          }
            ∷ [],
    )

abbrev pub of_book : ℕ → Event → Bool
of_book i e = elim e.book_id [ none ↦ false | some j ↦ j == i ]

-- `recent_for_book`: ORDER BY id DESC LIMIT, where ids grow in rowid order.
unfoldable pub recent_for_book : ℕ → ℕ → Events → List Event
recent_for_book i limit t = take limit (reverse (select (of_book i) t))

-- `recent_global`
unfoldable pub recent_global : ℕ → Events → List Event
recent_global limit t = take limit (reverse t)

-- `ts < datetime('now', '-N days')`
abbrev pub is_old : ℕ → ℕ → Event → Bool
is_old now keep_days e = ltb (e.ts + keep_days * 86400) now

-- `DELETE … WHERE id IN (SELECT id FROM events ORDER BY id ASC LIMIT ?)`
abbrev pub drop_oldest : ℕ → Events → Events
drop_oldest n t = drop n t

-- `prune`: the number of rows deleted, and the table.
unfoldable pub prune : ℕ → ℕ → ℕ → Events → ℕ × Events
prune now keep_rows keep_days t =
    let t' = delete_where (is_old now keep_days) t in
    let total = length t' in
    let deleted = count_where (is_old now keep_days) t in
    if ltb keep_rows total
    then (deleted + (total - keep_rows), drop_oldest (total - keep_rows) t')
    else (deleted, t')
