-- ===== src/Db/Events/Tests.antt =====
-- A log with one old row.
use biblichor.Prelude.{◌+◌, ◌-◌, ◌≤◌, ◌≡◌, none, false, [], ◌∷◌, length, drop, All}
use biblichor.Prelude.Sql.{delete_where}
use biblichor.Db.Events.{Event, Events, is_old, prune}
use biblichor.Db.Events.Prune.{prune_lem}

abbrev old : Event
old = record {
  id = 1;
  book_id = none;
  ts = 5;
  kind = "send";
  scraper = none;
  message = "a";
  meta = [];
}

abbrev log : Events
log = old ∷ record old { id = 2; ts = 200000 } ∷ record old { id = 3; ts = 200001 } ∷ []

prune_lem_example :
    let (deleted, t') = prune 250000 1 1 log in
    (length t' ≤ 1)
    × All (λ e. is_old 250000 1 e ≡ false) t'
    × (t'
        ≡ drop
            (length (delete_where (is_old 250000 1) log) - 1)
            (delete_where (is_old 250000 1) log))
    × (deleted + length t' ≡ length log)
prune_lem_example = prune_lem 250000 1 1 log
