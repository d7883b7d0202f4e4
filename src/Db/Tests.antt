-- ===== src/Db/Tests.antt =====
-- A contest of two workers for one queued book.
use biblichor.Prelude.{
  ℕ, ◌+◌, ◌≤◌, ◌<◌, ◌≡◌, ◌↔◌, ◌⊎◌, refl, ◌&&◌, ◌==◌, true, false, none, some, List, [], ◌∷◌, any,
  find?, if◌then◌else◌, arith,
}
use biblichor.Prelude.Sql.{count_where}
use biblichor.Prelude.Sql.Order.{IsSorted}
use biblichor.Domain.Status.{queued, searching, failed}
use biblichor.Db.Books.Row.{Book, Books, has_id, get}
use biblichor.Db.Books.Queue.{claims_row, claim_for_processing, pending, is_zombie, reset_zombies}
use biblichor.Db.Books.Stages.{reset_for_research, reset_for_redownload}
use biblichor.Db.Books.Upsert.{NewBook, same_source, upsert, IsConsistent}
use biblichor.Db.Books.Ops.{Op, run, failures}
use biblichor.Db.Books.Constraints.{empty_isbn_taken, upsert_raises_iff}
use biblichor.Db.Books.Sweep.{swept_row, sweep_frees_zombies, claim_protects}
use biblichor.Db.Books.Claims.{Calls, wins, claims_exclusive}
use biblichor.Db.Books.Resets.{IsRestarted, resets_restart}
use biblichor.Db.Books.Listing.{pending_iff, retry_budget}

abbrev dune : Book
dune = record {
  id = 1;
  title = "Dune";
  author = none;
  isbn13 = none;
  goodreads_id = some "44767458";
  hardcover_id = none;
  source = "goodreads";
  source_added_at = none;
  status = queued;
  format = none;
  file_path = none;
  file_size = none;
  md5 = none;
  picked_candidate_id = none;
  attempts = 0;
  last_error = none;
  created_at = 10;
  updated_at = 10;
  searched_at = none;
  downloaded_at = none;
  converted_at = none;
  sent_at = none;
  series = none;
  tags = none;
  sent_method = none;
}

abbrev table : Books
table = dune ∷ []

abbrev calls : Calls
calls = (20, 1) ∷ (21, 1) ∷ []

claims_exclusive_example :
    wins 1 calls table
    ≡ (if count_where (claims_row 1) table == 1 && any (λ c. c.1 == 1) calls then 1 else 0)
claims_exclusive_example = claims_exclusive 1 calls table

abbrev in_flight_dune : Book
in_flight_dune = record dune { status = searching }

found : get 1 table ≡ some dune
unfolding get
found = refl

table-IsConsistent : IsConsistent table
table-IsConsistent = (refl, tt)

-- Two failures, with a claim between them.
abbrev ops : List (ℕ × Op)
ops = (30, Op.fail 1 "timeout") ∷ (40, Op.claim 1) ∷ (50, Op.fail 1 "timeout") ∷ []

two_failures : 2 ≤ dune.attempts + failures 1 ops
unfolding failures
two_failures = omega arith

retry_budget_example : count_where (has_id 1) (pending 2 (run ops table)) ≡ 0
retry_budget_example =
    retry_budget 2 1 ops dune table table-IsConsistent found (refl, (refl, (refl, tt))) two_failures

resets_restart_example :
    ((b' : Book) × IsRestarted 3 1 dune b' (reset_for_research 30 1 table)
      × (b'.picked_candidate_id ≡ none)
      × (b'.searched_at ≡ none))
    × ((b' : Book) × IsRestarted 3 1 dune b' (reset_for_redownload 30 1 table)
        × (b'.picked_candidate_id ≡ dune.picked_candidate_id)
        × (b'.searched_at ≡ dune.searched_at))
resets_restart_example = resets_restart 3 30 1 dune table table-IsConsistent (omega arith) found

pending_iff_example :
    IsSorted (λ (b : Book). b.created_at) (pending 3 table)
    × (count_where (has_id 1) (pending 3 table) ≤ 1)
    × ((count_where (has_id 1) (pending 3 table) ≡ 1)
        ↔ (((dune.status ≡ queued) ⊎ (dune.status ≡ failed)) × (dune.attempts < 3)))
pending_iff_example = pending_iff 3 1 dune table table-IsConsistent found

flying : get 1 (in_flight_dune ∷ []) ≡ some in_flight_dune
unfolding get
flying = refl

sweep_frees_zombies_example :
    ((claim_for_processing 2000 1 (in_flight_dune ∷ [])).0 ≡ false)
    × (get 1 (reset_zombies 2000 30 (in_flight_dune ∷ [])).1
        ≡ some (
            if is_zombie 2000 30 in_flight_dune
            then swept_row 2000 in_flight_dune
            else in_flight_dune))
    × ((claim_for_processing 2001 1 (reset_zombies 2000 30 (in_flight_dune ∷ [])).1).0
        ≡ is_zombie 2000 30 in_flight_dune)
sweep_frees_zombies_example =
    sweep_frees_zombies 2000 2001 30 1 in_flight_dune (in_flight_dune ∷ []) (refl, tt) flying refl

won : (claim_for_processing 100 1 table).0 ≡ true
unfolding claim_for_processing
won = refl

claim_protects_example :
    let t' = (claim_for_processing 100 1 table).1 in
    (get 1 (reset_zombies 1900 30 t').1 ≡ get 1 t')
    × ((claim_for_processing 1901 1 (reset_zombies 1900 30 t').1).0 ≡ false)
claim_protects_example =
    claim_protects 100 1900 1901 30 1 dune table table-IsConsistent found won (omega arith)

abbrev emma : NewBook
emma = record {
  title = "Emma";
  author = some "Austen";
  isbn13 = some "9780141439587";
  source = "hardcover";
  source_id = "379";
  source_added_at = none;
}

added : upsert 60 emma table ≡ (some 2, (upsert 60 emma table).1)
unfolding upsert
added = refl

-- A table with an empty ISBN, and one more.
abbrev no_isbn : Books
no_isbn = record dune { isbn13 = some "" } ∷ []

abbrev emma_no_isbn : NewBook
emma_no_isbn = record emma { isbn13 = some "" }

refused : upsert 60 emma_no_isbn no_isbn ≡ (none, no_isbn)
unfolding upsert
refused = refl

upsert_raises_iff_example :
    (((upsert 60 emma_no_isbn no_isbn).0 ≡ none) ↔ (
      (find? (same_source emma_no_isbn) no_isbn ≡ none)
      × (empty_isbn_taken emma_no_isbn.isbn13 no_isbn ≡ true)))
    × ((upsert 60 emma_no_isbn no_isbn).0 ≡ none → (upsert 60 emma_no_isbn no_isbn).1 ≡ no_isbn)
upsert_raises_iff_example = upsert_raises_iff 60 emma_no_isbn no_isbn
