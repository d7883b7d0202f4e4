-- ===== src/Db/Books/Claims.antt =====
-- `claim_for_processing` is a mutual exclusion: of many claims of one book at most one wins.
use biblichor.Prelude.{ℕ, ◌+◌, ◌≡◌, ◌&&◌, List, [], ◌∷◌, arith, ◌==◌, any, if◌then◌else◌}
use biblichor.Prelude.Sql.{update_where, count_where}
use biblichor.Domain.Status.{searching}
use biblichor.Db.Books.Row.{Book, Books}
use biblichor.Db.Books.Queue.{claims_row, claim_for_processing}

-- Workers' calls of `claim_for_processing` in the order in which SQLite runs them: the time of each
-- call and the book that it claims.
abbrev pub Calls : Type 0
Calls = List (ℕ × ℕ)

-- How many of the calls win book `i`.
pub wins : ℕ → Calls → Books → ℕ
wins i [] t = 0
wins i ((now, j) ∷ calls) t =
    let (won, t') = claim_for_processing now j t in
    (if won && j == i then 1 else 0) + wins i calls t'

-- The table after the calls.
pub after : Calls → Books → Books
after [] t = t
after ((now, j) ∷ calls) t = after calls (claim_for_processing now j t).1

abbrev claimed_row : ℕ → Book → Book
claimed_row now b = record b { status = searching; updated_at = now }

-- A claim leaves no claimable row of its book, and those of the other books as they were.
count_where-claim :
    (now i j : ℕ) (t : Books)
    → count_where (claims_row i) (update_where (claims_row j) (claimed_row now) t)
      ≡ (if j == i then 0 else count_where (claims_row i) t)
count_where-claim now i j [] = ground arith
count_where-claim now i j (b ∷ t) = ground (arith, count_where-claim now i j t)

-- However the calls of any workers are ordered, book `i` is won exactly once if the table has one
-- row of that id in a claimable status and some call claims it, and never otherwise.
pub claims_exclusive :
    (i : ℕ) (calls : Calls) (t : Books)
    → wins i calls t
      ≡ (if count_where (claims_row i) t == 1 && any (λ c. c.1 == i) calls then 1 else 0)
unfolding wins claim_for_processing
claims_exclusive i [] t = ground arith
claims_exclusive i ((now, j) ∷ calls) t = ground (
  arith,
  count_where-claim now i j t,
  claims_exclusive i calls (update_where (claims_row j) (claimed_row now) t),
)
