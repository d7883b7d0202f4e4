-- ===== src/Db/Candidates.antt =====
-- src/endless_library/db/candidates.py: the table of search results and the methods of
-- `CandidateRepo`, over any type of scores.

use biblichor.Prelude.{
  ℕ, String, Bool, Option, List, [], ◌∷◌, ◌++◌, ◌==◌, select, take, find?, if◌then◌else◌,
}
use biblichor.Prelude.Sql.{delete_where, next_rowid}

-- `Candidate` of src/endless_library/domain/models.py, whose `raw` is the JSON text of the
-- dictionary.
pub record Candidate : Type 0 where
  pub provider : String
  pub md5 : Option String
  pub title : Option String
  pub author : Option String
  pub language : Option String
  pub format : Option String
  pub filesize_bytes : Option ℕ
  pub year : Option ℕ
  pub publisher : Option String
  pub edition_hints : Option String
  pub detail_url : String
  pub raw : String

-- A row: the columns of the search result, and `score`.
pub record CandidateRow (S : Type 0) : Type 0 where
  pub id : ℕ
  pub book_id : ℕ
  pub candidate : Candidate
  pub score : S

module _ {S : Type 0} where
  -- `insert`
  unfoldable pub insert : ℕ → Candidate → S → List (CandidateRow S) → ℕ × List (CandidateRow S)
  insert book_id c score t =
      let i = next_rowid (λ (r : CandidateRow S). r.id) t in
      (i, t ++ record { id = i; book_id = book_id; candidate = c; score = score } ∷ [])

  abbrev pub is_of : ℕ → CandidateRow S → Bool
  is_of book_id r = r.book_id == book_id

  -- `get_by_id`
  unfoldable pub get_by_id : ℕ → List (CandidateRow S) → Option (CandidateRow S)
  get_by_id i t = find? (λ r. r.id == i) t

  -- `clear_for_book`
  unfoldable pub clear_for_book : ℕ → List (CandidateRow S) → List (CandidateRow S)
  clear_for_book book_id t = delete_where (is_of book_id) t

  -- Before the first row with a lower score.
  abbrev pub insert_desc :
      (S → S → Bool) → CandidateRow S → List (CandidateRow S) → List (CandidateRow S)
  insert_desc le r [] = r ∷ []
  insert_desc le r (x ∷ t) =
      let rest = insert_desc le r t in if le x.score r.score then r ∷ x ∷ t else x ∷ rest

  -- ORDER BY score DESC; rows with equal scores stay in the order of their ids.
  abbrev pub order_desc : (S → S → Bool) → List (CandidateRow S) → List (CandidateRow S)
  order_desc le [] = []
  order_desc le (r ∷ t) = insert_desc le r (order_desc le t)

  -- `top_for_book`
  unfoldable pub top_for_book :
      (S → S → Bool) → ℕ → ℕ → List (CandidateRow S) → List (CandidateRow S)
  top_for_book le book_id limit t = take limit (order_desc le (select (is_of book_id) t))
