-- ===== src/Db/Books/Row.antt =====
-- The table `books` of src/endless_library/db/schema.py and `BookRow` of
-- src/endless_library/db/books.py. Times are seconds; the text columns are strings.
use biblichor.Prelude.{ℕ, String, Bool, true, false, Option, none, some, List, ◌==◌, str_eq, find?}
use biblichor.Domain.Status.{Status}

pub record Book : Type 0 where
  pub id : ℕ
  pub title : String
  pub author : Option String
  pub isbn13 : Option String
  pub goodreads_id : Option String
  pub hardcover_id : Option String
  pub source : String
  pub source_added_at : Option String
  pub status : Status
  pub format : Option String
  pub file_path : Option String
  pub file_size : Option ℕ
  pub md5 : Option String
  pub picked_candidate_id : Option ℕ
  pub attempts : ℕ
  pub last_error : Option String
  pub created_at : ℕ
  pub updated_at : ℕ
  pub searched_at : Option ℕ
  pub downloaded_at : Option ℕ
  pub converted_at : Option ℕ
  pub sent_at : Option ℕ
  pub series : Option String
  pub tags : Option String
  pub sent_method : Option String

abbrev pub Books : Type 0
Books = List Book

-- `column = ?` in a WHERE clause: NULL equals nothing.
abbrev pub sql_eq : Option String → String → Bool
sql_eq none v = false
sql_eq (some u) v = str_eq u v

-- `column IS NOT NULL AND column != ''`, and Python's truth of an optional text
abbrev pub is_filled : Option String → Bool
is_filled none = false
is_filled (some s) = elim (str_eq s "") [ true ↦ false | false ↦ true ]

-- `WHERE id = ?`
abbrev pub has_id : ℕ → Book → Bool
has_id i b = b.id == i

-- `BookRepo.get`
unfoldable pub get : ℕ → Books → Option Book
get i t = find? (has_id i) t
