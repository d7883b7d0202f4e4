-- ===== src/Db/Books/Upsert.antt =====
-- `BookRepo.upsert`, `find_by_isbn` and `count`, with the constraints of the table `books`.
use biblichor.Prelude.{
  ℕ, String, Bool, false, ◌&&◌, ◌||◌, Option, none, some, [], ◌∷◌, ◌++◌, ◌==◌, str_eq, find?, any,
  length, if◌then◌else◌,
}
use biblichor.Prelude.Sql.{next_rowid, UniqueBy}
use biblichor.Domain.Status.{queued}
use biblichor.Db.Books.Row.{Book, Books, sql_eq}

-- The keyword arguments of `upsert`.
pub record NewBook : Type 0 where
  pub title : String
  pub author : Option String
  pub isbn13 : Option String
  pub source : String
  pub source_id : String
  pub source_added_at : Option String

-- `find_by_isbn`, and the SELECT by isbn13 in `upsert`
unfoldable pub find_by_isbn : String → Books → Option Book
find_by_isbn isbn13 t = find? (λ b. sql_eq b.isbn13 isbn13) t

-- `if isbn13:` and the SELECT under it
abbrev pub known_isbn : Option String → Books → Option Book
known_isbn none t = none
known_isbn (some s) t = if str_eq s "" then none else find? (λ b. sql_eq b.isbn13 s) t

-- `col`: is the source id kept in `hardcover_id`?
abbrev pub uses_hardcover : String → Bool
uses_hardcover source = str_eq source "hardcover"

abbrev pub same_source : NewBook → Book → Bool
same_source n b =
    str_eq b.source n.source
    && (if uses_hardcover n.source
        then sql_eq b.hardcover_id n.source_id
        else sql_eq b.goodreads_id n.source_id)

-- The row that the INSERT writes, with the defaults of the schema.
abbrev pub new_row : ℕ → ℕ → NewBook → Book
new_row now i n = record {
  id = i;
  title = n.title;
  author = n.author;
  isbn13 = n.isbn13;
  goodreads_id = if uses_hardcover n.source then none else some n.source_id;
  hardcover_id = if uses_hardcover n.source then some n.source_id else none;
  source = n.source;
  source_added_at = n.source_added_at;
  status = queued;
  format = none;
  file_path = none;
  file_size = none;
  md5 = none;
  picked_candidate_id = none;
  attempts = 0;
  last_error = none;
  created_at = now;
  updated_at = now;
  searched_at = none;
  downloaded_at = none;
  converted_at = none;
  sent_at = none;
  series = none;
  tags = none;
  sent_method = none;
}

-- Two values of a UNIQUE column clash; NULLs do not.
abbrev pub same_text : Option String → Option String → Bool
same_text none _ = false
same_text (some s) none = false
same_text (some s) (some u) = str_eq s u

-- PRIMARY KEY, the index on isbn13, UNIQUE(source, goodreads_id), UNIQUE(source, hardcover_id)
abbrev pub clashes : Book → Book → Bool
clashes a b =
    a.id == b.id
    || same_text a.isbn13 b.isbn13
    || (str_eq a.source b.source && same_text a.goodreads_id b.goodreads_id)
    || (str_eq a.source b.source && same_text a.hardcover_id b.hardcover_id)

-- The INSERT: `none` is an IntegrityError, which leaves the table as it was.
unfoldable pub insert_book : ℕ → NewBook → Books → Option (ℕ × Books)
insert_book now n t =
    let i = next_rowid (λ b. b.id) t in
    let row = new_row now i n in
    if any (λ b. clashes b row) t then none else some (i, t ++ row ∷ [])

-- `upsert`: the id, or `none` where the exception is passed on; and the table afterwards. The
-- write lock is held from BEGIN IMMEDIATE on, so no other connection writes in between.
unfoldable pub upsert : ℕ → NewBook → Books → Option ℕ × Books
unfolding insert_book
upsert now n t = elim (known_isbn n.isbn13 t) [
  | some b ↦ (some b.id, t)
  | none ↦ elim (find? (same_source n) t) [
    | some b ↦ (some b.id, t)
    | none ↦ elim (insert_book now n t) [
      | some (i, t') ↦ (some i, t')
      | none ↦ elim (known_isbn n.isbn13 t) [ some b ↦ (some b.id, t) | none ↦ (none, t) ]
    ]
  ]
]

-- `count`
unfoldable pub count : Books → ℕ
count t = length t

-- The table meets its constraints.
abbrev pub IsConsistent : Books → Type 0
IsConsistent t = UniqueBy clashes t
