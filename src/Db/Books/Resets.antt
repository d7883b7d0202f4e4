-- ===== src/Db/Books/Resets.antt =====
-- Where the two resets put a book.
use biblichor.Prelude.{ℕ, ◌<◌, ◌≡◌, ◌∙◌, refl, true, none, some, [], ◌∷◌, arith}
use biblichor.Prelude.Sql.{update_where, count_where}
use biblichor.Db.Books.Row.{Book, Books, has_id, get}
use biblichor.Db.Books.Queue.{is_pending, pending}
use biblichor.Db.Books.Upsert.{IsConsistent}
use biblichor.Db.Books.Ops.{Op, apply}
use biblichor.Db.Books.Constraints.{apply-IsConsistent}
use biblichor.Db.Books.Listing.{pending_lem, count_where-has_id}
use biblichor.Db.Books.Stages.{
  reset_for_research, reset_for_redownload, research_row, redownload_row,
}

-- The columns that tell who the book is.
abbrev pub SameBook : Book → Book → Type 0
SameBook b b' =
    (b'.id ≡ b.id)
    × (b'.title ≡ b.title)
    × (b'.author ≡ b.author)
    × (b'.isbn13 ≡ b.isbn13)
    × (b'.source ≡ b.source)
    × (b'.created_at ≡ b.created_at)

-- Nothing is known of a download: no file, no stage after the search.
abbrev pub HasNoFile : Book → Type 0
HasNoFile b =
    (b.file_path ≡ none)
    × (b.md5 ≡ none)
    × (b.format ≡ none)
    × (b.file_size ≡ none)
    × (b.downloaded_at ≡ none)
    × (b.converted_at ≡ none)
    × (b.sent_at ≡ none)

-- A row that one of the resets leaves is the same book, without a file, in its place in the queue.
abbrev pub IsRestarted : ℕ → ℕ → Book → Book → Books → Type 0
IsRestarted max_attempts i b b' t =
    (get i t ≡ some b')
    × SameBook b b'
    × HasNoFile b'
    × (count_where (has_id i) (pending max_attempts t) ≡ 1)

restarted :
    (max_attempts now i : ℕ) (b b' : Book) (t : Books)
    → IsConsistent t
    → 0 < max_attempts
    → get i t ≡ some b'
    → is_pending max_attempts b' ≡ true
    → SameBook b b'
    → HasNoFile b'
    → IsRestarted max_attempts i b b' t
restarted m now i b b' t u positive h p same bare = (
  h,
  same,
  bare,
  (pending_lem m (has_id i) t).2 ∙ count_where-has_id (is_pending m) i b' t u h ∙ ground (arith, p),
)

get-update_where :
    (f : Book → Book) (i : ℕ) (b : Book) (t : Books)
    → ((x : Book) → (f x).id ≡ x.id)
    → get i t ≡ some b
    → get i (update_where (has_id i) f t) ≡ some (f b)
unfolding get
get-update_where f i b [] same h = cc
get-update_where f i b (x ∷ t) same h = ground (arith, same x, get-update_where f i b t same)

-- Either reset puts a book of any status and with any number of attempts back into the list of
-- pending books, once, without a file or a stage after the search. The reset for a new search
-- forgets the search and the pick too; the one for a new download keeps both.
pub resets_restart :
    (max_attempts now i : ℕ) (b : Book) (t : Books)
    → IsConsistent t
    → 0 < max_attempts
    → get i t ≡ some b
    → ((b' : Book) × IsRestarted max_attempts i b b' (reset_for_research now i t)
        × (b'.picked_candidate_id ≡ none)
        × (b'.searched_at ≡ none))
      × ((b' : Book) × IsRestarted max_attempts i b b' (reset_for_redownload now i t)
          × (b'.picked_candidate_id ≡ b.picked_candidate_id)
          × (b'.searched_at ≡ b.searched_at))
unfolding reset_for_research reset_for_redownload
resets_restart m now i b t u positive h = (
  (
    research_row now b,
    restarted m now i b (research_row now b) (update_where (has_id i) (research_row now) t)
        (unfold apply reset_for_research in apply-IsConsistent now (Op.research i) t u) positive
        (get-update_where (research_row now) i b t (λ x. refl) h) (ground (arith, positive))
        (refl, refl, refl, refl, refl, refl) (refl, refl, refl, refl, refl, refl, refl),
    refl,
    refl,
  ),
  (
    redownload_row now b,
    restarted m now i b (redownload_row now b) (update_where (has_id i) (redownload_row now) t)
        (unfold apply reset_for_redownload in apply-IsConsistent now (Op.redownload i) t u) positive
        (get-update_where (redownload_row now) i b t (λ x. refl) h) (ground (arith, positive))
        (refl, refl, refl, refl, refl, refl) (refl, refl, refl, refl, refl, refl, refl),
    refl,
    refl,
  ),
)
