-- ===== src/Db/Books/Listing.antt =====
-- What `pending` and `find_downloaded_by_md5` list, and the retry budget.
use biblichor.Prelude.{
  ℕ, ◌+◌, ◌≤◌, ◌<◌, ◌≡◌, ◌⊎◌, ◌↔◌, refl, ◌∙◌, ap, sym, String, Bool, true, false, ◌&&◌, Option,
  none, some, List, [], ◌∷◌, arith, find?, any, All, select, All-select, find?-true, if◌then◌else◌,
  ==_iff, inl, inr, Bool-cases,
}
use biblichor.Prelude.Sql.{count_where, order_by}
use biblichor.Prelude.Sql.Order.{
  IsSorted, order_by-IsSorted, count_where-order_by, All-order_by, find?-order_by,
}
use biblichor.Domain.Status.{
  Status, queued, searching, needs_review, downloading, converting, sending, sent, kindled, skipped,
  failed,
}
use biblichor.Db.Books.Row.{Book, Books, has_id, get}
use biblichor.Db.Books.Queue.{is_pending, pending, has_file_of, find_downloaded_by_md5}
use biblichor.Db.Books.Upsert.{clashes, IsConsistent}
use biblichor.Db.Books.Ops.{Op, resets, failures, run, attempts_count_failures}
use biblichor.Db.Books.Constraints.{run-IsConsistent}

count_where-select :
    (p q : Book → Bool) (t : Books) → count_where p (select q t) ≡ count_where (λ b. q b && p b) t
count_where-select p q [] = refl
count_where-select p q (b ∷ t) = ground (arith, count_where-select p q t)

-- `pending` lists the queued and failed books with attempts left, each as often as the table has
-- it and nothing else, by the time at which they were added.
pub pending_lem :
    (max_attempts : ℕ) (p : Book → Bool) (t : Books)
    → All (λ b. is_pending max_attempts b ≡ true) (pending max_attempts t)
      × IsSorted (λ b. b.created_at) (pending max_attempts t)
      × (count_where p (pending max_attempts t)
          ≡ count_where (λ b. is_pending max_attempts b && p b) t)
unfolding pending
pending_lem m p t = (
  All-order_by (λ b. b.created_at) _ (select (is_pending m) t)
      (All-select _ (is_pending m) t (λ b h. h)),
  order_by-IsSorted (λ b. b.created_at) (select (is_pending m) t),
  count_where-order_by (λ b. b.created_at) p (select (is_pending m) t)
      ∙ count_where-select p (is_pending m) t,
)

count_where-clash :
    (q : Book → Bool) (i : ℕ) (b : Book) (t : Books)
    → b.id ≡ i
    → any (clashes b) t ≡ false
    → count_where (λ x. q x && has_id i x) t ≡ 0
count_where-clash q i b [] e h = refl
count_where-clash q i b (x ∷ t) e h = ground (arith, count_where-clash q i b t e)

-- In a consistent table a book is counted once, if it passes the test.
pub count_where-has_id :
    (q : Book → Bool) (i : ℕ) (b : Book) (t : Books)
    → IsConsistent t
    → get i t ≡ some b
    → count_where (λ x. q x && has_id i x) t ≡ (if q b then 1 else 0)
unfolding get
count_where-has_id q i b [] u h = cc
count_where-has_id q i b (x ∷ t) u h = elim (Bool-cases (has_id i x)) [
  | inl e ↦
      let same : x ≡ b = ground arith in
      let this : x.id ≡ i = (==_iff x.id i).0 e in
      ground (arith, ap q same, count_where-clash q i x t this u.0)
  | inr e ↦ ground (arith, count_where-has_id q i b t u.1)
]

is_pending_iff :
    (max_attempts : ℕ) (b : Book) (s : Status)
    → b.status ≡ s
    → (is_pending max_attempts b ≡ true)
      ↔ (((b.status ≡ queued) ⊎ (b.status ≡ failed)) × (b.attempts < max_attempts))
is_pending_iff m b queued e = (λ h. (inl e, ground (arith, h, e)), λ k. ground (arith, e, k.1))
is_pending_iff m b failed e = (λ h. (inr e, ground (arith, h, e)), λ k. ground (arith, e, k.1))
is_pending_iff m b searching e = (λ h. ground (arith, h, e), λ k. ground (arith, k.0, e))
is_pending_iff m b downloading e = (λ h. ground (arith, h, e), λ k. ground (arith, k.0, e))
is_pending_iff m b converting e = (λ h. ground (arith, h, e), λ k. ground (arith, k.0, e))
is_pending_iff m b sending e = (λ h. ground (arith, h, e), λ k. ground (arith, k.0, e))
is_pending_iff m b sent e = (λ h. ground (arith, h, e), λ k. ground (arith, k.0, e))
is_pending_iff m b kindled e = (λ h. ground (arith, h, e), λ k. ground (arith, k.0, e))
is_pending_iff m b skipped e = (λ h. ground (arith, h, e), λ k. ground (arith, k.0, e))
is_pending_iff m b needs_review e = (λ h. ground (arith, h, e), λ k. ground (arith, k.0, e))

-- `pending` is in the order of the times at which the books were added. It lists a book of the
-- table exactly if its status is queued or failed and it has attempts left, and never twice.
pub pending_iff :
    (max_attempts i : ℕ) (b : Book) (t : Books)
    → IsConsistent t
    → get i t ≡ some b
    → IsSorted (λ b. b.created_at) (pending max_attempts t)
      × (count_where (has_id i) (pending max_attempts t) ≤ 1)
      × ((count_where (has_id i) (pending max_attempts t) ≡ 1)
          ↔ (((b.status ≡ queued) ⊎ (b.status ≡ failed)) × (b.attempts < max_attempts)))
pending_iff m i b t u h =
    let (listed, sorted, counted) = pending_lem m (has_id i) t in
    let once = counted ∙ count_where-has_id (is_pending m) i b t u h in
    let (to, from) = is_pending_iff m b b.status refl in
    (
      sorted,
      ground (arith, once),
      (λ k. to (ground (arith, once, k)), λ k. once ∙ ground (arith, from k)),
    )

-- A book whose recorded failures have used up the attempts is in no later list of pending books,
-- whatever operations other than its two resets were run in between.
pub retry_budget :
    (max_attempts i : ℕ) (ops : List (ℕ × Op)) (b : Book) (t : Books)
    → IsConsistent t
    → get i t ≡ some b
    → All (λ o. resets i o.1 ≡ false) ops
    → max_attempts ≤ b.attempts + failures i ops
    → count_where (has_id i) (pending max_attempts (run ops t)) ≡ 0
retry_budget m i ops b t u h k spent =
    let (b', h', e) = attempts_count_failures i ops b t h k in
    let u' = run-IsConsistent ops t u in
    (pending_lem m (has_id i) (run ops t)).2
    ∙ count_where-has_id (is_pending m) i b' (run ops t) u' h'
    ∙ ground arith

count_where-find?-none : (p : Book → Bool) (t : Books) → find? p t ≡ none → count_where p t ≡ 0
count_where-find?-none p [] h = refl
count_where-find?-none p (b ∷ t) h = ground (arith, count_where-find?-none p t)

-- What a search for the oldest row that passes a test may answer.
abbrev pub IsOldest : (Book → Bool) → Books → Option Book → Type 0
IsOldest p t none = count_where p t ≡ 0
IsOldest p t (some b) = (p b ≡ true) × All (λ x. p x ≡ true → b.id ≤ x.id) t

find?-IsOldest :
    (p : Book → Bool) (t : Books) (o : Option Book)
    → find? p (order_by (λ b. b.id) t) ≡ o
    → IsOldest p t o
find?-IsOldest p t none h =
    sym (count_where-order_by (λ b. b.id) p t) ∙ count_where-find?-none p (order_by (λ b. b.id) t) h
find?-IsOldest p t (some b) h =
    (find?-true p (order_by (λ b. b.id) t) b h, find?-order_by (λ b. b.id) p t b h)

-- The duplicate that is found has the text in `md5`, a file and another id than the excluded one,
-- and its id is the least of all such rows; where none is found the table has no such row.
pub find_downloaded-IsOldest :
    (md5 : String) (exclude : Option ℕ) (t : Books)
    → IsOldest (has_file_of md5 exclude) t (find_downloaded_by_md5 md5 exclude t)
unfolding find_downloaded_by_md5
find_downloaded-IsOldest md5 exclude t = find?-IsOldest (has_file_of md5 exclude) t _ refl
