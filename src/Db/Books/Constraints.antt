-- ===== src/Db/Books/Constraints.antt =====
-- The constraints of the table `books` under every method of `BookRepo`, and what `upsert` returns.
pub mod Ids
use biblichor.Prelude.{
  ℕ, ◌≡◌, ◌⊎◌, ◌↔◌, sym, ◌∙◌, ◌&&◌, refl, String, Bool, true, false, Option, none, some, List, [],
  ◌∷◌, ◌++◌, arith, ◌==◌, str_eq, eq_iff, find?, any, if◌then◌else◌, Option-cases, inl, inr, ◌||◌,
  str_eq_refl,
}
use mathlib.Core.Path.{ap₂}
use biblichor.Db.Books.Constraints.Ids.{next_rowid_fresh}
use biblichor.Prelude.Sql.{update_where, UniqueBy-update_where, UniqueBy-append, next_rowid}
use biblichor.Db.Books.Row.{Book, Books, sql_eq}
use biblichor.Db.Books.Queue.{
  claim_for_processing, set_failed, set_skipped, increment_attempts, reset_zombies, mark_dedup,
}
use biblichor.Db.Books.Stages.{
  searched, set_status, mark_stage, clear_stages_from, set_tags, mark_kindled, reset_for_research,
  reset_for_redownload,
}
use biblichor.Db.Books.Ops.{Op, apply, run}
use biblichor.Db.Books.Upsert.{
  NewBook, known_isbn, same_source, new_row, same_text, clashes, upsert, IsConsistent,
}

-- An UPDATE that leaves the constrained columns alone.
IsConsistent-update_where :
    (p : Book → Bool) (f : Book → Book) (t : Books)
    → ((x y : Book) → clashes (f x) y ≡ clashes x y)
    → ((x y : Book) → clashes x (f y) ≡ clashes x y)
    → IsConsistent t
    → IsConsistent (update_where p f t)
IsConsistent-update_where = UniqueBy-update_where clashes

pub apply-IsConsistent :
    (now : ℕ) (op : Op) (t : Books) → IsConsistent t → IsConsistent (apply now op t)
unfolding apply claim_for_processing set_failed set_skipped increment_attempts reset_zombies
    mark_dedup set_status mark_stage clear_stages_from set_tags mark_kindled reset_for_research
    reset_for_redownload
apply-IsConsistent now (Op.claim j) t = IsConsistent-update_where _ _ t (λ x y. refl) (λ x y. refl)
apply-IsConsistent now (Op.tag j none none) t = λ h. h
apply-IsConsistent now (Op.tag j (some u) v) t =
    IsConsistent-update_where _ _ t (λ x y. refl) (λ x y. refl)
apply-IsConsistent now (Op.tag j none (some v)) t =
    IsConsistent-update_where _ _ t (λ x y. refl) (λ x y. refl)
apply-IsConsistent now (Op.stage j searched) t =
    IsConsistent-update_where _ _ t (λ x y. refl) (λ x y. refl)
apply-IsConsistent now (Op.stage j _) t =
    IsConsistent-update_where _ _ t (λ x y. refl) (λ x y. refl)
apply-IsConsistent now (Op.clear j searched) t =
    IsConsistent-update_where _ _ t (λ x y. refl) (λ x y. refl)
apply-IsConsistent now (Op.clear j _) t =
    IsConsistent-update_where _ _ t (λ x y. refl) (λ x y. refl)
apply-IsConsistent now _ t = IsConsistent-update_where _ _ t (λ x y. refl) (λ x y. refl)

-- No operation on existing rows breaks a constraint of the table.
pub run-IsConsistent : (ops : List (ℕ × Op)) (t : Books) → IsConsistent t → IsConsistent (run ops t)
unfolding run
run-IsConsistent [] t h = h
run-IsConsistent ((now, op) ∷ ops) t h =
    run-IsConsistent ops (apply now op t) (apply-IsConsistent now op t h)

-- `upsert` keeps the constraints, whichever way it ends.
pub upsert-IsConsistent :
    (now : ℕ) (n : NewBook) (t : Books) → IsConsistent t → IsConsistent (upsert now n t).1
unfolding upsert
upsert-IsConsistent now n t h =
    let row = new_row now (next_rowid (λ b. b.id) t) n in
    ground (arith, UniqueBy-append clashes t row h)

find?-append_one :
    (p : Book → Bool) (t : Books) (x : Book)
    → find? p t ≡ none
    → find? p (t ++ x ∷ []) ≡ (if p x then some x else none)
find?-append_one p [] x h = refl
find?-append_one p (y ∷ t) x h = ground (arith, find?-append_one p t x)

known_isbn-append :
    (isbn13 : Option String) (t : Books) (x : Book)
    → known_isbn isbn13 t ≡ none
    → (known_isbn isbn13 (t ++ x ∷ []) ≡ none) ⊎ (known_isbn isbn13 (t ++ x ∷ []) ≡ some x)
known_isbn-append none t x h = inl refl
known_isbn-append (some s) t x h =
    ground (arith, find?-append_one (λ (b : Book). sql_eq b.isbn13 s) t x)

same_source-new_row : (now i : ℕ) (n : NewBook) → same_source n (new_row now i n) ≡ true
same_source-new_row now i n = ground (arith, str_eq_refl n.source, str_eq_refl n.source_id)

-- A second `upsert` of the same reference returns the same id and changes nothing.
pub upsert_idempotent :
    (now later : ℕ) (n : NewBook) (t t' : Books) (i : ℕ)
    → upsert now n t ≡ (some i, t')
    → upsert later n t' ≡ (some i, t')
unfolding upsert
upsert_idempotent now later n t t' i h = elim (Option-cases (known_isbn n.isbn13 t)) [
  | inr (b, e) ↦ ground arith
  | inl new ↦ elim (Option-cases (find? (same_source n) t)) [
    | inr (b, e) ↦ ground arith
    | inl fresh ↦
        let row : Book = new_row now (next_rowid (λ b. b.id) t) n in
        ground (
          arith,
          known_isbn-append n.isbn13 t row new,
          find?-append_one (same_source n) t row fresh,
          same_source-new_row now (next_rowid (λ b. b.id) t) n,
        )
  ]
]

-- An empty ISBN that some row already has: `if isbn13:` skips the SELECT, and the index on isbn13
-- still refuses the row.
abbrev pub empty_isbn_taken : Option String → Books → Bool
empty_isbn_taken none t = false
empty_isbn_taken (some s) t = str_eq s "" && any (λ b. sql_eq b.isbn13 "") t

same_text-eq : (o : Option String) (s : String) → same_text o (some s) ≡ sql_eq o s
same_text-eq none s = refl
same_text-eq (some u) s = refl

clashes-new_row :
    (now i : ℕ) (n : NewBook) (b : Book)
    → same_source n b ≡ false
    → (b.id == i) ≡ false
    → clashes b (new_row now i n) ≡ same_text b.isbn13 n.isbn13
clashes-new_row now i n b s f =
    ground (arith, same_text-eq b.hardcover_id n.source_id, same_text-eq b.goodreads_id n.source_id)

isbn_clash :
    (isbn13 : Option String) (b : Book) (t : Books)
    → known_isbn isbn13 (b ∷ t) ≡ none
    → (known_isbn isbn13 t ≡ none)
      × (empty_isbn_taken isbn13 (b ∷ t) ≡ (same_text b.isbn13 isbn13 || empty_isbn_taken isbn13 t))
isbn_clash none b t h = (refl, ground arith)
isbn_clash (some s) b t h = ground (arith, eq_iff s "", same_text-eq b.isbn13 s)

find?-cons_none :
    (p : Book → Bool) (b : Book) (t : Books)
    → find? p (b ∷ t) ≡ none
    → (p b ≡ false) × (find? p t ≡ none)
find?-cons_none p b t h = ground arith

any-cons_false :
    (p : Book → Bool) (b : Book) (t : Books)
    → any p (b ∷ t) ≡ false
    → (p b ≡ false) × (any p t ≡ false)
any-cons_false p b t h = ground arith

-- Where neither SELECT of `upsert` finds a row, the INSERT is refused only for an empty ISBN.
clash_exact :
    (now i : ℕ) (n : NewBook) (t : Books)
    → known_isbn n.isbn13 t ≡ none
    → find? (same_source n) t ≡ none
    → any (λ b. b.id == i) t ≡ false
    → any (λ b. clashes b (new_row now i n)) t ≡ empty_isbn_taken n.isbn13 t
clash_exact now i n [] k s f = ground arith
clash_exact now i n (b ∷ t) k s f =
    let (s', s'') = find?-cons_none (same_source n) b t s in
    let (f', f'') = any-cons_false (λ (x : Book). x.id == i) b t f in
    let (k', e) = isbn_clash n.isbn13 b t k in
    ap₂ ◌||◌ (clashes-new_row now i n b s' f') (clash_exact now i n t k' s'' f'') ∙ sym e

known_isbn-empty :
    (isbn13 : Option String) (t : Books)
    → empty_isbn_taken isbn13 t ≡ true
    → known_isbn isbn13 t ≡ none
known_isbn-empty none t h = refl
known_isbn-empty (some s) t h = ground arith

-- `upsert` passes on an exception exactly when the reference is new to its source and has the
-- empty text for an ISBN, as some row has already; whenever it does, the table is as it was.
pub upsert_raises_iff :
    (now : ℕ) (n : NewBook) (t : Books)
    → (((upsert now n t).0 ≡ none)
        ↔ ((find? (same_source n) t ≡ none) × (empty_isbn_taken n.isbn13 t ≡ true)))
      × ((upsert now n t).0 ≡ none → (upsert now n t).1 ≡ t)
unfolding upsert
upsert_raises_iff now n t =
    let i = next_rowid (λ b. b.id) t in
    (
      (
        λ h. elim (Option-cases (known_isbn n.isbn13 t)) [
          | inr (b, e) ↦ ground arith
          | inl new ↦ elim (Option-cases (find? (same_source n) t)) [
            | inr (b, e) ↦ ground arith
            | inl fresh ↦
                let exact = clash_exact now i n t new fresh (next_rowid_fresh t) in ground arith
          ]
        ],
        λ (fresh, taken).
            let new = known_isbn-empty n.isbn13 t taken in
            let exact = clash_exact now i n t new fresh (next_rowid_fresh t) in ground arith,
      ),
      λ h. ground (arith, h),
    )
