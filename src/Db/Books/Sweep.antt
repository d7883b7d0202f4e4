-- ===== src/Db/Books/Sweep.antt =====
-- `reset_zombies` together with the claims: a claim is safe from the sweep while it is fresh, and a
-- stale one is given back.
use biblichor.Prelude.{
  ℕ, ◌+◌, ◌*◌, ◌≤◌, ◌≡◌, refl, Bool, true, false, ◌&&◌, some, [], ◌∷◌, arith, ◌==◌, find?-true,
  if◌then◌else◌, ◌∙◌, sym,
}
use biblichor.Prelude.Sql.{count_where, find?-update_where}
use biblichor.Domain.Status.{queued, searching}
use biblichor.Db.Books.Row.{Book, Books, has_id, get}
use biblichor.Db.Books.Queue.{
  is_claimable, claims_row, claim_for_processing, in_flight, is_zombie, reset_zombies,
}
use biblichor.Db.Books.Upsert.{IsConsistent}
use biblichor.Db.Books.Ops.{Op, apply}
use biblichor.Db.Books.Constraints.{apply-IsConsistent}
use biblichor.Db.Books.Listing.{count_where-has_id}

-- The book as it was, its attempts and file included, but queued, with the sweep's message.
abbrev pub swept_row : ℕ → Book → Book
swept_row now b = record b {
  status = queued;
  last_error = some "reset by zombie sweep (will resume)";
  updated_at = now;
}

count_where-and_comm :
    (p q : Book → Bool) (t : Books)
    → count_where (λ b. p b && q b) t ≡ count_where (λ b. q b && p b) t
count_where-and_comm p q [] = refl
count_where-and_comm p q (b ∷ t) = ground (arith, count_where-and_comm p q t)

-- A claim of a book of a consistent table wins exactly if its status is claimable.
pub claim-wins :
    (now i : ℕ) (b : Book) (t : Books)
    → IsConsistent t
    → get i t ≡ some b
    → (claim_for_processing now i t).0 ≡ is_claimable b.status
unfolding claim_for_processing
claim-wins now i b t u h =
    let e : count_where (claims_row i) t ≡ (if is_claimable b.status then 1 else 0) =
      count_where-and_comm (has_id i) (λ x. is_claimable x.status) t
      ∙ count_where-has_id (λ x. is_claimable x.status) i b t u h in
    ground arith

get-sweep :
    (now stale i : ℕ) (b : Book) (t : Books)
    → get i t ≡ some b
    → get i (reset_zombies now stale t).1
      ≡ some (if is_zombie now stale b then swept_row now b else b)
unfolding get reset_zombies
get-sweep now stale i b t h =
    rw (find?-update_where (has_id i) (is_zombie now stale) (swept_row now) t (λ x. refl), h)

-- A book in flight cannot be claimed. If its last update is more than `stale` minutes old, the
-- sweep changes only its status, its message and its time, keeps its attempts, its file and all
-- else, and the next claim wins; otherwise the sweep leaves the book alone and no claim wins.
pub sweep_frees_zombies :
    (now later stale i : ℕ) (b : Book) (t : Books)
    → IsConsistent t
    → get i t ≡ some b
    → in_flight b.status ≡ true
    → ((claim_for_processing now i t).0 ≡ false)
      × (get i (reset_zombies now stale t).1
          ≡ some (if is_zombie now stale b then swept_row now b else b))
      × ((claim_for_processing later i (reset_zombies now stale t).1).0 ≡ is_zombie now stale b)
sweep_frees_zombies now later stale i b t u h f =
    let freed =
      claim-wins later i (if is_zombie now stale b then swept_row now b else b)
        (reset_zombies now stale t).1
        (unfold apply in apply-IsConsistent now (Op.zombies stale) t u)
        (get-sweep now stale i b t h) in
    (claim-wins now i b t u h ∙ ground arith, get-sweep now stale i b t h, freed ∙ ground arith)

found_id : (i : ℕ) (b : Book) (t : Books) → get i t ≡ some b → (b.id == i) ≡ true
unfolding get
found_id i b t h = find?-true (has_id i) t b h

get-claim :
    (now i : ℕ) (b : Book) (t : Books)
    → get i t ≡ some b
    → get i (claim_for_processing now i t).1
      ≡ some (if claims_row i b then record b { status = searching; updated_at = now } else b)
unfolding get claim_for_processing
get-claim now i b t h = rw (
  find?-update_where (has_id i) (claims_row i)
      (λ (x : Book). record x { status = searching; updated_at = now }) t (λ x. refl),
  h,
)

-- For `stale` minutes after a claim that won, no sweep touches the book and no other claim wins it.
pub claim_protects :
    (start now later stale i : ℕ) (b : Book) (t : Books)
    → IsConsistent t
    → get i t ≡ some b
    → (claim_for_processing start i t).0 ≡ true
    → now ≤ start + stale * 60
    → let t' = (claim_for_processing start i t).1 in
      (get i (reset_zombies now stale t').1 ≡ get i t')
      × ((claim_for_processing later i (reset_zombies now stale t').1).0 ≡ false)
claim_protects start now later stale i b t u h won fresh =
    let b' : Book = record b { status = searching; updated_at = start } in
    let t' = (claim_for_processing start i t).1 in
    let open_row : is_claimable b.status ≡ true = sym (claim-wins start i b t u h) ∙ won in
    let own : (b.id == i) ≡ true = found_id i b t h in
    let h' : get i t' ≡ some b' = get-claim start i b t h ∙ ground arith in
    let u' : IsConsistent t' = unfold apply in apply-IsConsistent start (Op.claim i) t u in
    let kept : get i (reset_zombies now stale t').1 ≡ some b' =
      get-sweep now stale i b' t' h' ∙ ground arith in
    (
      kept ∙ sym h',
      claim-wins later i b' (reset_zombies now stale t').1
          (unfold apply in apply-IsConsistent now (Op.zombies stale) t' u') kept,
    )
