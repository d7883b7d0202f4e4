-- ===== src/Pipeline/Poll/Growth.antt =====
-- Tables that grow at the end, and what an upsert does to one.
use biblichor.Prelude.{
  ℕ, suc, ◌+◌, ◌≡◌, refl, sym, ap, ◌∙◌, true, false, [], ◌∷◌, ◌++◌, length, ltb, arith,
  length-append, ◌⊎◌, inl, inr, find?, any, Bool-cases, Option-cases,
}
use mathlib.Core.Path.{subst}
use mathlib.Core.List.{append_assoc, append-nil}
use biblichor.Prelude.Sql.{next_rowid}
use biblichor.Db.Books.Row.{Book, Books}
use biblichor.Db.Books.Upsert.{
  NewBook, known_isbn, same_source, upsert, insert_book, new_row, clashes,
}

-- The table is `t` with `n` more rows at the end.
abbrev pub GrownBy : Books → ℕ → Books → Type 0
GrownBy t n t' = (new : Books) × (t' ≡ t ++ new) × (length new ≡ n)

pub GrownBy-same : (t : Books) → GrownBy t 0 t
GrownBy-same t = ([], sym (append-nil t), refl)

pub GrownBy-trans : (t u v : Books) (m n : ℕ) → GrownBy t m u → GrownBy u n v → GrownBy t (m + n) v
GrownBy-trans t u v m n (x, e, h) (y, f, k) =
    (x ++ y, f ∙ (ap (λ w. w ++ y) e ∙ append_assoc t x y), omega (arith, length-append x y, h, k))

-- An upsert leaves the table or appends one row.
abbrev pub Upserted : Books → Books → Type 0
Upserted t t' = (t' ≡ t) ⊎ GrownBy t 1 t'

pub upsert-Upserted : (now : ℕ) (b : NewBook) (t : Books) → Upserted t (upsert now b t).1
unfolding upsert insert_book
upsert-Upserted now b t = elim (Option-cases (known_isbn b.isbn13 t)) [
  | inr (x, e) ↦ inl (ground (arith, e))
  | inl e ↦ elim (Option-cases (find? (same_source b) t)) [
    | inr (x, f) ↦ inl (ground (arith, e, f))
    | inl f ↦
        let row : Book = new_row now (next_rowid (λ x. x.id) t) b in
        elim (Bool-cases (any (λ x. clashes x row) t)) [
          | inl g ↦ inl (ground (arith, e, f, g))
          | inr g ↦ inr (row ∷ [], ground (arith, e, f, g), refl)
        ]
  ]
]

-- The table after an upsert into `u`, which has `n` rows more than `t`.
abbrev pub Midway : Books → ℕ → Books → Books → Type 0
Midway t n u v = GrownBy t n u × Upserted u v

pub Midway-new :
    (t u v : Books) (n : ℕ)
    → Midway t n u v
    → ltb (length u) (length v) ≡ true
    → GrownBy t (suc n) v
Midway-new t u v n (g, inl e) h = ground (arith, ap length e, h)
Midway-new t u v n (g, inr k) h =
    let (new, e, l) = GrownBy-trans t u v n 1 g k in (new, e, omega (arith, l))

pub Midway-old :
    (t u v : Books) (n : ℕ) → Midway t n u v → ltb (length u) (length v) ≡ false → GrownBy t n v
Midway-old t u v n (g, inl e) h = subst (λ w. GrownBy t n w) (sym e) g
Midway-old t u v n (g, inr (new, e, l)) h = ground (arith, ap length e, length-append u new, l, h)
