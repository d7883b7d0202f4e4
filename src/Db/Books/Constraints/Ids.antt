-- ===== src/Db/Books/Constraints/Ids.antt =====
-- The id of a new row is fresh.
use biblichor.Prelude.{ℕ, ◌≡◌, refl, ◌≤◌, false, [], ◌∷◌, arith, ◌==◌, any}
use biblichor.Prelude.Sql.{next_rowid}
use biblichor.Db.Books.Row.{Books}

any-has_id_above :
    (i : ℕ) (t : Books) → next_rowid (λ b. b.id) t ≤ i → any (λ b. b.id == i) t ≡ false
any-has_id_above i [] h = refl
any-has_id_above i (b ∷ t) h = ground (arith, any-has_id_above i t (omega arith))

pub next_rowid_fresh : (t : Books) → any (λ b. b.id == next_rowid (λ x. x.id) t) t ≡ false
next_rowid_fresh t = any-has_id_above (next_rowid (λ b. b.id) t) t (omega arith)
