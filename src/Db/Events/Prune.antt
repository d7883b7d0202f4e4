-- ===== src/Db/Events/Prune.antt =====
-- What is left of the event log after `prune`.
use biblichor.Prelude.{
  ℕ, ◌+◌, ◌-◌, ◌≤◌, ◌≡◌, refl, ap, Bool, false, [], ◌∷◌, arith, zero, suc, ltb, length, drop, All,
  Bool-cases, inl, inr, ltb→lt,
}
use biblichor.Prelude.Sql.{delete_where, count_where}
use biblichor.Db.Events.{Event, Events, is_old, prune}

length-delete_where :
    (p : Event → Bool) (t : Events) → length (delete_where p t) + count_where p t ≡ length t
length-delete_where p [] = refl
length-delete_where p (e ∷ t) = ground (arith, length-delete_where p t)

length-drop : (n : ℕ) (t : Events) → length (drop n t) ≡ length t - n
length-drop zero t = omega arith
length-drop (suc n) [] = omega arith
length-drop (suc n) (e ∷ t) = omega (arith, length-drop n t)

All-delete_where : (p : Event → Bool) (t : Events) → All (λ e. p e ≡ false) (delete_where p t)
All-delete_where p [] = tt
All-delete_where p (e ∷ t) = elim (Bool-cases (p e)) [
  | inl h ↦ rw h (All-delete_where p t)
  | inr h ↦ rw h (h, All-delete_where p t)
]

All-drop : (P : Event → Type 0) (n : ℕ) (t : Events) → All P t → All P (drop n t)
All-drop P zero t h = h
All-drop P (suc n) [] h = tt
All-drop P (suc n) (e ∷ t) h = All-drop P n t h.1

-- After `prune` at most `keep_rows` rows are left, none of them is older than `keep_days` days, they
-- are the youngest of those by id, and with the number that is returned they make up the log.
pub prune_lem :
    (now keep_rows keep_days : ℕ) (t : Events)
    → let (deleted, t') = prune now keep_rows keep_days t in
      (length t' ≤ keep_rows)
      × All (λ e. is_old now keep_days e ≡ false) t'
      × (t'
          ≡ drop
              (length (delete_where (is_old now keep_days) t) - keep_rows)
              (delete_where (is_old now keep_days) t))
      × (deleted + length t' ≡ length t)
unfolding prune
prune_lem now keep_rows keep_days t =
    let young = delete_where (is_old now keep_days) t in
    let fresh = All-delete_where (is_old now keep_days) t in
    let n = length young - keep_rows in
    let count = length-delete_where (is_old now keep_days) t in
    elim (Bool-cases (ltb keep_rows (length young))) [
      | inl more ↦ rw more (
        omega (arith, length-drop n young, ltb→lt _ _ more),
        All-drop _ n young fresh,
        refl,
        omega (arith, length-drop n young, ltb→lt _ _ more),
      )
      | inr few ↦ rw few (
        ground arith,
        fresh,
        ap (λ (k : ℕ). drop k young) (let none_over : 0 ≡ n = ground arith in none_over),
        omega arith,
      )
    ]
