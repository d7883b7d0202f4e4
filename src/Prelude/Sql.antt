-- ===== src/Prelude/Sql.antt =====
-- The statements of SQLite that the repositories use, over a table as the list of its rows in
-- rowid order: UPDATE and DELETE with a WHERE clause, `rowcount`, ORDER BY, UNIQUE constraints
-- and the rowid of an inserted row.
pub mod Order
use Prim.Native.Nat.{ℕ, suc, ◌+◌, max}
use mathlib.Core.Path.{◌≡◌, refl}
use mathlib.Core.Logic.{inl, inr}
use mathlib.Core.Bool.{Bool, false}
use mathlib.Core.Option
use mathlib.Core.Option.{Option, none, some}
use mathlib.Core.List.{List, [], ◌∷◌, ◌++◌}
use native.Mathlib.Omega.{arith}
use biblichor.Prelude.Tests.{if◌then◌else◌, leb, Bool-cases}
use biblichor.Prelude.Lists.{find?, any, any-append}

module _ {ℓ} {A : Type ℓ} where
  -- UPDATE … SET f WHERE p
  abbrev pub update_where : (A → Bool) → (A → A) → List A → List A
  update_where p f [] = []
  update_where p f (x ∷ t) = (if p x then f x else x) ∷ update_where p f t

  -- DELETE … WHERE p
  abbrev pub delete_where : (A → Bool) → List A → List A
  delete_where p [] = []
  delete_where p (x ∷ t) = let rest = delete_where p t in if p x then rest else x ∷ rest

  -- `rowcount` of a statement with that WHERE clause, and SELECT COUNT(*)
  abbrev pub count_where : (A → Bool) → List A → ℕ
  count_where p [] = 0
  count_where p (x ∷ t) = (if p x then 1 else 0) + count_where p t

  abbrev pub insert_by : (A → ℕ) → A → List A → List A
  insert_by key x [] = x ∷ []
  insert_by key x (y ∷ t) =
      let rest = insert_by key x t in if leb (key x) (key y) then x ∷ y ∷ t else y ∷ rest

  -- ORDER BY key ASC; rows with equal keys stay in rowid order.
  abbrev pub order_by : (A → ℕ) → List A → List A
  order_by key [] = []
  order_by key (x ∷ t) = insert_by key x (order_by key t)

  -- The rowid that SQLite gives to a new row: one more than the largest.
  abbrev pub next_rowid : (A → ℕ) → List A → ℕ
  next_rowid key [] = 1
  next_rowid key (x ∷ t) = max (suc (key x)) (next_rowid key t)

  -- No two rows of the table clash.
  abbrev pub UniqueBy : (A → A → Bool) → List A → Type 0
  UniqueBy clash [] = Unit
  UniqueBy clash (x ∷ t) = (any (clash x) t ≡ false) × UniqueBy clash t

  pub find?-update_where :
      (q p : A → Bool) (f : A → A) (t : List A)
      → ((x : A) → q (f x) ≡ q x)
      → find? q (update_where p f t) ≡ Option.map (λ x. if p x then f x else x) (find? q t)
  find?-update_where q p f [] h = refl
  find?-update_where q p f (x ∷ t) h = ground (arith, h x, find?-update_where q p f t h)

  pub any-update_where :
      (q p : A → Bool) (f : A → A) (t : List A)
      → ((x : A) → q (f x) ≡ q x)
      → any q (update_where p f t) ≡ any q t
  any-update_where q p f [] h = refl
  any-update_where q p f (x ∷ t) h = ground (arith, h x, any-update_where q p f t h)

  pub any-false-update_where :
      (q p : A → Bool) (f : A → A) (t : List A)
      → ((x : A) → q x ≡ false → q (f x) ≡ false)
      → any q t ≡ false
      → any q (update_where p f t) ≡ false
  any-false-update_where q p f [] h k = refl
  any-false-update_where q p f (x ∷ t) h k = ground (arith, h x, any-false-update_where q p f t h)

  -- An update that leaves the columns of a constraint alone keeps the constraint.
  pub UniqueBy-update_where :
      (clash : A → A → Bool) (p : A → Bool) (f : A → A) (t : List A)
      → ((x y : A) → clash (f x) y ≡ clash x y)
      → ((x y : A) → clash x (f y) ≡ clash x y)
      → UniqueBy clash t
      → UniqueBy clash (update_where p f t)
  UniqueBy-update_where clash p f [] l r u = tt
  UniqueBy-update_where clash p f (x ∷ t) l r u = elim (Bool-cases (p x)) [
    | inl e ↦ rw e (
      rw (any-update_where (clash (f x)) p f t (r (f x))) (any_left t u.0),
      UniqueBy-update_where clash p f t l r u.1,
    )
    | inr e ↦
        rw e (
          rw (any-update_where (clash x) p f t (r x)) u.0,
          UniqueBy-update_where clash p f t l r u.1,
        )
  ]
    where
      any_left : (s : List A) → any (clash x) s ≡ false → any (clash (f x)) s ≡ false
      any_left [] h = refl
      any_left (y ∷ s) h = ground (arith, l x y, any_left s)

  pub UniqueBy-append :
      (clash : A → A → Bool) (t : List A) (y : A)
      → UniqueBy clash t
      → any (λ x. clash x y) t ≡ false
      → UniqueBy clash (t ++ y ∷ [])
  UniqueBy-append clash [] y u h = (refl, tt)
  UniqueBy-append clash (x ∷ t) y u h =
      (rw any-append (ground arith), UniqueBy-append clash t y u.1 (ground arith))
