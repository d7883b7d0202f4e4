-- ===== src/Prelude/Sql/Order.antt =====
-- ORDER BY: the result is sorted and has the same rows, and the first match is the least one.
use Prim.Native.Nat.{ℕ, ◌≤◌}
use mathlib.Core.Path.{◌≡◌, refl, subst}
use mathlib.Core.Logic.{inl, inr}
use mathlib.Core.Bool.{Bool, true}
use mathlib.Core.Option.{some}
use mathlib.Core.List.{List, [], ◌∷◌}
use native.Mathlib.Omega.{arith}
use biblichor.Prelude.Tests.{leb, Bool-cases}
use biblichor.Prelude.Lists.{find?, All}
use biblichor.Prelude.Sql.{insert_by, order_by, count_where}

module _ {ℓ} {A : Type ℓ} (key : A → ℕ) where
  abbrev pub IsSorted : List A → Type 0
  IsSorted [] = Unit
  IsSorted (x ∷ t) = All (λ y. key x ≤ key y) t × IsSorted t

  All-insert_by : (P : A → Type 0) (x : A) (t : List A) → P x → All P t → All P (insert_by key x t)
  All-insert_by P x [] h k = (h, tt)
  All-insert_by P x (y ∷ t) h k = elim (Bool-cases (leb (key x) (key y))) [
    | inl e ↦ rw e (h, k)
    | inr e ↦ rw e (k.0, All-insert_by P x t h k.1)
  ]

  All-insert_by_inv :
      (P : A → Type 0) (x : A) (t : List A) → All P (insert_by key x t) → P x × All P t
  All-insert_by_inv P x [] h = h
  All-insert_by_inv P x (y ∷ t) h = elim (Bool-cases (leb (key x) (key y))) [
    | inl e ↦ rw e at h
    | inr e ↦
        let k : P y × All P (insert_by key x t) = rw e at h in
        let (a, b) = All-insert_by_inv P x t k.1 in (a, (k.0, b))
  ]

  All-le : (a b : ℕ) (t : List A) → a ≤ b → All (λ y. b ≤ key y) t → All (λ y. a ≤ key y) t
  All-le a b [] h k = tt
  All-le a b (y ∷ t) h k = (omega arith, All-le a b t h k.1)

  insert_by-IsSorted : (x : A) (t : List A) → IsSorted t → IsSorted (insert_by key x t)
  insert_by-IsSorted x [] h = (tt, tt)
  insert_by-IsSorted x (y ∷ t) h = elim (Bool-cases (leb (key x) (key y))) [
    | inl e ↦ rw e ((ground arith, All-le (key x) (key y) t (ground arith) h.0), h)
    | inr e ↦
        rw e (All-insert_by (λ z. key y ≤ key z) x t (ground arith) h.0, insert_by-IsSorted x t h.1)
  ]

  pub order_by-IsSorted : (t : List A) → IsSorted (order_by key t)
  order_by-IsSorted [] = tt
  order_by-IsSorted (x ∷ t) = insert_by-IsSorted x (order_by key t) (order_by-IsSorted t)

  count_where-insert_by :
      (p : A → Bool) (x : A) (t : List A)
      → count_where p (insert_by key x t) ≡ count_where p (x ∷ t)
  count_where-insert_by p x [] = refl
  count_where-insert_by p x (y ∷ t) = ground (arith, count_where-insert_by p x t)

  -- Sorting neither adds nor drops a row.
  pub count_where-order_by :
      (p : A → Bool) (t : List A) → count_where p (order_by key t) ≡ count_where p t
  count_where-order_by p [] = refl
  count_where-order_by p (x ∷ t) =
      ground (arith, count_where-insert_by p x (order_by key t), count_where-order_by p t)

  pub All-order_by : (P : A → Type 0) (t : List A) → All P t → All P (order_by key t)
  All-order_by P [] h = tt
  All-order_by P (x ∷ t) h = All-insert_by P x (order_by key t) h.0 (All-order_by P t h.1)

  pub All-order_by_inv : (P : A → Type 0) (t : List A) → All P (order_by key t) → All P t
  All-order_by_inv P [] h = tt
  All-order_by_inv P (x ∷ t) h =
      let (a, b) = All-insert_by_inv P x (order_by key t) h in (a, All-order_by_inv P t b)

  All-implies :
      (p : A → Bool) (a : ℕ) (t : List A)
      → All (λ y. a ≤ key y) t
      → All (λ y. p y ≡ true → a ≤ key y) t
  All-implies p a [] h = tt
  All-implies p a (y ∷ t) h = (λ _. h.0, All-implies p a t h.1)

  find?-least :
      (p : A → Bool) (t : List A) (x : A)
      → IsSorted t
      → find? p t ≡ some x
      → All (λ y. p y ≡ true → key x ≤ key y) t
  find?-least p [] x s h = tt
  find?-least p (y ∷ t) x s h = elim (Bool-cases (p y)) [
    | inl e ↦
        let same : y ≡ x = ground arith in
        subst (λ z. All (λ w. p w ≡ true → key z ≤ key w) (y ∷ t)) same
          (λ _. omega arith, All-implies p (key y) t s.0)
    | inr e ↦ (λ k. ground arith, find?-least p t x s.1 (ground arith))
  ]

  -- The first match in the sorted table is a least match of the table.
  pub find?-order_by :
      (p : A → Bool) (t : List A) (x : A)
      → find? p (order_by key t) ≡ some x
      → All (λ y. p y ≡ true → key x ≤ key y) t
  find?-order_by p t x h =
      All-order_by_inv (λ y. p y ≡ true → key x ≤ key y) t
        (find?-least p (order_by key t) x (order_by-IsSorted t) h)
