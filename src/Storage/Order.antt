-- ===== src/Storage/Order.antt =====
-- `sorted(seen)` of src/endless_library/storage/hybrid.py.
use biblichor.Prelude.{
  ◌≡◌, refl, ap, String, Bool, true, false, ◌||◌, List, [], ◌∷◌, All, is_in, str_eq, eq_iff,
  if-both, arith,
}
use biblichor.Storage.{IsOrdered}
use biblichor.Storage.Hybrid.{insert_text, sorted_set}

module _ (le : String → String → Bool) (total : (x y : String) → le x y ≡ false → le y x ≡ true)
    (trans : (x y z : String) → le x y ≡ true → le y z ≡ true → le x z ≡ true) where
  is_in-insert_text :
      (s : String) (ts : List String) (j : String)
      → is_in (insert_text le s ts) j ≡ (str_eq j s || is_in ts j)
  is_in-insert_text s [] j = refl
  is_in-insert_text s (t ∷ ts) j = ground (arith, is_in-insert_text s ts j)

  is_in-same : (ss : List String) (s j : String) → str_eq j s ≡ true → is_in ss j ≡ is_in ss s
  is_in-same ss s j h = ap (is_in ss) ((eq_iff j s).0 h)

  pub is_in-sorted_set : (ss : List String) (j : String) → is_in (sorted_set le ss) j ≡ is_in ss j
  is_in-sorted_set [] j = refl
  is_in-sorted_set (s ∷ ss) j =
      ground
        (arith, is_in-sorted_set ss j, is_in-insert_text s (sorted_set le ss) j, is_in-same ss s j)

  All-insert_text :
      (P : String → Type 0) (s : String) (ts : List String)
      → P s
      → All P ts
      → All P (insert_text le s ts)
  All-insert_text P s [] h k = (h, tt)
  All-insert_text P s (t ∷ ts) h k =
      if-both (All P) (le s t) _ _ (λ e. (h, k)) (λ e. (k.0, All-insert_text P s ts h k.1))

  All-below :
      (a b : String) (ts : List String)
      → le a b ≡ true
      → All (λ y. le b y ≡ true) ts
      → All (λ y. le a y ≡ true) ts
  All-below a b [] h k = tt
  All-below a b (t ∷ ts) h k = (trans a b t h k.0, All-below a b ts h k.1)

  insert_text-IsOrdered :
      (s : String) (ts : List String) → IsOrdered le ts → IsOrdered le (insert_text le s ts)
  insert_text-IsOrdered s [] h = (tt, tt)
  insert_text-IsOrdered s (t ∷ ts) h =
      if-both (IsOrdered le) (le s t) _ _ (λ e. ((e, All-below s t ts e h.0), h))
        (λ e. (
          All-insert_text (λ y. le t y ≡ true) s ts (total s t e) h.0,
          insert_text-IsOrdered s ts h.1,
        ))

  pub sorted_set-IsOrdered : (ss : List String) → IsOrdered le (sorted_set le ss)
  sorted_set-IsOrdered [] = tt
  sorted_set-IsOrdered (s ∷ ss) =
      if-both (IsOrdered le) (is_in ss s) _ _ (λ e. sorted_set-IsOrdered ss)
        (λ e. insert_text-IsOrdered s (sorted_set le ss) (sorted_set-IsOrdered ss))
