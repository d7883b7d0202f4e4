-- ===== src/Prelude/Names.antt =====
-- Lists of texts: membership, the number of occurrences, and repetitions.
use Prim.Native.Nat.{ℕ, ◌+◌, ◌≤◌}
use Prim.Native.String.{String}
use mathlib.Core.Path.{◌≡◌, refl, sym, ap}
use mathlib.Core.Bool.{Bool, true, not, ◌&&◌}
use mathlib.Core.List.{List, [], ◌∷◌, ◌++◌}
use native.Mathlib.Omega.{arith}
use text.Mathlib.Text.{◌==◌ as str_eq}
use text.Mathlib.TextEquality.{eq_iff}
use biblichor.Prelude.Tests.{if◌then◌else◌, ltb, str_eq_refl}
use biblichor.Prelude.Lists.{any, select, All}
use biblichor.Prelude.Sql.{count_where}

-- `s in xs`
abbrev pub is_in : List String → String → Bool
is_in xs s = any (str_eq s) xs

abbrev pub occurrences : String → List String → ℕ
occurrences n xs = count_where (str_eq n) xs

-- No text is there twice.
abbrev pub is_distinct : List String → Bool
is_distinct [] = true
is_distinct (x ∷ xs) = not (is_in xs x) && is_distinct xs

pub occurrences-append :
    (n : String) (xs ys : List String)
    → occurrences n (xs ++ ys) ≡ occurrences n xs + occurrences n ys
occurrences-append n [] ys = omega arith
occurrences-append n (x ∷ xs) ys = omega (arith, occurrences-append n xs ys)

pub is_in-occurrences : (xs : List String) (n : String) → is_in xs n ≡ ltb 0 (occurrences n xs)
is_in-occurrences [] n = refl
is_in-occurrences (x ∷ xs) n = ground (arith, is_in-occurrences xs n)

-- A test cannot tell equal texts apart.
same_test : (p : String → Bool) (n x : String) → str_eq n x ≡ true → p x ≡ p n
same_test p n x h = ap p (sym ((eq_iff n x).0 h))

pub occurrences-select :
    (p : String → Bool) (n : String) (xs : List String)
    → occurrences n (select p xs) ≡ (if p n then occurrences n xs else 0)
occurrences-select p n [] = ground arith
occurrences-select p n (x ∷ xs) = ground (arith, same_test p n x, occurrences-select p n xs)

pub is_in-select :
    (p : String → Bool) (xs : List String) (n : String)
    → is_in (select p xs) n ≡ (p n && is_in xs n)
is_in-select p xs n =
    ground
      (arith, is_in-occurrences (select p xs) n, is_in-occurrences xs n, occurrences-select p n xs)

-- What holds of every text in the list holds of its elements.
pub All-in :
    (P : String → Type 0) (xs : List String) → ((n : String) → is_in xs n ≡ true → P n) → All P xs
All-in P [] h = tt
All-in P (x ∷ xs) h =
    (h x (ground (arith, str_eq_refl x)), All-in P xs (λ n k. h n (ground (arith, k))))

pub is_distinct-once :
    (n : String) (xs : List String) → is_distinct xs ≡ true → occurrences n xs ≤ 1
is_distinct-once n [] h = omega arith
is_distinct-once n (x ∷ xs) h =
    ground (arith, is_distinct-once n xs, same_test (is_in xs) n x, is_in-occurrences xs n)
