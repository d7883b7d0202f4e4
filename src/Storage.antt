-- ===== src/Storage.antt =====
-- src/endless_library/storage/base.py: the interface of a store, and what it promises.
pub mod Hybrid
pub mod Order
pub mod Refines
pub mod Tests
use biblichor.Prelude.Text.{codes, has_prefix}
use biblichor.Prelude.{
  [], ◌∷◌, ◌&&◌, All, is_in, String, Bool, true, false, Option, none, some, List, ◌≡◌, str_eq,
}
use biblichor.Prelude.Result.{Result, ok, err}

-- `KeyNotFound`, and any other `StorageError`
pub data StorageError : Type 0 where
  key_not_found storage_error : String → StorageError

-- `Store`: the methods on a state that may stand for a remote. A file is its content, which `put`
-- reads and `get` writes.
pub record Store : Type 1 where
  pub State : Type 0
  pub put : String → String → State → Result StorageError (Unit {0}) × State
  pub get : String → State → Result StorageError String × State
  pub exists : String → State → Result StorageError Bool × State
  pub delete : String → State → Result StorageError (Unit {0}) × State
  pub list : String → State → Result StorageError (List String) × State

-- An answer to `get` where the store has `o`.
abbrev pub Answers : Option String → Result StorageError String → Type 0
Answers o (ok c) = o ≡ some c
Answers o (err (key_not_found k)) = o ≡ none
Answers o (err (storage_error m)) = Unit

abbrev pub is_some : Option String → Bool
is_some none = false
is_some (some c) = true

-- An answer to `exists` where the store has `o`.
abbrev pub Tells : Option String → Result StorageError Bool → Type 0
Tells o (ok b) = b ≡ is_some o
Tells o (err e) = Unit

-- `key.startswith(prefix)`
abbrev pub starts_with : String → String → Bool
starts_with p k = has_prefix (codes p) (codes k)

-- No text stands before a smaller one.
abbrev pub IsOrdered : (String → String → Bool) → List String → Type 0
IsOrdered le [] = Unit
IsOrdered le (k ∷ ks) = All (λ j. le k j ≡ true) ks × IsOrdered le ks

-- An answer to `list`: the keys with the prefix that the store has, in order.
abbrev pub Lists :
    (String → String → Bool)
    → String
    → (String → Option String)
    → Result StorageError (List String)
    → Type 0
Lists le p has (ok ks) =
    ((k : String) → is_in ks k ≡ (starts_with p k && is_some (has k))) × IsOrdered le ks
Lists le p has (err e) = Unit

-- The promises, where `view` says what the store has and `le` is the order of texts: a `put` that
-- returns stores the content, a `delete` that returns removes the key, `get`, `exists` and `list`
-- tell the truth unless they fail, and no call touches another key.
pub record IsStore (le : String → String → Bool) (S : Store)
    (view : S.State → String → Option String) : Type 0 where
  pub put_stores :
      (c k : String) (s : S.State) → (S.put c k s).0 ≡ ok tt → view (S.put c k s).1 k ≡ some c
  pub put_spares :
      (c k j : String) (s : S.State) → str_eq j k ≡ false → view (S.put c k s).1 j ≡ view s j
  pub get_reads : (k : String) (s : S.State) → Answers (view s k) (S.get k s).0
  pub get_spares : (k j : String) (s : S.State) → view (S.get k s).1 j ≡ view s j
  pub exists_tells : (k : String) (s : S.State) → Tells (view s k) (S.exists k s).0
  pub exists_spares : (k j : String) (s : S.State) → view (S.exists k s).1 j ≡ view s j
  pub delete_removes :
      (k : String) (s : S.State) → (S.delete k s).0 ≡ ok tt → view (S.delete k s).1 k ≡ none
  pub delete_spares :
      (k j : String) (s : S.State) → str_eq j k ≡ false → view (S.delete k s).1 j ≡ view s j
  pub list_lists : (p : String) (s : S.State) → Lists le p (view s) (S.list p s).0
  pub list_spares : (p j : String) (s : S.State) → view (S.list p s).1 j ≡ view s j

-- A store whose `delete` and `list` never fail.
pub record IsReliable (S : Store) : Type 0 where
  pub deletes : (k : String) (s : S.State) → (S.delete k s).0 ≡ ok tt
  pub lists : (p : String) (s : S.State) → (ks : List String) × ((S.list p s).0 ≡ ok ks)
