-- ===== src/Storage/Tests.antt =====
-- A hybrid of two stores that have room for one file.
use mathlib.Core.Path.{subst}
use biblichor.Prelude.{
  ◌≡◌, refl, ap, eq_iff, if-both, String, Bool, true, false, Option, none, some, List, [], ◌∷◌,
  str_eq, if◌then◌else◌, arith,
}
use biblichor.Prelude.Result.{Result, ok, err}
use biblichor.Storage.{
  StorageError, key_not_found, storage_error, Store, Answers, is_some, starts_with, Lists, Tells,
  IsStore, IsReliable,
}
use biblichor.Storage.Hybrid.{mirror, hybrid}
use biblichor.Storage.Refines.{both_views, hybrid-IsStore}

abbrev answer : String → Option String → Result StorageError String
answer k none = err (key_not_found k)
answer k (some c) = ok c

-- The file "a" alone.
abbrev view : Option String → String → Option String
view s k = if str_eq k "a" then s else none

abbrev keys : String → Option String → List String
keys p none = []
keys p (some c) = if starts_with p "a" then "a" ∷ [] else []

abbrev one_file : Store
one_file = record {
  State = Option String;
  put = λ c k s. if str_eq k "a" then (ok tt, some c) else (err (storage_error "full"), s);
  get = λ k s. (answer k (view s k), s);
  exists = λ k s. (ok (is_some (view s k)), s);
  delete = λ k s. (ok tt, if str_eq k "a" then none else s);
  list = λ p s. (ok (keys p s), s);
}

-- An order with one class.
abbrev le : String → String → Bool
le s t = true

answer-Answers : (k : String) (o : Option String) → Answers o (answer k o)
answer-Answers k none = refl
answer-Answers k (some c) = refl

same_name : (k p : String) → str_eq k "a" ≡ true → starts_with p k ≡ starts_with p "a"
same_name k p h = ap (starts_with p) ((eq_iff k "a").0 h)

keys-Lists : (p : String) (s : Option String) → Lists le p (view s) (ok (keys p s))
keys-Lists p none = (λ k. ground arith, tt)
keys-Lists p (some c) =
    if-both (λ ks. Lists le p (view (some c)) (ok ks)) (starts_with p "a") _ _
      (λ e. (λ k. ground (arith, e, same_name k p), (tt, tt)))
      (λ e. (λ k. ground (arith, e, same_name k p), tt))

other_name : (j k : String) → str_eq j k ≡ false → str_eq k "a" ≡ true → str_eq j "a" ≡ false
other_name j k n h = subst (λ x. str_eq j x ≡ false) ((eq_iff k "a").0 h) n

exists-Tells : (o : Option String) → Tells o (ok (is_some o))
exists-Tells o = refl

one_file-IsStore : IsStore le one_file view
one_file-IsStore = record {
  put_stores = λ c k s h. ground (arith, h);
  put_spares = λ c k j s n. ground (arith, n, other_name j k n);
  get_reads = λ k s. answer-Answers k (view s k);
  get_spares = λ k j s. refl;
  exists_tells = λ k s. exists-Tells (view s k);
  exists_spares = λ k j s. refl;
  delete_removes = λ k s h. ground arith;
  delete_spares = λ k j s n. ground (arith, n, other_name j k n);
  list_lists = λ p s. keys-Lists p s;
  list_spares = λ p j s. refl;
}

one_file-IsReliable : IsReliable one_file
one_file-IsReliable = record { deletes = λ k s. refl; lists = λ p s. (keys p s, refl) }

total : (x y : String) → le x y ≡ false → le y x ≡ true
total x y h = refl

trans : (x y z : String) → le x y ≡ true → le y z ≡ true → le x z ≡ true
trans x y z h k = refl

hybrid-IsStore_example :
    IsStore le
      (hybrid le one_file one_file mirror)
      (both_views le one_file one_file mirror view view)
hybrid-IsStore_example =
    hybrid-IsStore le one_file one_file mirror total trans view view one_file-IsStore
      one_file-IsStore one_file-IsReliable
