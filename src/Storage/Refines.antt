-- ===== src/Storage/Refines.antt =====
-- A hybrid of two stores is a store.
use biblichor.Storage.Order.{is_in-sorted_set, sorted_set-IsOrdered}
use biblichor.Prelude.{
  List, ◌++◌, ◌&&◌, is_in, any-append, arith, ◌≡◌, refl, ap, ◌∙◌, String, Bool, true, false, Option,
  none, some, str_eq,
}
use biblichor.Prelude.Result.{Result, ok, err}
use biblichor.Storage.{
  IsReliable, starts_with, IsOrdered, Lists, StorageError, key_not_found, storage_error, Store,
  Answers, is_some, Tells, IsStore,
}
use biblichor.Storage.Hybrid.{
  sorted_set, backup_keys, after_list, hybrid_list, HybridMode, mirror, scheduled, Hybrid,
  mirror_put, after_put, hybrid_put, after_get, hybrid_get, after_exists, hybrid_exists,
  hybrid_delete, hybrid,
}

-- The primary's content, or else the backup's.
abbrev pub either : Option String → Option String → Option String
either (some c) o = some c
either none o = o

abbrev pub both_views :
    (le : String → String → Bool) (A B : Store) (mode : HybridMode)
    → (A.State → String → Option String)
    → (B.State → String → Option String)
    → Hybrid le A B mode
    → String
    → Option String
both_views le A B mode va vb (a, b) k = either (va a k) (vb b k)

module _ (le : String → String → Bool) (A B : Store) (mode : HybridMode)
    (total : (x y : String) → le x y ≡ false → le y x ≡ true)
    (trans : (x y z : String) → le x y ≡ true → le y z ≡ true → le x z ≡ true)
    (va : A.State → String → Option String) (vb : B.State → String → Option String)
    (ha : IsStore le A va) (hb : IsStore le B vb) (reliable : IsReliable B) where
  abbrev views : Hybrid le A B mode → String → Option String
  views = both_views le A B mode va vb

  abbrev H : Store
  H = hybrid le A B mode

  after_put-stores :
      (c k : String) (b : B.State) (x : Result StorageError (Unit {0}) × A.State)
      → (x.0 ≡ ok tt → va x.1 k ≡ some c)
      → (after_put le A B mode c k b x).0 ≡ ok tt
      → views (after_put le A B mode c k b x).1 k ≡ some c
  after_put-stores c k b (ok u, a) h e =
      ap (λ o. either o (vb (mirror_put le A B mode mode c k b) k)) (h refl)
  after_put-stores c k b (err x, a) h e = cc

  mirror-spares :
      (m : HybridMode) (c k j : String) (b : B.State)
      → str_eq j k ≡ false
      → vb (mirror_put le A B mode m c k b) j ≡ vb b j
  mirror-spares mirror c k j b n = hb.put_spares c k j b n
  mirror-spares scheduled c k j b n = refl

  after_put-spares :
      (c k j : String) (b : B.State) (x : Result StorageError (Unit {0}) × A.State)
      → str_eq j k ≡ false
      → views (after_put le A B mode c k b x).1 j ≡ either (va x.1 j) (vb b j)
  after_put-spares c k j b (ok u, a) n = ap (either (va a j)) (mirror-spares mode c k j b n)
  after_put-spares c k j b (err e, a) n = refl

  either_reads :
      (o p : Option String) (r : Result StorageError String)
      → o ≡ none
      → Answers p r
      → Answers (either o p) r
  either_reads none p r h k = k
  either_reads (some c) p r h k = cc

  after_get-reads :
      (k : String) (b : B.State) (o : Option String) (x : Result StorageError String × A.State)
      → Answers o x.0
      → Answers (either o (vb b k)) (after_get le A B mode k b x).0
  after_get-reads k b o (ok c, a) h = ap (λ o. either o (vb b k)) h
  after_get-reads k b o (err (key_not_found m), a) h = either_reads o _ _ h (hb.get_reads k b)
  after_get-reads k b o (err (storage_error m), a) h = tt

  after_get-spares :
      (k j : String) (b : B.State) (x : Result StorageError String × A.State)
      → views (after_get le A B mode k b x).1 j ≡ either (va x.1 j) (vb b j)
  after_get-spares k j b (ok c, a) = refl
  after_get-spares k j b (err (key_not_found m), a) = ap (either (va a j)) (hb.get_spares k j b)
  after_get-spares k j b (err (storage_error m), a) = refl

  Tells-true : (o p : Option String) → true ≡ is_some o → true ≡ is_some (either o p)
  Tells-true none p h = cc
  Tells-true (some c) p h = refl

  Tells-false :
      (o p : Option String) (r : Result StorageError Bool)
      → false ≡ is_some o
      → Tells p r
      → Tells (either o p) r
  Tells-false none p r h k = k
  Tells-false (some c) p r h k = cc

  after_exists-Tells :
      (k : String) (b : B.State) (o : Option String) (x : Result StorageError Bool × A.State)
      → Tells o x.0
      → Tells (either o (vb b k)) (after_exists le A B mode k b x).0
  after_exists-Tells k b o (ok true, a) h = Tells-true o (vb b k) h
  after_exists-Tells k b o (ok false, a) h = Tells-false o _ _ h (hb.exists_tells k b)
  after_exists-Tells k b o (err e, a) h = tt

  after_exists-spares :
      (k j : String) (b : B.State) (x : Result StorageError Bool × A.State)
      → views (after_exists le A B mode k b x).1 j ≡ either (va x.1 j) (vb b j)
  after_exists-spares k j b (ok true, a) = refl
  after_exists-spares k j b (ok false, a) = ap (either (va a j)) (hb.exists_spares k j b)
  after_exists-spares k j b (err e, a) = refl

  listed_in_either :
      (p k : String) (ks ks' : List String) (o o' : Option String)
      → is_in ks k ≡ (starts_with p k && is_some o)
      → is_in ks' k ≡ (starts_with p k && is_some o')
      → is_in (sorted_set le (ks ++ ks')) k ≡ (starts_with p k && is_some (either o o'))
  listed_in_either p k ks ks' none o' h h' =
      is_in-sorted_set le total trans (ks ++ ks') k
      ∙ any-append (str_eq k) ks ks'
      ∙ ground (arith, h, h')
  listed_in_either p k ks ks' (some c) o' h h' =
      is_in-sorted_set le total trans (ks ++ ks') k
      ∙ any-append (str_eq k) ks ks'
      ∙ ground (arith, h, h')

  Lists-both :
      (p : String) (ks ks' : List String) (r : Result StorageError (List String))
      (f g : String → Option String)
      → ((k : String) → is_in ks k ≡ (starts_with p k && is_some (f k))) × IsOrdered le ks
      → r ≡ ok ks'
      → Lists le p g r
      → Lists le p (λ k. either (f k) (g k)) (ok (sorted_set le (ks ++ backup_keys le A B mode r)))
  Lists-both p ks ks' (ok kb) f g h e h' = (
    λ k. listed_in_either p k ks kb (f k) (g k) (h.0 k) (h'.0 k),
    sorted_set-IsOrdered le total trans (ks ++ kb),
  )
  Lists-both p ks ks' (err m) f g h e h' = cc

  after_list-Lists :
      (p : String) (b : B.State) (f : String → Option String)
      (x : Result StorageError (List String) × A.State)
      → Lists le p f x.0
      → Lists le p (λ k. either (f k) (vb b k)) (after_list le A B mode p b x).0
  after_list-Lists p b f (ok ks, a) h =
      let (kb, e) = reliable.lists p b in
      Lists-both p ks kb (B.list p b).0 f (vb b) h e (hb.list_lists p b)
  after_list-Lists p b f (err e, a) h = tt

  after_list-spares :
      (p j : String) (b : B.State) (x : Result StorageError (List String) × A.State)
      → views (after_list le A B mode p b x).1 j ≡ either (va x.1 j) (vb b j)
  after_list-spares p j b (ok ks, a) = ap (either (va a j)) (hb.list_spares p j b)
  after_list-spares p j b (err e, a) = refl

  -- Over two stores that keep the promises, of which the backup never fails to delete or to list, the
  -- hybrid keeps all of them in both modes, with the primary's content where it has the key and the
  -- backup's where it has not: whatever a `put` or a read of the backup raises, a `put` that returned
  -- is read back, a `delete` that returned leaves the key on neither side, and `list` gives the keys
  -- of both in order.
  pub hybrid-IsStore : IsStore le (hybrid le A B mode) (both_views le A B mode va vb)
  unfolding hybrid_put hybrid_get hybrid_exists hybrid_delete hybrid_list
  hybrid-IsStore = record {
    put_stores = λ c k s h. after_put-stores c k s.1 (A.put c k s.0) (ha.put_stores c k s.0) h;
    put_spares = λ c k j s n.
        after_put-spares c k j s.1 (A.put c k s.0) n
        ∙ ap (λ o. either o (vb s.1 j)) (ha.put_spares c k j s.0 n);
    get_reads = λ k s. after_get-reads k s.1 (va s.0 k) (A.get k s.0) (ha.get_reads k s.0);
    get_spares = λ k j s.
        after_get-spares k j s.1 (A.get k s.0)
        ∙ ap (λ o. either o (vb s.1 j)) (ha.get_spares k j s.0);
    exists_tells =
        λ k s. after_exists-Tells k s.1 (va s.0 k) (A.exists k s.0) (ha.exists_tells k s.0);
    exists_spares = λ k j s.
        after_exists-spares k j s.1 (A.exists k s.0)
        ∙ ap (λ o. either o (vb s.1 j)) (ha.exists_spares k j s.0);
    delete_removes = λ k s h.
        ap (λ o. either o (vb (B.delete k s.1).1 k)) (ha.delete_removes k s.0 h)
        ∙ hb.delete_removes k s.1 (reliable.deletes k s.1);
    list_lists = λ p s. after_list-Lists p s.1 (va s.0) (A.list p s.0) (ha.list_lists p s.0);
    list_spares = λ p j s.
        after_list-spares p j s.1 (A.list p s.0)
        ∙ ap (λ o. either o (vb s.1 j)) (ha.list_spares p j s.0);
    delete_spares = λ k j s n.
        ap (λ o. either o (vb (B.delete k s.1).1 j)) (ha.delete_spares k j s.0 n)
        ∙ ap (either (va s.0 j)) (hb.delete_spares k j s.1 n);
  }
