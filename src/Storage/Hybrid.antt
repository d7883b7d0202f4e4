-- ===== src/Storage/Hybrid.antt =====
-- `HybridStore` of src/endless_library/storage/hybrid.py.
use biblichor.Prelude.{String, Bool, true, false, List, [], ◌∷◌, ◌++◌, is_in, if◌then◌else◌}
use biblichor.Prelude.Result.{Result, ok, err}
use biblichor.Storage.{StorageError, key_not_found, storage_error, Store}

-- `HybridMode`
pub data HybridMode : Type 0 where
  mirror scheduled : HybridMode

-- Python's order of texts, and `sorted`: insertion before the first text that is not smaller.
abbrev pub insert_text : (String → String → Bool) → String → List String → List String
insert_text le s [] = s ∷ []
insert_text le s (t ∷ ts) =
    let rest = insert_text le s ts in if le s t then s ∷ t ∷ ts else t ∷ rest

-- A set of texts in order.
abbrev pub sorted_set : (String → String → Bool) → List String → List String
sorted_set le [] = []
sorted_set le (s ∷ ss) =
    let rest = sorted_set le ss in if is_in ss s then rest else insert_text le s rest

module _ (le : String → String → Bool) (primary backup : Store) (mode : HybridMode) where
  abbrev pub Hybrid : Type 0
  Hybrid = primary.State × backup.State

  -- The write to the backup; its errors are only logged.
  abbrev pub mirror_put : HybridMode → String → String → backup.State → backup.State
  mirror_put mirror c k b = (backup.put c k b).1
  mirror_put scheduled c k b = b

  abbrev pub after_put :
      String
      → String
      → backup.State
      → Result StorageError (Unit {0}) × primary.State
      → Result StorageError (Unit {0}) × Hybrid
  after_put c k b (ok u, a) = (ok tt, (a, mirror_put mode c k b))
  after_put c k b (err e, a) = (err e, (a, b))

  -- `put`
  unfoldable pub hybrid_put : String → String → Hybrid → Result StorageError (Unit {0}) × Hybrid
  hybrid_put c k (a, b) = after_put c k b (primary.put c k a)

  abbrev pub from_backup :
      primary.State
      → Result StorageError String × backup.State
      → Result StorageError String × Hybrid
  from_backup a (r, b) = (r, (a, b))

  abbrev pub after_get :
      String
      → backup.State
      → Result StorageError String × primary.State
      → Result StorageError String × Hybrid
  after_get k b (ok c, a) = (ok c, (a, b))
  after_get k b (err (key_not_found m), a) = from_backup a (backup.get k b)
  after_get k b (err (storage_error m), a) = (err (storage_error m), (a, b))

  -- `get`
  unfoldable pub hybrid_get : String → Hybrid → Result StorageError String × Hybrid
  hybrid_get k (a, b) = after_get k b (primary.get k a)

  abbrev pub with_primary :
      primary.State → Result StorageError Bool × backup.State → Result StorageError Bool × Hybrid
  with_primary a (r, b) = (r, (a, b))

  abbrev pub after_exists :
      String
      → backup.State
      → Result StorageError Bool × primary.State
      → Result StorageError Bool × Hybrid
  after_exists k b (ok true, a) = (ok true, (a, b))
  after_exists k b (ok false, a) = with_primary a (backup.exists k b)
  after_exists k b (err e, a) = (err e, (a, b))

  -- `exists`: the backup is asked only if the primary does not have the key.
  unfoldable pub hybrid_exists : String → Hybrid → Result StorageError Bool × Hybrid
  hybrid_exists k (a, b) = after_exists k b (primary.exists k a)

  -- `delete`: both sides; only the primary's error is raised.
  unfoldable pub hybrid_delete : String → Hybrid → Result StorageError (Unit {0}) × Hybrid
  hybrid_delete k (a, b) = ((primary.delete k a).0, ((primary.delete k a).1, (backup.delete k b).1))

  abbrev pub backup_keys : Result StorageError (List String) → List String
  backup_keys (ok ks) = ks
  backup_keys (err e) = []

  abbrev pub after_list :
      String
      → backup.State
      → Result StorageError (List String) × primary.State
      → Result StorageError (List String) × Hybrid
  after_list p b (ok ks, a) =
      let (r, b') = backup.list p b in (ok (sorted_set le (ks ++ backup_keys r)), (a, b'))
  after_list p b (err e, a) = (err e, (a, b))

  -- `list`
  unfoldable pub hybrid_list : String → Hybrid → Result StorageError (List String) × Hybrid
  hybrid_list p (a, b) = after_list p b (primary.list p a)

  -- `HybridStore` as a store
  abbrev pub hybrid : Store
  hybrid = record {
    State = Hybrid;
    put = hybrid_put;
    get = hybrid_get;
    exists = hybrid_exists;
    delete = hybrid_delete;
    list = hybrid_list;
  }
