-- ===== src/Kindle/Batch/Learns.antt =====
-- What the loops of `deliver_batch` put into its dictionary of results.
use biblichor.Prelude.{
  map, ℕ, ◌≡◌, refl, String, Option, none, some, List, [], ◌∷◌, ◌++◌, ◌==◌, ==_refl, if-both,
  if-true, All,
}
use biblichor.Prelude.Text.{Text}
use biblichor.Prelude.Result.{Result, ok, err}
use biblichor.Kindle.Pack.{BookFile}
use biblichor.Kindle.Pack.Partition.{concat}
use biblichor.Kindle.Session.{unless_raised, World, Env, Raised, between_sends, send_files}
use biblichor.Kindle.Smtp.{Config, DeliveryResult, read, entry_of}
use biblichor.Kindle.Deliver.{pause_if}
use biblichor.Kindle.Batch.{
  Mapped, and_then, first_lost, BatchError, key_error, raised, ResultMap, lookup, refuse_oversized,
  mark_sent, send_by_smtp, after_session, send_batches, text_raised, send_batch,
}

-- The dictionary has a result for the book.
abbrev Known : ResultMap → ℕ → Type 0
Known m i = (r : DeliveryResult) × (lookup i m ≡ some r)

abbrev pub KnownAll : ResultMap → List BookFile → Type 0
KnownAll m bfs = All (λ (bf : BookFile). Known m bf.book_id) bfs

abbrev Extends : ResultMap → ResultMap → Type 0
Extends m m' = (i : ℕ) → Known m i → Known m' i

Known-put : (i : ℕ) (r : DeliveryResult) (m : ResultMap) → Known ((i, r) ∷ m) i
Known-put i r m = (r, if-true (i == i) _ _ (==_refl i))

Extends-put : (j : ℕ) (r : DeliveryResult) (m : ResultMap) → Extends m ((j, r) ∷ m)
Extends-put j r m i (s, h) =
    if-both (λ o. (t : DeliveryResult) × (o ≡ some t)) (j == i) _ _ (λ same. (r, refl))
      (λ other. (s, h))

pub KnownAll-Extends :
    (m m' : ResultMap) (bfs : List BookFile) → Extends m m' → KnownAll m bfs → KnownAll m' bfs
KnownAll-Extends m m' [] e h = tt
KnownAll-Extends m m' (bf ∷ bfs) e h = (e bf.book_id h.0, KnownAll-Extends m m' bfs e h.1)

KnownAll-append :
    (m : ResultMap) (xs ys : List BookFile) → KnownAll m xs → KnownAll m ys → KnownAll m (xs ++ ys)
KnownAll-append m [] ys f g = g
KnownAll-append m (x ∷ xs) ys f g = (f.0, KnownAll-append m xs ys f.1 g)

-- A loop keeps what is known and comes to know its books.
abbrev pub Learns : List BookFile → ResultMap → ResultMap → Type 0
Learns bfs m m' = Extends m m' × KnownAll m' bfs

Learns-put :
    (bf : BookFile) (bfs : List BookFile) (r : DeliveryResult) (m m' : ResultMap)
    → Learns bfs ((bf.book_id, r) ∷ m) m'
    → Learns (bf ∷ bfs) m m'
Learns-put bf bfs r m m' (e, h) =
    (λ i k. e i (Extends-put bf.book_id r m i k), (e bf.book_id (Known-put bf.book_id r m), h))

-- What a loop that did not raise comes to know; `R` is what an exception of the environment proves.
abbrev pub HasLearnt : Type 0 → List BookFile → ResultMap → Mapped → Type 0
HasLearnt R bfs m (ok m', w) = Learns bfs m m'
HasLearnt R bfs m (err (key_error i), w) = ⊥
HasLearnt R bfs m (err (raised e), w) = R

-- An exception before the rest.
pub or_raised :
    {A : Type 0} (P : Result BatchError A × World → Type 0) (o : Option String) (w : World)
    (x : Result BatchError A × World)
    → ((e : String) → o ≡ some e → P (err (raised e), w))
    → P x
    → P (unless_raised raised o w x)
or_raised P none w x k h = h
or_raised P (some e) w x k h = k e refl

-- The loops and the sessions; an insert into the event log or a size that cannot be read proves `R`.
module _ (R : Type 0) (env : Env) (cfg : Config)
    (inserts : (n : ℕ) (e : String) → env.insert_failure n ≡ some e → R)
    (losses : (n : ℕ) (t : Text) (e : String) → env.lost n t ≡ some e → R) where
  HasLearnt-put :
      (bf : BookFile) (bfs : List BookFile) (r : DeliveryResult) (m : ResultMap) (x : Mapped)
      → HasLearnt R bfs ((bf.book_id, r) ∷ m) x
      → HasLearnt R (bf ∷ bfs) m x
  HasLearnt-put bf bfs r m (ok m', w) h = Learns-put bf bfs r m m' h
  HasLearnt-put bf bfs r m (err (key_error i), w) h = h
  HasLearnt-put bf bfs r m (err (raised e), w) h = h

  or_insert :
      (bfs : List BookFile) (m : ResultMap) (w : World) (x : Mapped)
      → HasLearnt R bfs m x
      → HasLearnt R bfs m (unless_raised raised (env.insert_failure w.reads) w x)
  or_insert bfs m w x h =
      or_raised (HasLearnt R bfs m) (env.insert_failure w.reads) w x (inserts w.reads) h

  pub refuse_oversized-Learns :
      (bfs : List BookFile) (m : ResultMap) (w : World)
      → HasLearnt R bfs m (refuse_oversized env bfs m w)
  unfolding refuse_oversized
  refuse_oversized-Learns [] m w = (λ i k. k, tt)
  refuse_oversized-Learns (bf ∷ bfs) m w =
      or_raised (HasLearnt R (bf ∷ bfs) m) (env.lost w.reads bf.file_path) w _
        (losses w.reads bf.file_path)
        (or_insert (bf ∷ bfs) m w _ (HasLearnt-put bf bfs _ m _ (refuse_oversized-Learns bfs _ _)))

  mark_sent-Learns :
      (d : ℕ) (bfs : List BookFile) (m : ResultMap) (w : World)
      → HasLearnt R bfs m (mark_sent env d bfs m w)
  unfolding mark_sent
  mark_sent-Learns d [] m w = (λ i k. k, tt)
  mark_sent-Learns d (bf ∷ bfs) m w =
      or_insert (bf ∷ bfs) m w _ (HasLearnt-put bf bfs _ m _ (mark_sent-Learns d bfs _ _))

  send_by_smtp-Learns :
      (e : Option String) (bfs : List BookFile) (m : ResultMap) (w : World)
      → HasLearnt R bfs m (send_by_smtp env cfg e bfs m w)
  unfolding send_by_smtp
  send_by_smtp-Learns e [] m w = (λ i k. k, tt)
  send_by_smtp-Learns e (bf ∷ bfs) m w =
      or_insert (bf ∷ bfs) m w _ (HasLearnt-put bf bfs _ m _ (send_by_smtp-Learns e bfs _ _))

  first_lost-none :
      (bfs : List BookFile) (w : World) (e : String) → first_lost env bfs w ≡ some e → R
  first_lost-none [] w e h = cc
  first_lost-none (bf ∷ bfs) w e h =
      first (env.lost w.reads bf.file_path) (losses w.reads bf.file_path) (first_lost-none bfs w e)
        h
    where
      first :
          (o : Option String)
          → ((e : String) → o ≡ some e → R)
          → (first_lost env bfs w ≡ some e → R)
          → elim o [ some e ↦ some e | none ↦ first_lost env bfs w ] ≡ some e
          → R
      first none k l h = l h
      first (some e') k l h = k e' refl

  after_session-Learns :
      (batch : List BookFile) (m : ResultMap) (a : Result Raised (List (String × Text))) (w : World)
      → HasLearnt R batch m (after_session env cfg batch m a w)
  unfolding after_session
  after_session-Learns batch m (ok skus) w =
      or_raised (HasLearnt R batch m) (first_lost env batch (read w)) (read w) _
        (first_lost-none batch (read w))
        (or_insert batch m (read w) _ (mark_sent-Learns _ batch m _))
  after_session-Learns batch m (err e) w =
      or_raised (HasLearnt R batch m) (first_lost env batch (read w)) (read w) _
        (first_lost-none batch (read w))
        (send_by_smtp-Learns (some (text_raised e)) batch m (read w))

  send_batch-Learns :
      (batch : List BookFile) (m : ResultMap) (w : World)
      → HasLearnt R batch m (send_batch env cfg batch m w)
  unfolding send_batch
  send_batch-Learns batch m w =
      let (answer, w') =
        send_files env cfg.per_file_interval cfg.max_batch_bytes (map entry_of batch)
          (pause_if cfg.min_send_interval between_sends (read w)) in
      after_session-Learns batch m answer w'

  -- One loop after another.
  HasLearnt-then :
      (xs ys : List BookFile) (m : ResultMap) (x : Mapped) (f : ResultMap → World → Mapped)
      → HasLearnt R xs m x
      → ((m' : ResultMap) (w : World) → HasLearnt R ys m' (f m' w))
      → HasLearnt R (xs ++ ys) m (and_then x f)
  HasLearnt-then xs ys m (ok m', w) f (e, h) k = after (f m' w) (k m' w)
    where
      after : (y : Mapped) → HasLearnt R ys m' y → HasLearnt R (xs ++ ys) m y
      after (ok m'', v) (e', h') =
          (λ i n. e' i (e i n), KnownAll-append m'' xs ys (KnownAll-Extends m' m'' xs e' h) h')
      after (err (key_error i), v) l = l
      after (err (raised t), v) l = l
  HasLearnt-then xs ys m (err (key_error i), w) f h k = h
  HasLearnt-then xs ys m (err (raised t), w) f h k = h

  pub send_batches-Learns :
      (batches : List (List BookFile)) (m : ResultMap) (w : World)
      → HasLearnt R (concat batches) m (send_batches env cfg batches m w)
  unfolding send_batches
  send_batches-Learns [] m w = (λ i k. k, tt)
  send_batches-Learns (batch ∷ batches) m w =
      HasLearnt-then batch (concat batches) m (send_batch env cfg batch m w) _
        (send_batch-Learns batch m w) (send_batches-Learns batches)
