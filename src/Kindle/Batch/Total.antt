-- ===== src/Kindle/Batch/Total.antt =====
-- `deliver_batch` answers for every file.
use mathlib.Core.Path.{subst}
use biblichor.Prelude.{
  sym, suc, ℕ, ◌≡◌, refl, ap, ◌∙◌, inl, inr, Bool, not, String, Option, none, some, List, [], ◌∷◌,
  length, ltb, if-both, if-true, if-false, select, Bool-cases,
}
use biblichor.Prelude.Text.{Text}
use biblichor.Prelude.Result.{Result, ok, err}
use biblichor.Kindle.Pack.{first_failure, BookFile, pack_batches}
use biblichor.Kindle.Pack.Partition.{concat, pack_batches_partition}
use biblichor.Kindle.Quota.{StkQuotaStatus}
use biblichor.Kindle.Session.{World, Env}
use biblichor.Kindle.Smtp.{Config, DeliveryResult, read}
use biblichor.Kindle.Deliver.{gate_failure, stk_quota}
use biblichor.Kindle.Batch.{
  Mapped, and_then, BatchError, key_error, raised, pack_and_send, ResultMap, refuse_oversized,
  send_batches, add_result, collect, all_by_smtp, by_sessions, past_gate, deliver_batch,
}
use biblichor.Kindle.Batch.Learns.{
  KnownAll, Learns, HasLearnt, KnownAll-Extends, or_raised, refuse_oversized-Learns,
  send_batches-Learns,
}

-- A batch delivery that returned has a result for each of `n` files, and no key was missing.
abbrev Answers : Type 0 → ℕ → Result BatchError (List DeliveryResult) × World → Type 0
Answers R n (ok rs, w) = length rs ≡ n
Answers R n (err (key_error i), w) = ⊥
Answers R n (err (raised e), w) = R

collect-ok :
    (files : List BookFile) (m : ResultMap)
    → KnownAll m files
    → (rs : List DeliveryResult) × (collect files m ≡ ok rs) × (length rs ≡ length files)
unfolding collect
collect-ok [] m h = ([], refl, refl)
collect-ok (bf ∷ bfs) m h =
    let (rs, e, n) = collect-ok bfs m h.1 in
    (
      h.0.0 ∷ rs,
      ap (λ o. add_result bf.book_id o (collect bfs m)) h.0.1
          ∙ ap (add_result bf.book_id (some h.0.0)) e,
      ap suc n,
    )

-- What fits and what does not are all the files.
KnownAll-select :
    (p : BookFile → Bool) (m : ResultMap) (bfs : List BookFile)
    → KnownAll m (select (λ bf. not (p bf)) bfs)
    → KnownAll m (select p bfs)
    → KnownAll m bfs
KnownAll-select p m [] f g = tt
KnownAll-select p m (bf ∷ bfs) f g = elim (Bool-cases (p bf)) [
  | inl h ↦
      let f' : KnownAll m (select (λ bf. not (p bf)) bfs) =
        subst (KnownAll m) (if-false (not (p bf)) _ _ (ap not h)) f in
      let g' : KnownAll m (bf ∷ select p bfs) = subst (KnownAll m) (if-true (p bf) _ _ h) g in
      (g'.0, KnownAll-select p m bfs f' g'.1)
  | inr h ↦
      let f' : KnownAll m (bf ∷ select (λ bf. not (p bf)) bfs) =
        subst (KnownAll m) (if-true (not (p bf)) _ _ (ap not h)) f in
      let g' : KnownAll m (select p bfs) = subst (KnownAll m) (if-false (p bf) _ _ h) g in
      (f'.0, KnownAll-select p m bfs f'.1 g')
]

all_by_smtp-length :
    (env : Env) (cfg : Config) (bfs : List BookFile) (w : World)
    → length (all_by_smtp env cfg bfs w).0 ≡ length bfs
unfolding all_by_smtp
all_by_smtp-length env cfg [] w = refl
all_by_smtp-length env cfg (bf ∷ bfs) w = ap suc (all_by_smtp-length env cfg bfs _)

-- The whole call; an insert into the event log or a size that cannot be read proves `R`.
module _ (R : Type 0) (env : Env) (cfg : Config)
    (inserts : (n : ℕ) (e : String) → env.insert_failure n ≡ some e → R)
    (losses : (n : ℕ) (t : Text) (e : String) → env.lost n t ≡ some e → R) where
  -- The last loop, after the others.
  Answers-collect :
      (files xs : List BookFile) (m : ResultMap) (y : Mapped)
      → ((m' : ResultMap) → Learns xs m m' → KnownAll m' files)
      → HasLearnt R xs m y
      → Answers R (length files) (and_then y (λ m' w. (collect files m', w)))
  Answers-collect files xs m (ok m', w) k h =
      let (rs, e, n) = collect-ok files m' (k m' h) in
      subst (λ x. Answers R (length files) (x, w)) (sym e) n
  Answers-collect files xs m (err (key_error i), w) k h = h
  Answers-collect files xs m (err (raised e), w) k h = h

  Answers-then :
      (n : ℕ) (xs : List BookFile) (m : ResultMap) (x : Mapped)
      (f : ResultMap → World → Result BatchError (List DeliveryResult) × World)
      → HasLearnt R xs m x
      → ((m' : ResultMap) (w : World) → Learns xs m m' → Answers R n (f m' w))
      → Answers R n (and_then x f)
  Answers-then n xs m (ok m', w) f h k = k m' w h
  Answers-then n xs m (err (key_error i), w) f h k = h
  Answers-then n xs m (err (raised e), w) f h k = h

  by_sessions-Answers :
      (files : List BookFile) (w : World) → Answers R (length files) (by_sessions env cfg files w)
  unfolding by_sessions
  by_sessions-Answers files w =
      let (batches, oversized) = pack_batches cfg.max_batch_bytes cfg.max_batch_files files in
      let parts = pack_batches_partition cfg.max_batch_bytes cfg.max_batch_files files in
      Answers-then (length files) oversized [] (refuse_oversized env oversized [] w) _
        (refuse_oversized-Learns R env cfg inserts losses oversized [] w)
        (λ m w' refused.
          Answers-collect files (concat batches) m (send_batches env cfg batches m w')
            (λ m' sent.
              KnownAll-select (λ bf. ltb cfg.max_batch_bytes bf.size) m' files
                (subst (KnownAll m') parts.0 sent.1)
                (subst (KnownAll m') parts.1 (KnownAll-Extends m m' oversized sent.0 refused.1)))
            (send_batches-Learns R env cfg inserts losses batches m w'))

  module _ (files : List BookFile) (sizes : (e : String) → first_failure files ≡ some e → R) where
    pack_and_send-Answers : (w : World) → Answers R (length files) (pack_and_send env cfg files w)
    unfolding pack_and_send
    pack_and_send-Answers w =
        or_raised (Answers R (length files)) (first_failure files) w _ sizes
          (by_sessions-Answers files w)

    past_gate-Answers :
        (w : World) (q : Option StkQuotaStatus)
        → Answers R (length files) (past_gate env cfg files w q)
    unfolding past_gate
    past_gate-Answers w none = pack_and_send-Answers w
    past_gate-Answers w (some status) =
        if-both (Answers R (length files)) status.exhausted _ _
          (λ full. all_by_smtp-length env cfg files (read w))
          (λ room. pack_and_send-Answers (read w))

    deliver_batch-Answers :
        (w : World)
        → ((e : String) → env.secrets_failure (read w).reads ≡ some e → R)
        → ((e : String) → gate_failure env cfg (read w) ≡ some e → R)
        → Answers R (length files) (deliver_batch env cfg files w)
    unfolding deliver_batch
    deliver_batch-Answers w secrets gate =
        let P = Answers R (length files) in
        or_raised P (env.secrets_failure (read w).reads) (read w) _ secrets (
          if-both P env.is_configured _ _
            (λ on.
              or_raised P (gate_failure env cfg (read w)) (read w) _ gate
                (past_gate-Answers (read w) (stk_quota env cfg (read w))))
            (λ off. all_by_smtp-length env cfg files (read w)))

-- A result for each of the `n` files where the call returned, and never a `KeyError`.
abbrev pub IsComplete : ℕ → Result BatchError (List DeliveryResult) × World → Type 0
IsComplete n (ok rs, w) = length rs ≡ n
IsComplete n (err (key_error i), w) = ⊥
IsComplete n (err (raised e), w) = Unit

to_IsComplete :
    (n : ℕ) (x : Result BatchError (List DeliveryResult) × World)
    → Answers Unit n x
    → IsComplete n x
to_IsComplete n (ok rs, w) h = h
to_IsComplete n (err (key_error i), w) h = h
to_IsComplete n (err (raised e), w) h = tt

-- Whatever the secrets, the quota, the event log, the sizes of the files, the sessions and the mails
-- answer or raise, `deliver_batch` never meets a book without a result (the `KeyError` of its last
-- loop), and where it returns, it returns a result for every file.
pub deliver_batch-IsComplete :
    (env : Env) (cfg : Config) (files : List BookFile) (w : World)
    → IsComplete (length files) (deliver_batch env cfg files w)
deliver_batch-IsComplete env cfg files w =
    to_IsComplete (length files) (deliver_batch env cfg files w) (
      deliver_batch-Answers Unit env cfg (λ n e h. tt) (λ n t e h. tt) files (λ e h. tt) w
        (λ e h. tt) (λ e h. tt))

no_exception :
    (n : ℕ) (x : Result BatchError (List DeliveryResult) × World)
    → Answers ⊥ n x
    → (rs : List DeliveryResult) × (x.0 ≡ ok rs) × (length rs ≡ n)
no_exception n (ok rs, w) h = (rs, refl, h)
no_exception n (err (key_error i), w) h = absurd h
no_exception n (err (raised e), w) h = absurd h

not_raised : {o : Option String} → o ≡ none → (e : String) → o ≡ some e → ⊥
not_raised h e k = cc

-- If no insert into the event log fails, and the secrets, the quota and the sizes of the files can be
-- read, each time `deliver_batch` asks, it returns a result for every file, whatever the sizes and
-- whatever the sessions and the mails answer.
pub deliver_batch_total :
    (env : Env) (cfg : Config) (files : List BookFile) (w : World)
    → ((n : ℕ) → env.insert_failure n ≡ none)
    → ((n : ℕ) (t : Text) → env.lost n t ≡ none)
    → env.secrets_failure (read w).reads ≡ none
    → gate_failure env cfg (read w) ≡ none
    → first_failure files ≡ none
    → (rs : List DeliveryResult) × ((deliver_batch env cfg files w).0 ≡ ok rs)
      × (length rs ≡ length files)
deliver_batch_total env cfg files w inserts there secrets gate sizes =
    no_exception (length files) (deliver_batch env cfg files w) (
      deliver_batch-Answers ⊥ env cfg (λ n. not_raised (inserts n)) (λ n t. not_raised (there n t))
        files (not_raised sizes) w (not_raised secrets) (not_raised gate))
