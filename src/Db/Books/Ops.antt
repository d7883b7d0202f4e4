-- ===== src/Db/Books/Ops.antt =====
-- Every statement of src/endless_library/db/books.py that changes a row, as one operation, and the
-- number of attempts under a sequence of them.
use biblichor.Prelude.{
  ℕ, ◌+◌, ◌≡◌, refl, String, Bool, false, Option, none, some, List, [], ◌∷◌, arith, ◌==◌,
  find?-true, All, if◌then◌else◌, ==_iff,
}
use biblichor.Prelude.Sql.{update_where, find?-update_where}
use biblichor.Domain.Status.{Status}
use biblichor.Db.Books.Row.{Book, Books, has_id, get}
use biblichor.Db.Books.Queue.{
  claim_for_processing, set_failed, set_skipped, increment_attempts, reset_zombies, mark_dedup,
}
use biblichor.Db.Books.Stages.{
  searched, StatusArgs, Stage, set_status, mark_stage, clear_stages_from, set_tags, mark_kindled,
  reset_for_research, reset_for_redownload,
}

pub data Op : Type 0 where
  claim increment research redownload : ℕ → Op
  fail skip : ℕ → String → Op
  zombies : ℕ → Op
  dedup : ℕ → ℕ → String → Op
  status : ℕ → Status → StatusArgs → Op
  stage clear : ℕ → Stage → Op
  tag : ℕ → Option String → Option String → Op
  kindle : ℕ → Option String → Op

-- The operation at the time `now`.
unfoldable pub apply : ℕ → Op → Books → Books
apply now (Op.claim i) t = (claim_for_processing now i t).1
apply now (Op.increment i) t = increment_attempts now i t
apply now (Op.research i) t = reset_for_research now i t
apply now (Op.redownload i) t = reset_for_redownload now i t
apply now (Op.fail i error) t = set_failed now i error t
apply now (Op.skip i error) t = set_skipped now i error t
apply now (Op.zombies stale) t = (reset_zombies now stale t).1
apply now (Op.dedup i j md5) t = mark_dedup now i j md5 t
apply now (Op.status i s a) t = set_status now i s a t
apply now (Op.stage i s) t = mark_stage now i s t
apply now (Op.clear i s) t = clear_stages_from now i s t
apply now (Op.tag i series tags) t = set_tags now i series tags t
apply now (Op.kindle i method) t = mark_kindled now i method t

-- A sequence of operations with their times.
unfoldable pub run : List (ℕ × Op) → Books → Books
run [] t = t
run ((now, op) ∷ ops) t = run ops (apply now op t)

-- Does the operation put the attempts of book `i` back to 0?
abbrev pub resets : ℕ → Op → Bool
resets i (Op.research j) = j == i
resets i (Op.redownload j) = j == i
resets i _ = false

-- Does the operation count a failure of book `i`?
abbrev pub counts : ℕ → Op → Bool
counts i (Op.fail j _) = j == i
counts i (Op.increment j) = j == i
counts i _ = false

-- The failures of book `i` among the operations.
unfoldable pub failures : ℕ → List (ℕ × Op) → ℕ
failures i [] = 0
failures i ((now, op) ∷ ops) = (if counts i op then 1 else 0) + failures i ops

-- After the operation the table still has book `i`, with `n` attempts more than `b`.
abbrev pub HasAttempts : ℕ → Book → ℕ → Books → Type 0
HasAttempts i b n t = (b' : Book) × (get i t ≡ some b') × (b'.attempts ≡ b.attempts + n)

-- An UPDATE of any rows, seen at book `i`.
HasAttempts-update_where :
    (i : ℕ) (p : Book → Bool) (f : Book → Book) (n : ℕ) (b : Book) (t : Books)
    → ((x : Book) → (f x).id ≡ x.id)
    → ((x : Book) → x.id ≡ i → (if p x then f x else x).attempts ≡ x.attempts + n)
    → get i t ≡ some b
    → HasAttempts i b n (update_where p f t)
unfolding get
HasAttempts-update_where i p f n b t same count h = (
  if p b then f b else b,
  rw (find?-update_where (has_id i) p f t (λ x. rw same), h),
  count b ((==_iff b.id i).0 (find?-true (has_id i) t b h)),
)

HasAttempts-apply :
    (i now : ℕ) (op : Op) (b : Book) (t : Books)
    → resets i op ≡ false
    → get i t ≡ some b
    → HasAttempts i b (if counts i op then 1 else 0) (apply now op t)
unfolding apply claim_for_processing set_failed set_skipped increment_attempts reset_zombies
    mark_dedup set_status mark_stage clear_stages_from set_tags mark_kindled reset_for_research
    reset_for_redownload
HasAttempts-apply i now (Op.claim j) b t r h =
    HasAttempts-update_where i _ _ 0 b t (λ x. refl) (λ x e. ground arith) h
HasAttempts-apply i now (Op.increment j) b t r h =
    HasAttempts-update_where i _ _ (if j == i then 1 else 0) b t (λ x. refl) (λ x e. ground arith) h
HasAttempts-apply i now (Op.research j) b t r h =
    HasAttempts-update_where i _ _ 0 b t (λ x. refl) (λ x e. ground arith) h
HasAttempts-apply i now (Op.redownload j) b t r h =
    HasAttempts-update_where i _ _ 0 b t (λ x. refl) (λ x e. ground arith) h
HasAttempts-apply i now (Op.fail j error) b t r h =
    HasAttempts-update_where i _ _ (if j == i then 1 else 0) b t (λ x. refl) (λ x e. ground arith) h
HasAttempts-apply i now (Op.skip j error) b t r h =
    HasAttempts-update_where i _ _ 0 b t (λ x. refl) (λ x e. ground arith) h
HasAttempts-apply i now (Op.zombies stale) b t r h =
    HasAttempts-update_where i _ _ 0 b t (λ x. refl) (λ x e. ground arith) h
HasAttempts-apply i now (Op.dedup j k md5) b t r h =
    HasAttempts-update_where i _ _ 0 b t (λ x. refl) (λ x e. ground arith) h
HasAttempts-apply i now (Op.status j s a) b t r h =
    HasAttempts-update_where i _ _ 0 b t (λ x. refl) (λ x e. ground arith) h
HasAttempts-apply i now (Op.stage j searched) b t r h =
    HasAttempts-update_where i _ _ 0 b t (λ x. refl) (λ x e. ground arith) h
HasAttempts-apply i now (Op.stage j s) b t r h =
    HasAttempts-update_where i _ _ 0 b t (λ x. refl) (λ x e. ground arith) h
HasAttempts-apply i now (Op.clear j searched) b t r h =
    HasAttempts-update_where i _ _ 0 b t (λ x. refl) (λ x e. ground arith) h
HasAttempts-apply i now (Op.clear j s) b t r h =
    HasAttempts-update_where i _ _ 0 b t (λ x. refl) (λ x e. ground arith) h
HasAttempts-apply i now (Op.tag j none none) b t r h = (b, h, omega arith)
HasAttempts-apply i now (Op.tag j series tags) b t r h =
    HasAttempts-update_where i _ _ 0 b t (λ x. refl) (λ x e. ground arith) h
HasAttempts-apply i now (Op.kindle j method) b t r h =
    HasAttempts-update_where i _ _ 0 b t (λ x. refl) (λ x e. ground arith) h

-- In any sequence of operations that does not reset book `i`, its attempts grow by exactly the
-- failures that were recorded for it.
pub attempts_count_failures :
    (i : ℕ) (ops : List (ℕ × Op)) (b : Book) (t : Books)
    → get i t ≡ some b
    → All (λ o. resets i o.1 ≡ false) ops
    → HasAttempts i b (failures i ops) (run ops t)
unfolding run failures
attempts_count_failures i [] b t h k = (b, h, omega arith)
attempts_count_failures i ((now, op) ∷ ops) b t h k =
    let (b', h', e') = HasAttempts-apply i now op b t k.0 h in
    let (b'', h'', e'') = attempts_count_failures i ops b' (apply now op t) h' k.1 in
    (b'', h'', omega arith)
