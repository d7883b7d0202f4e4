-- ===== src/Kindle/Batch/Sessions.antt =====
-- What the sessions that `deliver_batch` opens may contain.

use biblichor.Prelude.{ℕ, ◌+◌, ◌≤◌, ◌≡◌, ◌∙◌, none, List, [], ◌∷◌, map, ltb, if-false, All, arith}
use biblichor.Kindle.Pack.{BookFile, pack_batches}
use biblichor.Kindle.Pack.Partition.{total_bytes, pack_batches_partition}
use biblichor.Kindle.Session.{Env, preflight, preflight_loop}
use biblichor.Kindle.Smtp.{entry_of}

preflight_loop-none :
    (env : Env) (max_bytes count total : ℕ) (bfs : List BookFile)
    → total + total_bytes bfs ≤ max_bytes
    → preflight_loop env max_bytes count total (map entry_of bfs) ≡ none
unfolding preflight_loop
preflight_loop-none env max_bytes count total [] h =
    if-false (ltb max_bytes total) _ _ (ground (arith, h))
preflight_loop-none env max_bytes count total (bf ∷ bfs) h =
    if-false (ltb max_bytes bf.size) _ _ (ground (arith, h))
    ∙ preflight_loop-none env max_bytes count (total + bf.size) bfs (omega (arith, h))

All-map :
    {P Q : List BookFile → Type 0} (bs : List (List BookFile))
    → ((b : List BookFile) → P b → Q b)
    → All P bs
    → All Q bs
All-map [] f h = tt
All-map (b ∷ bs) f h = (f b h.0, All-map bs f h.1)

-- Every batch that `_pack_batches` makes for a limit passes the pre-flight checks of `send_files`
-- for that limit.
pub packed_batches_pass_preflight :
    (env : Env) (max_bytes max_files : ℕ) (files : List BookFile)
    → All
        (λ batch. preflight env max_bytes (map entry_of batch) ≡ none)
        (pack_batches max_bytes max_files files).0
unfolding preflight
packed_batches_pass_preflight env max_bytes max_files files =
    All-map (pack_batches max_bytes max_files files).0
      (λ batch h. preflight_loop-none env max_bytes _ 0 batch (omega (arith, h.bytes)))
      (pack_batches_partition max_bytes max_files files).2
