-- ===== src/Kindle/Pack.antt =====
-- `BookFile` and `_pack_batches` of src/endless_library/kindle_router.py.
pub mod Partition
use biblichor.Prelude.{
  ℕ, ◌+◌, String, Option, none, some, Bool, true, false, ◌&&◌, ◌||◌, List, [], ◌∷◌, ◌++◌, length,
  leb, ltb, if◌then◌else◌,
}
use biblichor.Prelude.Text.{Text}

-- `stat_failure` is what `file_path.stat()` raises, and `size` the `st_size` of its answer where it
-- raises nothing. A file may be lost later, but its size does not change.
pub record BookFile : Type 0 where
  pub book_id : ℕ
  pub file_path : Text
  pub title : Text
  pub author : Text
  pub size : ℕ
  pub stat_failure : Option String

-- The first exception of the loop of `_pack_batches`, which asks for the size of every file and has
-- no effect before.
abbrev pub first_failure : List BookFile → Option String
first_failure [] = none
first_failure (bf ∷ bfs) =
    let later = first_failure bfs in elim bf.stat_failure [ some e ↦ some e | none ↦ later ]

-- The variables of the loop.
pub record Packing : Type 0 where
  pub batches : List (List BookFile)
  pub oversized : List BookFile
  pub current : List BookFile
  pub current_bytes : ℕ

-- `if current:`
abbrev pub is_started : List BookFile → Bool
is_started [] = false
is_started (bf ∷ bfs) = true

abbrev pub add_file : BookFile → Packing → Packing
add_file bf p = record p {
  current = p.current ++ bf ∷ [];
  current_bytes = p.current_bytes + bf.size;
}

abbrev pub close_batch : Packing → Packing
close_batch p = record p { batches = p.batches ++ p.current ∷ []; current = []; current_bytes = 0 }

abbrev pub finish : Packing → List (List BookFile) × List BookFile
finish p = (if is_started p.current then p.batches ++ p.current ∷ [] else p.batches, p.oversized)

abbrev pub no_files : Packing
no_files = record { batches = []; oversized = []; current = []; current_bytes = 0 }

module _ (max_bytes max_files : ℕ) where
  -- One round of the loop.
  unfoldable pub pack_step : BookFile → Packing → Packing
  pack_step bf p =
      if ltb max_bytes bf.size
      then record p { oversized = p.oversized ++ bf ∷ [] }
      else if is_started p.current
          && (ltb max_bytes (p.current_bytes + bf.size) || leb max_files (length p.current))
      then add_file bf (close_batch p)
      else add_file bf p

  unfoldable pub pack_loop : List BookFile → Packing → Packing
  pack_loop [] p = p
  pack_loop (bf ∷ bfs) p = pack_loop bfs (pack_step bf p)

  -- `_pack_batches`: the batches and the oversized files.
  unfoldable pub pack_batches : List BookFile → List (List BookFile) × List BookFile
  unfolding pack_loop pack_step
  pack_batches book_files = finish (pack_loop book_files no_files)
