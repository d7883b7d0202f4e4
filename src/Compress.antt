-- ===== src/Compress.antt =====
-- src/endless_library/compress.py: the ladder of compressions for a file that is too large.
pub mod Fits
pub mod Repack
mod Tests
use biblichor.Prelude.{
  ℕ, ◌+◌, ◌-◌, String, Bool, true, false, not, ◌||◌, Option, none, some, List, [], ◌∷◌, ◌==◌, leb,
  length, if◌then◌else◌,
}
use biblichor.Prelude.Text.{codes, Text, same_codes}
use biblichor.Prelude.Result.{Result, ok, err}

abbrev pub Bytes : Type 0
Bytes = List ℕ

-- Why a `CompressError` is raised.
pub data CompressError : Type 0 where
  source_not_found not_installed timeout no_output repack_failed not_smaller : CompressError
  exited_with : ℕ → CompressError

-- The sizes of the original and of the `.opt` file beside it, `none` where there is no file.
pub record Sizes : Type 0 where
  pub source : Option ℕ
  pub output : Option ℕ

-- A run of ocrmypdf: it times out or exits with a code, and leaves an output or none.
pub data Run : Type 0 where
  timed_out : Option ℕ → Run
  exited : ℕ → Option ℕ → Run

-- A member of the EPUB, with what `ZipInfo` carries over.
pub record Entry : Type 0 where
  pub filename : String
  pub date_time : String
  pub compress_type : ℕ
  pub external_attr : ℕ
  pub blob : Bytes

-- An image tool: whether it is installed, and a run, `none` when it times out.
pub record ImageTool : Type 0 where
  pub is_installed : Bool
  pub run : Bytes → Option (ℕ × Bytes)

-- The programs and the archive library. `infolist` is `none` where the archive cannot be read,
-- `packed` where it cannot be written.
pub record Tools : Type 0 where
  pub has_ocrmypdf : Bool
  pub ocrmypdf : Bool → Run
  pub jpegoptim : ImageTool
  pub pngquant : ImageTool
  pub suffix : String → Text
  pub infolist : Option (List Entry)
  pub packed : List Entry → Option ℕ

abbrev pub Compressed : Type 0
Compressed = Result CompressError ℕ × Sizes

-- `if dst_size >= src_size`
abbrev pub keep_smaller : Option ℕ → ℕ → Sizes → Compressed
keep_smaller none n s = (err source_not_found, s)
keep_smaller (some m) n s =
    if leb m n then (err not_smaller, record s { output = none }) else (ok n, s)

abbrev pub after_exit : ℕ → Option ℕ → Sizes → Compressed
after_exit code none s = if code == 0 then (err no_output, s) else (err (exited_with code), s)
after_exit code (some n) s =
    if code == 0 then keep_smaller s.source n s else (err (exited_with code), s)

abbrev pub after_run : Run → Sizes → Compressed
after_run (timed_out o) s = (err timeout, record s { output = o })
after_run (exited code o) s = after_exit code o (record s { output = o })

abbrev pub has_file : Option ℕ → Bool
has_file none = false
has_file (some n) = true

abbrev pub no_bytes : Bytes → Bool
no_bytes [] = true
no_bytes (b ∷ bs) = false

-- `_shrink_jpeg` and `_shrink_png`
abbrev pub smaller_only : Bytes → Option (ℕ × Bytes) → Option Bytes
smaller_only blob none = none
smaller_only blob (some (code, out)) =
    if not (code == 0) || no_bytes out
    then none
    else if leb (length blob) (length out)
    then none
    else some out

unfoldable pub shrink : ImageTool → Bytes → Option Bytes
shrink tool blob = if tool.is_installed then smaller_only blob (tool.run blob) else none

-- The blob to write, and the bytes saved.
abbrev pub shrunk : Bytes → Option Bytes → Bytes × ℕ
shrunk blob none = (blob, 0)
shrunk blob (some small) = (small, length blob - length small)

module _ (tools : Tools) where
  -- `compress_pdf`
  unfoldable pub compress_pdf : Bool → Sizes → Compressed
  compress_pdf aggressive s =
      if not (has_file s.source)
      then (err source_not_found, s)
      else if tools.has_ocrmypdf
      then after_run (tools.ocrmypdf aggressive) s
      else (err not_installed, s)

  abbrev pub is_suffix : String → Text → Bool
  is_suffix s t = same_codes (codes s) t

  unfoldable pub recompress : Entry → Bytes × ℕ
  unfolding shrink
  recompress e =
      let ext = tools.suffix e.filename in
      if is_suffix ".jpg" ext || is_suffix ".jpeg" ext
      then shrunk e.blob (shrink tools.jpegoptim e.blob)
      else if is_suffix ".png" ext
      then shrunk e.blob (shrink tools.pngquant e.blob)
      else (e.blob, 0)

  -- The loop over the members: those written, and `saved_bytes`.
  unfoldable pub repack : List Entry → List Entry × ℕ
  unfolding recompress
  repack [] = ([], 0)
  repack (e ∷ es) =
      let (blob, saved) = recompress e in
      let (rest, more) = repack es in (record e { blob = blob } ∷ rest, saved + more)

  abbrev pub after_pack : Option ℕ → Sizes → Compressed
  after_pack none s = (err repack_failed, record s { output = none })
  after_pack (some n) s = keep_smaller s.source n (record s { output = some n })

  abbrev pub after_read : Option (List Entry) → Sizes → Compressed
  after_read none s = (err repack_failed, record s { output = none })
  after_read (some entries) s = after_pack (tools.packed (repack entries).0) s

  -- `compress_epub`
  unfoldable pub compress_epub : Sizes → Compressed
  unfolding repack
  compress_epub s =
      if has_file s.source then after_read tools.infolist s else (err source_not_found, s)

  -- The test of the target; `next` is what is tried after a failure.
  abbrev pub accept : ℕ → (Sizes → Option ℕ × Sizes) → Compressed → Option ℕ × Sizes
  accept target next (err e, s) = next s
  accept target next (ok n, s) =
      let otherwise = next (record s { output = none }) in
      if leb n target then (some n, s) else otherwise

  -- `try_compress`, which returns the size of the output.
  unfoldable pub try_compress : Text → ℕ → Sizes → Option ℕ × Sizes
  unfolding compress_pdf compress_epub
  try_compress ext target s =
      if is_suffix ".pdf" ext
      then accept target (λ s. accept target (λ s. (none, s)) (compress_pdf true s))
          (compress_pdf false s)
      else if is_suffix ".epub" ext
      then accept target (λ s. (none, s)) (compress_epub s)
      else (none, s)
