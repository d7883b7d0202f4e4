-- ===== src/Compress/Fits.antt =====
-- The output of the ladder.
use mathlib.Core.Path.{subst}
use biblichor.Prelude.{
  ℕ, ◌≤◌, ◌<◌, ◌≡◌, refl, sym, Bool, true, false, Option, none, some, List, ◌==◌, leb, if-both,
  arith,
}
use biblichor.Prelude.Text.{Text}
use biblichor.Prelude.Result.{ok, err}
use biblichor.Compress.{
  Sizes, Run, timed_out, exited, Entry, Tools, Compressed, keep_smaller, after_exit, after_run,
  compress_pdf, repack, after_pack, after_read, compress_epub, is_suffix, accept, try_compress,
}

-- The original is untouched, and a file that is returned is the output and is smaller.
abbrev pub IsSmaller : ℕ → Compressed → Type 0
IsSmaller m (err e, s) = s.source ≡ some m
IsSmaller m (ok n, s) = (s.source ≡ some m) × (s.output ≡ some n) × (n < m)

-- Moreover it fits.
abbrev pub IsFitting : ℕ → ℕ → Option ℕ × Sizes → Type 0
IsFitting m target (none, s) = s.source ≡ some m
IsFitting m target (some n, s) = (s.source ≡ some m) × (s.output ≡ some n) × (n < m) × (n ≤ target)

abbrev pub sized : ℕ → Option ℕ → Sizes
sized m o = record { source = some m; output = o }

keep_smaller-IsSmaller : (m n : ℕ) → IsSmaller m (keep_smaller (some m) n (sized m (some n)))
keep_smaller-IsSmaller m n =
    if-both (IsSmaller m) (leb m n) _ _ (λ e. refl) (λ e. (refl, refl, ground (arith, e)))

after_exit-IsSmaller : (m code : ℕ) (o : Option ℕ) → IsSmaller m (after_exit code o (sized m o))
after_exit-IsSmaller m code none = if-both (IsSmaller m) (code == 0) _ _ (λ e. refl) (λ e. refl)
after_exit-IsSmaller m code (some n) =
    if-both (IsSmaller m) (code == 0) _ _ (λ e. keep_smaller-IsSmaller m n) (λ e. refl)

after_run-IsSmaller : (m : ℕ) (o : Option ℕ) (r : Run) → IsSmaller m (after_run r (sized m o))
after_run-IsSmaller m o (timed_out p) = refl
after_run-IsSmaller m o (exited code p) = after_exit-IsSmaller m code p

module _ (tools : Tools) where
  compress_pdf-IsSmaller :
      (m : ℕ) (o : Option ℕ) (aggressive : Bool)
      → IsSmaller m (compress_pdf tools aggressive (sized m o))
  unfolding compress_pdf
  compress_pdf-IsSmaller m o aggressive =
      if-both (IsSmaller m) tools.has_ocrmypdf _ _
        (λ e. after_run-IsSmaller m o (tools.ocrmypdf aggressive)) (λ e. refl)

  after_pack-IsSmaller : (m : ℕ) (o p : Option ℕ) → IsSmaller m (after_pack tools p (sized m o))
  after_pack-IsSmaller m o none = refl
  after_pack-IsSmaller m o (some n) = keep_smaller-IsSmaller m n

  after_read-IsSmaller :
      (m : ℕ) (o : Option ℕ) (l : Option (List Entry))
      → IsSmaller m (after_read tools l (sized m o))
  after_read-IsSmaller m o none = refl
  after_read-IsSmaller m o (some entries) =
      after_pack-IsSmaller m o (tools.packed (repack tools entries).0)

  compress_epub-IsSmaller : (m : ℕ) (o : Option ℕ) → IsSmaller m (compress_epub tools (sized m o))
  unfolding compress_epub
  compress_epub-IsSmaller m o = after_read-IsSmaller m o tools.infolist

  accept-IsFitting :
      (m target : ℕ) (next : Sizes → Option ℕ × Sizes)
      → ((s : Sizes) → s.source ≡ some m → IsFitting m target (next s))
      → (c : Compressed) → IsSmaller m c
      → IsFitting m target (accept tools target next c)
  accept-IsFitting m target next rest (err e, s) h = rest s h
  accept-IsFitting m target next rest (ok n, s) h =
      if-both (IsFitting m target) (leb n target) _ _ (λ e. (h.0, h.1, h.2, ground (arith, e)))
        (λ e. rest _ h.0)

  pdf-IsSmaller :
      (m : ℕ) (aggressive : Bool) (s : Sizes)
      → s.source ≡ some m
      → IsSmaller m (compress_pdf tools aggressive s)
  pdf-IsSmaller m aggressive s h =
      subst
        (λ o.
          IsSmaller m (compress_pdf tools aggressive (record { source = o; output = s.output })))
        (sym h) (compress_pdf-IsSmaller m s.output aggressive)

  epub-IsSmaller : (m : ℕ) (s : Sizes) → s.source ≡ some m → IsSmaller m (compress_epub tools s)
  epub-IsSmaller m s h =
      subst (λ o. IsSmaller m (compress_epub tools (record { source = o; output = s.output })))
        (sym h) (compress_epub-IsSmaller m s.output)

  -- Of a source of `m` bytes, whatever the programs do, the ladder leaves the source; a size that it
  -- returns is that of the output, which is smaller than the source and within the target.
  pub try_compress_fits :
      (m target : ℕ) (ext : Text) (s : Sizes)
      → s.source ≡ some m
      → IsFitting m target (try_compress tools ext target s)
  unfolding try_compress
  try_compress_fits m target ext s h =
      if-both (IsFitting m target) (is_suffix tools ".pdf" ext) _ _
        (λ e.
          accept-IsFitting m target _
            (λ t k.
              accept-IsFitting m target (λ s. (none, s)) (λ u l. l) (compress_pdf tools true t)
                (pdf-IsSmaller m true t k))
            (compress_pdf tools false s) (pdf-IsSmaller m false s h))
        (λ e.
          if-both (IsFitting m target) (is_suffix tools ".epub" ext) _ _
            (λ f.
              accept-IsFitting m target (λ s. (none, s)) (λ u l. l) (compress_epub tools s)
                (epub-IsSmaller m s h))
            (λ f. h))
