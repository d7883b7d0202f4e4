-- ===== src/Compress/Repack.antt =====
-- The members of an EPUB that is packed again.
use biblichor.Prelude.{
  ℕ, ◌+◌, ◌≤◌, ◌≡◌, refl, ap, ◌||◌, Option, none, some, List, [], ◌∷◌, map, ◌==◌, not, leb, length,
  if-both, arith,
}
use biblichor.Compress.{
  Bytes, Entry, ImageTool, Tools, no_bytes, smaller_only, shrink, shrunk, is_suffix, recompress,
  repack,
}

-- All of a member but its blob.
abbrev pub without_blob : Entry → Entry
without_blob e = record e { blob = [] }

abbrev pub total_bytes : List Entry → ℕ
total_bytes [] = 0
total_bytes (e ∷ es) = length e.blob + total_bytes es

-- The bytes written and those saved are the blob's.
abbrev pub IsAccounted : Bytes → Bytes × ℕ → Type 0
IsAccounted blob (out, saved) = length blob ≡ length out + saved

-- What a tool gives is not longer.
abbrev pub IsShorter : Bytes → Option Bytes → Type 0
IsShorter blob none = Unit
IsShorter blob (some small) = length small ≤ length blob

smaller_only-IsShorter :
    (blob : Bytes) (o : Option (ℕ × Bytes)) → IsShorter blob (smaller_only blob o)
smaller_only-IsShorter blob none = tt
smaller_only-IsShorter blob (some (code, out)) =
    if-both (IsShorter blob) (not (code == 0) || no_bytes out) _ _ (λ e. tt)
      (λ e.
        if-both (IsShorter blob) (leb (length blob) (length out)) _ _ (λ f. tt)
          (λ f. ground (arith, f)))

shrink-IsShorter : (tool : ImageTool) (blob : Bytes) → IsShorter blob (shrink tool blob)
unfolding shrink
shrink-IsShorter tool blob =
    if-both (IsShorter blob) tool.is_installed _ _
      (λ e. smaller_only-IsShorter blob (tool.run blob)) (λ e. tt)

shrunk-IsAccounted :
    (blob : Bytes) (o : Option Bytes) → IsShorter blob o → IsAccounted blob (shrunk blob o)
shrunk-IsAccounted blob none h = omega arith
shrunk-IsAccounted blob (some small) h = omega (arith, h)

module _ (tools : Tools) where
  recompress-IsAccounted : (e : Entry) → IsAccounted e.blob (recompress tools e)
  unfolding recompress
  recompress-IsAccounted e =
      if-both (IsAccounted e.blob)
        (is_suffix tools ".jpg" (tools.suffix e.filename)
          || is_suffix tools ".jpeg" (tools.suffix e.filename))
        _ _ (λ h. shrunk-IsAccounted e.blob _ (shrink-IsShorter tools.jpegoptim e.blob))
        (λ h.
          if-both (IsAccounted e.blob) (is_suffix tools ".png" (tools.suffix e.filename)) _ _
            (λ k. shrunk-IsAccounted e.blob _ (shrink-IsShorter tools.pngquant e.blob))
            (λ k. omega arith))

  -- Packing again keeps the members in their order, with names, dates, modes and permissions, and the
  -- bytes of the members are those written and those counted as saved.
  pub repack_keeps :
      (es : List Entry)
      → (map without_blob (repack tools es).0 ≡ map without_blob es)
        × (total_bytes es ≡ total_bytes (repack tools es).0 + (repack tools es).1)
  unfolding repack
  repack_keeps [] = (refl, refl)
  repack_keeps (e ∷ es) =
      let (same, total) = repack_keeps es in
      (ap (λ rest. without_blob e ∷ rest) same, omega (arith, recompress-IsAccounted e, total))
