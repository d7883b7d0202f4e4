-- ===== src/Domain/Script.antt =====
-- `_is_non_latin` and `_non_latin_substring` of src/endless_library/domain/scoring.py.
use biblichor.Prelude.{
  ℕ, Bool, true, false, ◌&&◌, ◌||◌, List, [], ◌∷◌, any, ltb, leb, if◌then◌else◌,
}
use biblichor.Prelude.Text.{Text, is_space, strip}

abbrev pub within : ℕ → ℕ × ℕ → Bool
within cp (lo, hi) = leb lo cp && leb cp hi

-- ASCII and accented Latin
abbrev pub is_latin : ℕ → Bool
is_latin cp = ltb cp 0x0250 || within cp (0x1e00, 0x1eff)

-- The blocks that are not Latin for certain.
abbrev pub non_latin_blocks : List (ℕ × ℕ)
non_latin_blocks =
    (0x0370, 0x03ff)
    ∷ (0x0400, 0x052f)
    ∷ (0x0590, 0x05ff)
    ∷ (0x0600, 0x06ff)
    ∷ (0x0900, 0x097f)
    ∷ (0x0980, 0x09ff)
    ∷ (0x0a00, 0x0a7f)
    ∷ (0x0a80, 0x0aff)
    ∷ (0x0b00, 0x0b7f)
    ∷ (0x0b80, 0x0bff)
    ∷ (0x0c00, 0x0c7f)
    ∷ (0x0c80, 0x0cff)
    ∷ (0x0d00, 0x0d7f)
    ∷ (0x0e00, 0x0e7f)
    ∷ (0x0f00, 0x0fff)
    ∷ (0x1100, 0x11ff)
    ∷ (0x3040, 0x309f)
    ∷ (0x30a0, 0x30ff)
    ∷ (0x3400, 0x4dbf)
    ∷ (0x4e00, 0x9fff)
    ∷ (0xac00, 0xd7af)
    ∷ []

-- The loop of `_is_non_latin`.
unfoldable pub is_non_latin : Text → Bool
is_non_latin [] = false
is_non_latin (cp ∷ s) =
    let rest = is_non_latin s in
    if is_latin cp then rest else if any (within cp) non_latin_blocks then true else rest

-- `ch.isspace() or ch in "-–—_·:.0123456789"`
abbrev pub is_shared : ℕ → Bool
is_shared cp =
    is_space cp
    || any (λ c. within cp (c, c)) (b'-' ∷ 0x2013 ∷ 0x2014 ∷ b'_' ∷ 0xb7 ∷ b':' ∷ b'.' ∷ [])
    || within cp (b'0', b'9')

-- The characters that `_non_latin_substring` keeps.
unfoldable pub non_latin_glyphs : Text → Text
non_latin_glyphs [] = []
non_latin_glyphs (cp ∷ s) =
    let rest = non_latin_glyphs s in
    if is_shared cp then cp ∷ rest else if is_latin cp then rest else cp ∷ rest

unfoldable pub non_latin_substring : Text → Text
unfolding non_latin_glyphs
non_latin_substring s = strip (non_latin_glyphs s)
