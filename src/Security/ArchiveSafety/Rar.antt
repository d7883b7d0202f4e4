-- ===== src/Security/ArchiveSafety/Rar.antt =====
-- `safe_extract_rar` and `_safe_extract_rar_rarfile` of
-- src/endless_library/security/archive_safety.py, over what `bsdtar` and `rarfile` answer.
pub mod Rules
use biblichor.Prelude.{
  ℕ, ◌+◌, ◌*◌, ◌-◌, Bool, true, false, not, ◌&&◌, ◌||◌, Option, none, some, List, [], ◌∷◌, map,
  select, length, leb, ltb, ◌==◌, if◌then◌else◌,
}
use biblichor.Prelude.Text.{Text, is_empty, is_space, cons_first}
use biblichor.Prelude.Result.{Result, ok, err, ◌>>=◌, ◌>>◌, raise_if}
use biblichor.Security.ArchiveSafety.Members.{
  SafetyError, invalid_archive, corrupt_archive, list_timed_out, unreadable_listing,
  too_many_members, uncompressed_too_large, no_extractable_member, SafetyLimits, megabytes,
  check_member_safe, member_is_extractable_format,
}
use biblichor.Security.ArchiveSafety.Pick.{Extractor, check_archive_size, extract_and_pick}
use biblichor.Security.ArchiveSafety.Zip.{Member, check_members, is_extractable, has_none, or_raise}

-- The line boundaries of `str.splitlines`.
abbrev is_boundary : ℕ → Bool
is_boundary c =
    (leb 10 c && leb c 13) || (leb 0x1c c && leb c 0x1e) || c == 0x85 || c == 0x2028 || c == 0x2029

-- The parts between characters that pass a test.
abbrev split_if : (ℕ → Bool) → Text → List Text
split_if p [] = [] ∷ []
split_if p (c ∷ t) = let parts = split_if p t in if p c then [] ∷ parts else cons_first c parts

abbrev filled : List Text → List Text
filled parts = select (λ t. not (is_empty t)) parts

-- The lines that are not empty; both callers pass over empty lines.
unfoldable pub lines : Text → List Text
lines t = filled (split_if is_boundary t)

-- `split()`
unfoldable pub words : Text → List Text
words t = filled (split_if is_space t)

-- `isdigit` and `int` of a text of ASCII digits
abbrev is_number : Text → Bool
is_number [] = false
is_number (c ∷ []) = leb b'0' c && leb c b'9'
is_number (c ∷ d ∷ t) = leb b'0' c && leb c b'9' && is_number (d ∷ t)

abbrev read_number : ℕ → Text → ℕ
read_number n [] = n
read_number n (c ∷ t) = read_number (n * 10 + (c - b'0')) t

-- The size column of a line of `bsdtar -tvf`: perms, links, size, and at least two more.
unfoldable pub line_size : List Text → ℕ
line_size (perms ∷ uid ∷ size ∷ month ∷ day ∷ rest) =
    if is_number size then read_number 0 size else 0
line_size _ = 0

unfoldable pub listed_size : List Text → ℕ
unfolding line_size words
listed_size [] = 0
listed_size (line ∷ rest) = line_size (words line) + listed_size rest

-- The answers of `bsdtar`: `none` is a TimeoutExpired.
pub record Bsdtar : Type 0 where
  -- the return code is 0, and the standard output, of `-tf`
  pub listing : Option (Bool × Text)
  -- the standard output of `-tvf`
  pub verbose : Option Text
  -- `-xf` of a member, with the check that nothing lies outside the destination: `extracts` is
  -- false where either raises ArchiveSafetyError
  pub extractor : Extractor

-- The loop over the names.
unfoldable pub check_names : List Text → Result SafetyError Unit
check_names [] = ok tt
check_names (name ∷ names) = check_member_safe name >>= λ _. check_names names

-- The size accounting is skipped where the listing times out.
abbrev pub too_big : SafetyLimits → Option Text → Bool
too_big limits none = false
too_big limits (some text) = ltb (megabytes limits.max_extracted_size_mb) (listed_size (lines text))

unfoldable pub extract_rar_names : List Text → Bsdtar → SafetyLimits → Result SafetyError Text
extract_rar_names raw_names b limits = do
  raise_if (ltb limits.max_members (length raw_names)) (too_many_members (length raw_names))
  check_names raw_names
  raise_if (has_none (select member_is_extractable_format raw_names)) no_extractable_member
  raise_if (too_big limits b.verbose) (uncompressed_too_large limits.max_extracted_size_mb)
  extract_and_pick b.extractor (select member_is_extractable_format raw_names)

-- What `rarfile` answers: `none` is a `rarfile.Error`.
pub record RarFile : Type 0 where
  pub opened : Option (Option (List Member))
  pub extractor : Extractor

-- `_safe_extract_rar_rarfile`: `none` is an ImportError.
unfoldable pub safe_extract_rar_rarfile : Option RarFile → SafetyLimits → Result SafetyError Text
safe_extract_rar_rarfile none limits = err invalid_archive
safe_extract_rar_rarfile (some r) limits = do
  listing ← or_raise r.opened invalid_archive
  members ← or_raise listing corrupt_archive
  raise_if (ltb limits.max_members (length members)) (too_many_members (length members))
  total_uncompressed ← check_members members 0
  raise_if (ltb (megabytes limits.max_extracted_size_mb) total_uncompressed)
      (uncompressed_too_large total_uncompressed)
  raise_if (has_none (select is_extractable members)) no_extractable_member
  extract_and_pick r.extractor (map (λ m. m.filename) (select is_extractable members))

-- A RAR archive: its size, `bsdtar` if it is on the path, and `rarfile` if it is installed.
pub record RarArchive : Type 0 where
  pub size : ℕ
  pub bsdtar : Option Bsdtar
  pub rarfile : Option RarFile

-- `safe_extract_rar`
unfoldable pub safe_extract_rar : RarArchive → SafetyLimits → Result SafetyError Text
safe_extract_rar a limits = do
  check_archive_size a.size limits
  elim a.bsdtar [
    | none ↦ safe_extract_rar_rarfile a.rarfile limits
    | some b ↦ do
      (read, stdout) ← or_raise b.listing list_timed_out
      raise_if (not read && is_empty stdout) unreadable_listing
      extract_rar_names (lines stdout) b limits
  ]
