-- ===== src/Security/ArchiveSafety/Zip.antt =====
-- `safe_extract_zip` of src/endless_library/security/archive_safety.py, over what `zipfile` and the
-- file system answer.
use biblichor.Prelude.{
  ℕ, ◌+◌, Bool, true, false, Option, none, some, List, [], ◌∷◌, map, select, length, ltb,
}
use biblichor.Prelude.Text.{Text}
use biblichor.Prelude.Result.{Result, ok, err, ◌>>=◌, ◌>>◌, raise_if}
use biblichor.Security.ArchiveSafety.Members.{
  SafetyError, invalid_archive, corrupt_archive, too_many_members, uncompressed_too_large,
  no_extractable_member, SafetyLimits, megabytes, check_member_safe, member_is_extractable_format,
}
use biblichor.Security.ArchiveSafety.Pick.{Extractor, check_archive_size, extract_and_pick}

-- `filename` and `file_size` of a ZipInfo
pub record Member : Type 0 where
  pub filename : Text
  pub file_size : ℕ

-- The archive: `none` for `opened` is an exception of `ZipFile(…)`, `none` inside one of `infolist`.
pub record ZipArchive : Type 0 where
  pub size : ℕ
  pub opened : Option (Option (List Member))
  pub extractor : Extractor

-- The loop over the members: each is checked, and the sizes are summed.
unfoldable pub check_members : List Member → ℕ → Result SafetyError ℕ
check_members [] total = ok total
check_members (m ∷ ms) total =
    check_member_safe m.filename >>= λ _. check_members ms (total + m.file_size)

abbrev pub is_extractable : Member → Bool
is_extractable m = member_is_extractable_format m.filename

-- `if not members:`
abbrev pub has_none {ℓ} : {A : Type ℓ} → List A → Bool
has_none [] = true
has_none (m ∷ ms) = false

-- What follows `infolist`.
unfoldable pub extract_members : List Member → Extractor → SafetyLimits → Result SafetyError Text
extract_members all x limits = do
  raise_if (ltb limits.max_members (length all)) (too_many_members (length all))
  total_uncompressed ← check_members all 0
  raise_if (has_none (select is_extractable all)) no_extractable_member
  raise_if (ltb (megabytes limits.max_extracted_size_mb) total_uncompressed)
      (uncompressed_too_large total_uncompressed)
  extract_and_pick x (map (λ m. m.filename) (select is_extractable all))

-- `or_raise`: an exception of the library becomes an ArchiveSafetyError.
abbrev pub or_raise {ℓ} : {A : Type ℓ} {E : Type ℓ} → Option A → E → Result E A
or_raise none e = err e
or_raise (some a) e = ok a

unfoldable pub safe_extract_zip : ZipArchive → SafetyLimits → Result SafetyError Text
safe_extract_zip z limits = do
  check_archive_size z.size limits
  listing ← or_raise z.opened invalid_archive
  members ← or_raise listing corrupt_archive
  extract_members members z.extractor limits
