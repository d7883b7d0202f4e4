-- ===== src/Security/ArchiveSafety/Pick.antt =====
-- `detect_archive`, `_check_archive_size` and `_extract_and_pick` of
-- src/endless_library/security/archive_safety.py.
use biblichor.Prelude.{
  ℕ, Bool, ◌&&◌, Option, none, some, List, [], ◌∷◌, find?, take, ltb, if◌then◌else◌,
}
use biblichor.Prelude.Text.{Text, same_codes, has_prefix, path_name, lower, suffix}
use biblichor.Prelude.Result.{Result, ok, err, raise_if}
use biblichor.Security.ArchiveSafety.Members.{
  SafetyError, archive_too_large, no_ebook_file, SafetyLimits, megabytes, ebook_extensions,
}

pub data ArchiveKind : Type 0 where
  rar zip : ArchiveKind

-- `detect_archive`: `none` for the content is an OSError; the magic bytes are `Rar!\x1a\x07` and
-- `PK\x03\x04`.
unfoldable pub detect_archive : Option Text → Option ArchiveKind
detect_archive none = none
detect_archive (some content) =
    let head = take 8 content in
    if has_prefix (0x52 ∷ 0x61 ∷ 0x72 ∷ 0x21 ∷ 0x1a ∷ 0x07 ∷ []) head
    then some rar
    else if has_prefix (0x50 ∷ 0x4b ∷ 0x03 ∷ 0x04 ∷ []) head
    then some zip
    else none

-- `_check_archive_size`
unfoldable pub check_archive_size : ℕ → SafetyLimits → Result SafetyError Unit
check_archive_size size limits =
    raise_if (ltb (megabytes limits.max_archive_size_mb) size) (archive_too_large size)

-- What the extraction of one member does, by the archive library and the file system.
pub record Extractor : Type 0 where
  -- Does the extractor return, and not raise ArchiveSafetyError?
  pub extracts : Text → Bool
  -- `(dest_dir / name).exists()` afterwards, and `is_file()`
  pub out_exists : Text → Bool
  pub is_file : Text → Bool

-- The names whose file was written, in order.
unfoldable pub extract_all : Extractor → List Text → List Text
extract_all x [] = []
extract_all x (name ∷ names) =
    let rest = extract_all x names in
    if x.extracts name && x.out_exists name then name ∷ rest else rest

-- `p.is_file() and p.suffix.lower() == ext`
abbrev pub is_ebook : Extractor → Text → Text → Bool
is_ebook x ext name = x.is_file name && same_codes (lower (suffix (path_name name))) ext

-- The loops over the extensions and the files.
unfoldable pub pick : Extractor → List Text → List Text → Option Text
pick x [] extracted = none
pick x (ext ∷ exts) extracted = elim (find? (is_ebook x ext) extracted) [
  | some name ↦ some name
  | none ↦ pick x exts extracted
]

-- `_extract_and_pick`: the name of the ebook under the destination.
unfoldable pub extract_and_pick : Extractor → List Text → Result SafetyError Text
extract_and_pick x members = elim (pick x ebook_extensions (extract_all x members)) [
  | some name ↦ ok name
  | none ↦ err no_ebook_file
]
