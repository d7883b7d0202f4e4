-- ===== src/Security/ArchiveSafety/Members.antt =====
-- The name checks of src/endless_library/security/archive_safety.py. A name is a text of code
-- points; the archive libraries, which read and unpack the files, are parameters elsewhere.
use biblichor.Prelude.{ℕ, ◌*◌, Bool, false, not, ◌&&◌, ◌||◌, List, [], ◌∷◌, map, any}
use biblichor.Prelude.Text.{
  Text, codes, is_in, is_empty, same_codes, lower, has_prefix, replace_char, split, last_part,
  suffix,
}
use biblichor.Prelude.Result.{Result, err, ◌>>◌, raise_if}

-- `ALLOWED_EXTENSIONS`
abbrev pub allowed_extensions : List Text
allowed_extensions = map codes (
    ".epub" ∷ ".azw3" ∷ ".azw" ∷ ".mobi" ∷ ".pdf" ∷ ".kfx" ∷ ".jpg" ∷ ".jpeg" ∷ ".png" ∷ ".webp"
    ∷ ".opf" ∷ ".ncx" ∷ ".xml" ∷ ".txt" ∷ ".cbz" ∷ ".cbr" ∷ [])

-- `EBOOK_EXTENSIONS`, the best first
abbrev pub ebook_extensions : List Text
ebook_extensions =
    map codes (".epub" ∷ ".azw3" ∷ ".kfx" ∷ ".azw" ∷ ".mobi" ∷ ".pdf" ∷ ".cbz" ∷ ".cbr" ∷ [])

-- `NESTED_ARCHIVE_EXTENSIONS`
abbrev pub nested_archive_extensions : List Text
nested_archive_extensions =
    map codes (".zip" ∷ ".rar" ∷ ".7z" ∷ ".tar" ∷ ".gz" ∷ ".bz2" ∷ ".xz" ∷ [])

-- `ArchiveSafetyError`, by the rule that was tripped.
pub data SafetyError : Type 0 where
  empty_member_name : SafetyError
  absolute_path_member path_traversal nested_archive : Text → SafetyError
  archive_too_large : ℕ → SafetyError
  invalid_archive corrupt_archive list_timed_out unreadable_listing : SafetyError
  too_many_members uncompressed_too_large : ℕ → SafetyError
  no_extractable_member no_ebook_file : SafetyError

-- `SafetyLimits`
pub record SafetyLimits : Type 0 where
  pub max_archive_size_mb : ℕ
  pub max_extracted_size_mb : ℕ
  pub max_members : ℕ

abbrev pub default_limits : SafetyLimits
default_limits = record { max_archive_size_mb = 200; max_extracted_size_mb = 500; max_members = 50 }

-- `n * 1024 * 1024`
abbrev pub megabytes : ℕ → ℕ
megabytes n = n * 1024 * 1024

abbrev pub slashes : Text → Text
slashes name = replace_char b'\\' b'/' name

abbrev pub is_dots : Text → Bool
is_dots part = same_codes part (b'.' ∷ b'.' ∷ [])

-- `any(p in ("..", "") for p in parts[:-1])`
abbrev pub bad_directory : List Text → Bool
bad_directory [] = false
bad_directory (part ∷ []) = false
bad_directory (part ∷ p ∷ parts) = is_dots part || is_empty part || bad_directory (p ∷ parts)

-- `_check_member_safe`
unfoldable pub check_member_safe : Text → Result SafetyError Unit
check_member_safe [] = err empty_member_name
check_member_safe (c ∷ cs) =
    let name = slashes (c ∷ cs) in
    let parts = split b'/' name in
    do
      raise_if (has_prefix (b'/' ∷ []) name) (absolute_path_member name)
      raise_if (bad_directory parts) (path_traversal name)
      raise_if (any is_dots parts) (path_traversal name)
      raise_if
          (not (is_empty (last_part parts))
            && is_in (lower (suffix (last_part parts))) nested_archive_extensions)
          (nested_archive name)

-- `_member_is_extractable_format`
unfoldable pub member_is_extractable_format : Text → Bool
member_is_extractable_format name =
    let part = last_part (split b'/' (slashes name)) in
    not (is_empty part)
    && not (is_empty (suffix part))
    && is_in (lower (suffix part)) allowed_extensions
