-- ===== src/Security/Tests.antt =====
-- An archive with one ebook and a cover.
use biblichor.Security.Urls.{ParsedUrl, Resolver, is_any, refuse_if, assert_safe_url}
use biblichor.Security.Urls.Safe.{ReachesOutside, assert_safe_url-ok}
use biblichor.Prelude.Text.{Text, same_codes, lower, strip}
use biblichor.Prelude.{◌≤◌, ◌≡◌, refl, true, false, none, some, List, [], ◌∷◌, All}
use biblichor.Prelude.Text.{Text, codes, split}
use biblichor.Prelude.Result.{ok}
use biblichor.Security.ArchiveSafety.Members.{
  default_limits, megabytes, check_member_safe, member_is_extractable_format, ebook_extensions,
  slashes,
}
use biblichor.Security.ArchiveSafety.Pick.{
  Extractor, extract_all, extract_and_pick, pick, check_archive_size,
}
use biblichor.Security.ArchiveSafety.Zip.{
  extract_members, check_members, Member, ZipArchive, safe_extract_zip,
}
use biblichor.Security.ArchiveSafety.Hygiene.{PassesRules, safe_extract_zip-ok}
use biblichor.Security.ArchiveSafety.Inside.{extracted_to, below, safe_member_stays_inside}
use biblichor.Security.ArchiveSafety.Priority.{IsBestPick, picked_name, extract_and_pick-IsBestPick}
use biblichor.Security.ArchiveSafety.Rar.{
  check_names, listed_size, lines, Bsdtar, extract_rar_names,
}

abbrev willing : Extractor
willing = record { extracts = λ n. true; out_exists = λ n. true; is_file = λ n. true }

abbrev ebook : Text
ebook = codes "d/a.epub"

abbrev cover : Text
cover = codes "c.jpg"

abbrev names : List Text
names = cover ∷ ebook ∷ []

abbrev archive : ZipArchive
archive = record {
  size = 900;
  opened = some (
      some (
        record { filename = cover; file_size = 10 }
        ∷ record { filename = ebook; file_size = 990 }
        ∷ []));
  extractor = willing;
}

abbrev listed : Bsdtar
listed = record {
  listing = some (true, codes "c.jpg");
  verbose = some (codes "x 0 10 c");
  extractor = willing;
}

read : safe_extract_zip archive default_limits ≡ ok ebook
unfolding safe_extract_zip check_archive_size extract_members check_members check_member_safe
    member_is_extractable_format extract_and_pick pick extract_all
read = refl

safe_extract_zip-ok_example :
    (members : List Member) × (archive.opened ≡ some (some members))
    × (archive.size ≤ megabytes default_limits.max_archive_size_mb)
    × PassesRules default_limits archive.extractor ebook members
safe_extract_zip-ok_example = safe_extract_zip-ok archive default_limits ebook read

extract_and_pick-IsBestPick_example :
    IsBestPick willing ebook_extensions
      (extract_all willing names)
      (picked_name (extract_and_pick willing names))
extract_and_pick-IsBestPick_example = extract_and_pick-IsBestPick willing names

is_safe : check_member_safe ebook ≡ ok tt
unfolding check_member_safe
is_safe = refl

safe_member_stays_inside_example :
    (extracted_to (codes "tmp" ∷ []) ebook ≡ some (below (codes "tmp" ∷ []) (split b'/' ebook)))
    × (extracted_to (codes "tmp" ∷ []) (slashes ebook)
        ≡ some (below (codes "tmp" ∷ []) (split b'/' (slashes ebook))))
safe_member_stays_inside_example = safe_member_stays_inside ebook (codes "tmp" ∷ []) is_safe

rar_read : extract_rar_names names listed default_limits ≡ ok ebook
unfolding extract_rar_names check_names check_member_safe member_is_extractable_format listed_size
    lines extract_and_pick pick extract_all
rar_read = refl

abbrev resolver : Resolver
resolver = record { ip_address = λ t. none; getaddrinfo = λ t. some (codes "93.184.216.34" ∷ []) }

abbrev fine_url : ParsedUrl
fine_url = record { scheme = codes "HTTPS"; hostname = codes "annas-archive.org" }

fine : assert_safe_url resolver false fine_url ≡ ok tt
unfolding assert_safe_url refuse_if
fine = refl

assert_safe_url-ok_example :
    (is_any resolver ("http" ∷ "https" ∷ []) (lower fine_url.scheme) ≡ true)
    × (same_codes (strip fine_url.hostname) (codes "") ≡ false)
    × ReachesOutside resolver (strip fine_url.hostname)
    × ((infos : List Text)
        → resolver.getaddrinfo (strip fine_url.hostname) ≡ some infos
        → All (ReachesOutside resolver) infos)
assert_safe_url-ok_example = assert_safe_url-ok resolver fine_url fine
