-- ===== src/Security/ArchiveSafety/Hygiene.antt =====
-- What an archive is known to satisfy when `safe_extract_zip` returns.

use biblichor.Prelude.{
  ℕ, ◌+◌, ◌≡◌, ◌∙◌, ap, ◌≤◌, false, Option, none, some, List, [], ◌∷◌, map, select, All, length,
  ltb, arith,
}
use biblichor.Prelude.Text.{Text}
use biblichor.Prelude.Result.{ok, >>=-ok, raise_if-ok}
use biblichor.Security.ArchiveSafety.Members.{
  SafetyError, no_extractable_member, invalid_archive, corrupt_archive, SafetyLimits, megabytes,
  check_member_safe,
}
use biblichor.Security.ArchiveSafety.Pick.{Extractor, check_archive_size, extract_and_pick}
use biblichor.Security.ArchiveSafety.Zip.{
  or_raise, has_none, Member, ZipArchive, check_members, is_extractable, extract_members,
  safe_extract_zip,
}

abbrev pub total_size : List Member → ℕ
total_size [] = 0
total_size (m ∷ ms) = m.file_size + total_size ms

abbrev pub IsSafeMember : Member → Type 0
IsSafeMember m = check_member_safe m.filename ≡ ok tt

-- The loop over the members returns only if each one is safe, and then with the sum of the sizes.
check_members-ok :
    (ms : List Member) (total sum : ℕ)
    → check_members ms total ≡ ok sum
    → All IsSafeMember ms × (sum ≡ total + total_size ms)
unfolding check_members
check_members-ok [] total sum h = (tt, ground arith)
check_members-ok (m ∷ ms) total sum h =
    let (_, safe, rest) = >>=-ok (check_member_safe m.filename) _ sum h in
    let (all_safe, e) = check_members-ok ms (total + m.file_size) sum rest in
    ((safe, all_safe), omega arith)

ltb-false→le : (a b : ℕ) → ltb a b ≡ false → b ≤ a
ltb-false→le a b h = ground arith

or_raise-ok :
    {A : Type 0} (o : Option A) (e : SafetyError) (a : A) → or_raise o e ≡ ok a → o ≡ some a
or_raise-ok none e a h = cc
or_raise-ok (some b) e a h = cc

-- The rules that a list of members passes, and the pick that follows.
abbrev pub PassesRules : SafetyLimits → Extractor → Text → List Member → Type 0
PassesRules limits x name members =
    (length members ≤ limits.max_members)
    × All IsSafeMember members
    × (total_size members ≤ megabytes limits.max_extracted_size_mb)
    × (extract_and_pick x (map (λ m. m.filename) (select is_extractable members)) ≡ ok name)

extract_members-ok :
    (members : List Member) (x : Extractor) (limits : SafetyLimits) (name : Text)
    → extract_members members x limits ≡ ok name
    → PassesRules limits x name members
unfolding extract_members
extract_members-ok members x limits name h =
    let (few, h₁) = raise_if-ok (ltb limits.max_members (length members)) _ _ name h in
    let (total, checked, h₂) = >>=-ok (check_members members 0) _ name h₁ in
    let (_, h₃) =
      raise_if-ok (has_none (select is_extractable members)) no_extractable_member _ name h₂ in
    let (bounded, h₄) =
      raise_if-ok (ltb (megabytes limits.max_extracted_size_mb) total) _ _ name h₃ in
    let (all_safe, e) = check_members-ok members 0 total checked in
    (ltb-false→le _ _ few, all_safe, omega (arith, ltb-false→le _ _ bounded), h₄)

-- `safe_extract_zip` returns only if the archive was read and all the rules hold: its size, the
-- number of members, every member name, also of members that are not extracted, and the sum of
-- all uncompressed sizes; then the result is the pick among the members of an allowed format.
pub safe_extract_zip-ok :
    (z : ZipArchive) (limits : SafetyLimits) (name : Text)
    → safe_extract_zip z limits ≡ ok name
    → (members : List Member) × (z.opened ≡ some (some members))
      × (z.size ≤ megabytes limits.max_archive_size_mb)
      × PassesRules limits z.extractor name members
unfolding safe_extract_zip check_archive_size
safe_extract_zip-ok z limits name h =
    let (small, h₁) = raise_if-ok (ltb (megabytes limits.max_archive_size_mb) z.size) _ _ name h in
    let (listing, opened, h₂) = >>=-ok (or_raise z.opened invalid_archive) _ name h₁ in
    let (members, listed, h₃) = >>=-ok (or_raise listing corrupt_archive) _ name h₂ in
    (
      members,
      or_raise-ok z.opened invalid_archive listing opened
          ∙ ap some (or_raise-ok listing corrupt_archive members listed),
      ltb-false→le _ _ small,
      extract_members-ok members z.extractor limits name h₃,
    )
