-- ===== src/Security/ArchiveSafety/Rar/Rules.antt =====
-- What a RAR archive is known to satisfy when its names were extracted with `bsdtar`.
use biblichor.Prelude.{ℕ, ◌≡◌, ◌≤◌, false, List, [], ◌∷◌, select, All, length, ltb, arith}
use biblichor.Prelude.Text.{Text}
use biblichor.Prelude.Result.{ok, >>=-ok, raise_if-ok}
use biblichor.Security.ArchiveSafety.Members.{
  no_extractable_member, SafetyLimits, check_member_safe, member_is_extractable_format,
}
use biblichor.Security.ArchiveSafety.Pick.{extract_and_pick}
use biblichor.Security.ArchiveSafety.Zip.{has_none}
use biblichor.Security.ArchiveSafety.Rar.{Bsdtar, check_names, too_big, extract_rar_names}

check_names-ok :
    (names : List Text)
    → check_names names ≡ ok tt
    → All (λ name. check_member_safe name ≡ ok tt) names
unfolding check_names
check_names-ok [] h = tt
check_names-ok (name ∷ names) h =
    let (_, safe, rest) = >>=-ok (check_member_safe name) _ tt h in
    (safe, check_names-ok names rest)

ltb-false→le : (a b : ℕ) → ltb a b ≡ false → b ≤ a
ltb-false→le a b h = ground arith

-- Where `bsdtar` lists an archive and its ebook is returned, there are not too many names, every
-- name is safe, also of members that are not extracted, the sizes that `-tvf` lists are within the
-- limit unless that listing timed out, and the result is the pick among the allowed formats.
pub extract_rar_names-ok :
    (names : List Text) (b : Bsdtar) (limits : SafetyLimits) (name : Text)
    → extract_rar_names names b limits ≡ ok name
    → (length names ≤ limits.max_members)
      × All (λ n. check_member_safe n ≡ ok tt) names
      × (too_big limits b.verbose ≡ false)
      × (extract_and_pick b.extractor (select member_is_extractable_format names) ≡ ok name)
unfolding extract_rar_names
extract_rar_names-ok names b limits name h =
    let (few, h₁) = raise_if-ok (ltb limits.max_members (length names)) _ _ name h in
    let (_, checked, h₂) = >>=-ok (check_names names) _ name h₁ in
    let (_, h₃) =
      raise_if-ok (has_none (select member_is_extractable_format names)) no_extractable_member _
        name h₂ in
    let (bounded, h₄) = raise_if-ok (too_big limits b.verbose) _ _ name h₃ in
    (ltb-false→le _ _ few, check_names-ok names checked, bounded, h₄)
