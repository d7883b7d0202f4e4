-- ===== src/Security/ArchiveSafety/Priority.antt =====
-- The ebook that `_extract_and_pick` returns.
use mathlib.Core.Path.{subst, ap}
use mathlib.Core.List.{Mem, mem-cons_self, mem-cons_of_mem}
use biblichor.Prelude.{
  ℕ, suc, ◌≡◌, ◌≤◌, ◌<◌, refl, Bool, false, Option, none, some, List, [], ◌∷◌, find?, find?-true,
  All, length, if◌then◌else◌, Bool-cases, inl, inr, arith,
}
use biblichor.Prelude.Text.{Text}
use biblichor.Prelude.Result.{Result, ok, err}
use biblichor.Security.ArchiveSafety.Members.{SafetyError, no_ebook_file, ebook_extensions}
use biblichor.Security.ArchiveSafety.Pick.{Extractor, extract_all, is_ebook, pick, extract_and_pick}

-- The position of a file's extension in a list of extensions; the list's length if it is not an
-- ebook with one of them.
abbrev pub rank : Extractor → List Text → Text → ℕ
rank x [] name = 0
rank x (ext ∷ exts) name = if is_ebook x ext name then 0 else suc (rank x exts name)

find?-Mem : (p : Text → Bool) (l : List Text) (name : Text) → find? p l ≡ some name → Mem name l
find?-Mem p [] name h = cc
find?-Mem p (a ∷ l) name h = elim (Bool-cases (p a)) [
  | inl e ↦ let same : a ≡ name = ground arith in subst (λ z. Mem z (a ∷ l)) same (mem-cons_self)
  | inr e ↦ mem-cons_of_mem a (find?-Mem p l name (ground arith))
]

find?-cons_none :
    (p : Text → Bool) (m : Text) (l : List Text)
    → find? p (m ∷ l) ≡ none
    → (p m ≡ false) × (find? p l ≡ none)
find?-cons_none p m l h = ground arith

-- Where no file passes for `ext`, each ranks one lower.
All-rank_step :
    (x : Extractor) (ext : Text) (exts l : List Text) (P Q : ℕ → Type 0)
    → find? (is_ebook x ext) l ≡ none
    → ((n : ℕ) → P n → Q (suc n))
    → All (λ m. P (rank x exts m)) l
    → All (λ m. Q (rank x (ext ∷ exts) m)) l
All-rank_step x ext exts [] P Q none_here step h = tt
All-rank_step x ext exts (m ∷ l) P Q none_here step h =
    let (unfit, rest) = find?-cons_none (is_ebook x ext) m l none_here in
    (rw unfit (step (rank x exts m) h.0), All-rank_step x ext exts l P Q rest step h.1)

-- What a search in the order of `exts` may answer: nothing, if no file is an ebook with one of
-- them, or a file of the least rank.
abbrev pub IsBestPick : Extractor → List Text → List Text → Option Text → Type 0
IsBestPick x exts extracted none = All (λ m. rank x exts m ≡ length exts) extracted
IsBestPick x exts extracted (some name) =
    Mem name extracted
    × (rank x exts name < length exts)
    × All (λ m. rank x exts name ≤ rank x exts m) extracted

All-zero : (x : Extractor) (l : List Text) → All (λ m. ◌≡◌ {A = ℕ} 0 0) l
All-zero x [] = tt
All-zero x (m ∷ l) = (refl, All-zero x l)

All-least :
    (x : Extractor) (exts : List Text) (n : ℕ) (l : List Text)
    → n ≡ 0
    → All (λ m. n ≤ rank x exts m) l
All-least x exts n [] h = tt
All-least x exts n (m ∷ l) h = (omega arith, All-least x exts n l h)

pick_step :
    (x : Extractor) (ext : Text) (exts extracted : List Text) (here later : Option Text)
    → find? (is_ebook x ext) extracted ≡ here
    → IsBestPick x exts extracted later
    → IsBestPick x (ext ∷ exts) extracted (elim here [ some name ↦ some name | none ↦ later ])
pick_step x ext exts extracted (some name) later e h =
    let top : rank x (ext ∷ exts) name ≡ 0 =
      rw (find?-true (is_ebook x ext) extracted name e) refl in
    (
      find?-Mem (is_ebook x ext) extracted name e,
      omega (arith, top),
      All-least x (ext ∷ exts) (rank x (ext ∷ exts) name) extracted top,
    )
pick_step x ext exts extracted none none e h =
    All-rank_step x ext exts extracted (λ n. n ≡ length exts) (λ n. n ≡ suc (length exts)) e
      (λ n k. ap suc k) h
pick_step x ext exts extracted none (some name) e h =
    let lower : rank x (ext ∷ exts) name ≤ suc (rank x exts name) = ground arith in
    (
      h.0,
      omega (arith, lower, h.1),
      All-rank_step x ext exts extracted (λ n. rank x exts name ≤ n)
          (λ n. rank x (ext ∷ exts) name ≤ n) e (λ n k. omega (arith, lower)) h.2,
    )

pick-IsBestPick :
    (x : Extractor) (exts extracted : List Text)
    → IsBestPick x exts extracted (pick x exts extracted)
unfolding pick
pick-IsBestPick x [] extracted = All-zero x extracted
pick-IsBestPick x (ext ∷ exts) extracted =
    pick_step x ext exts extracted (find? (is_ebook x ext) extracted) (pick x exts extracted) refl
      (pick-IsBestPick x exts extracted)

-- The file that the result of `_extract_and_pick` names.
abbrev pub picked_name : Result SafetyError Text → Option Text
picked_name (ok name) = some name
picked_name (err e) = none

-- `_extract_and_pick` returns one of the extracted files that are ebooks, with the best extension
-- that any of them has, and raises only if none of them is an ebook.
pub extract_and_pick-IsBestPick :
    (x : Extractor) (members : List Text)
    → IsBestPick x ebook_extensions
        (extract_all x members)
        (picked_name (extract_and_pick x members))
unfolding extract_and_pick
extract_and_pick-IsBestPick x members =
    named (pick x ebook_extensions (extract_all x members))
      (pick-IsBestPick x ebook_extensions (extract_all x members))
  where
    named :
        (o : Option Text)
        → IsBestPick x ebook_extensions (extract_all x members) o
        → IsBestPick x ebook_extensions
            (extract_all x members)
            (picked_name (elim o [ some name ↦ ok name | none ↦ err no_ebook_file ]))
    named none h = h
    named (some name) h = h
