-- ===== src/Security/ArchiveSafety/Inside.antt =====
-- A member name that passes `_check_member_safe` names a place below the destination, both as the
-- archive spells it and with its backslashes read as separators.
use mathlib.Core.Path.{subst₂}
use biblichor.Prelude.{
  ℕ, ap, ◌≡◌, refl, ◌∙◌, sym, Bool, true, false, ◌&&◌, ◌||◌, Option, none, some, List, [], ◌∷◌,
  ◌==◌, any, if◌then◌else◌, Bool-cases, inl, inr, arith, ==_iff,
}
use biblichor.Prelude.Text.{Text, has_prefix, split, cons_first, is_empty, same_codes}
use biblichor.Prelude.Result.{Result, ok, ◌>>◌, raise_if}
use biblichor.Security.ArchiveSafety.Members.{
  SafetyError, absolute_path_member, path_traversal, slashes, is_dots, bad_directory,
  check_member_safe,
}

abbrev is_dot : Text → Bool
is_dot part = same_codes part (b'.' ∷ [])

abbrev parent : List Text → Option (List Text)
parent [] = none
parent (d ∷ ds) = some ds

-- The directory that the file system reaches from `dir`, a list of components, the innermost
-- first, by the components of a path; `none` above the root.
unfoldable pub walk : List Text → List Text → Option (List Text)
walk dir [] = some dir
walk dir (part ∷ parts) = elim (is_empty part || is_dot part) [
  | true ↦ walk dir parts
  | false ↦ elim (is_dots part) [
    | true ↦ elim (parent dir) [ none ↦ none | some up ↦ walk up parts ]
    | false ↦ walk (part ∷ dir) parts
  ]
]

-- The components that name something, put before a directory.
unfoldable pub below : List Text → List Text → List Text
below dir [] = dir
below dir (part ∷ parts) = below (if is_empty part || is_dot part then dir else part ∷ dir) parts

walk-below :
    (parts dir : List Text) → any is_dots parts ≡ false → walk dir parts ≡ some (below dir parts)
unfolding walk below
walk-below [] dir h = refl
walk-below (part ∷ parts) dir h = elim (Bool-cases (is_empty part || is_dot part)) [
  | inl e ↦ rw (e, walk) (walk-below parts dir (ground arith))
  | inr e ↦
      let d : is_dots part ≡ false = ground arith in
      rw (e, walk) (rw (d, walk) (walk-below parts (part ∷ dir) (ground arith)))
]

abbrev first_part : List Text → Text
first_part [] = []
first_part (p ∷ ps) = p

abbrev other_parts : List Text → List Text
other_parts [] = []
other_parts (p ∷ ps) = ps

any-parts :
    (l : List Text) → any is_dots l ≡ (is_dots (first_part l) || any is_dots (other_parts l))
any-parts [] = refl
any-parts (p ∷ ps) = refl

-- How the components of a name relate to those of the name with its backslashes replaced.
record Tracks (raw name : List Text) : Type 0 where
  empties : is_empty (first_part raw) ≡ true → is_empty (first_part name) ≡ true
  dot : is_dot (first_part raw) ≡ true → is_dot (first_part name) ≡ true
  dots : is_dots (first_part raw) ≡ true → is_dots (first_part name) ≡ true
  others : any is_dots (other_parts raw) ≡ true → any is_dots (other_parts name) ≡ true

first_part-cons_first : (c : ℕ) (l : List Text) → first_part (cons_first c l) ≡ c ∷ first_part l
first_part-cons_first c [] = refl
first_part-cons_first c (p ∷ ps) = refl

other_parts-cons_first : (c : ℕ) (l : List Text) → other_parts (cons_first c l) ≡ other_parts l
other_parts-cons_first c [] = refl
other_parts-cons_first c (p ∷ ps) = refl

dot-cons : (c : ℕ) (p : Text) → is_dot (c ∷ p) ≡ (c == b'.' && is_empty p)
dot-cons c [] = refl
dot-cons c (d ∷ p) = refl

dots-cons : (c : ℕ) (p : Text) → is_dots (c ∷ p) ≡ (c == b'.' && is_dot p)
dots-cons c [] = refl
dots-cons c (d ∷ p) = refl

Tracks-separator : (raw name : List Text) → Tracks raw name → Tracks ([] ∷ raw) ([] ∷ name)
Tracks-separator raw name h = record {
  empties = λ k. refl;
  dot = λ k. k;
  dots = λ k. k;
  others = λ k. ground (arith, any-parts raw, any-parts name, h.dots, h.others);
}

Tracks-backslash :
    (c : ℕ) (raw name : List Text)
    → c ≡ b'\\'
    → Tracks raw name
    → Tracks (cons_first c raw) ([] ∷ name)
Tracks-backslash c raw name e h =
    let first = first_part-cons_first c raw in
    record {
      empties = λ k. refl;
      dot = λ k. ground (arith, first, dot-cons c (first_part raw));
      dots = λ k. ground (arith, first, dots-cons c (first_part raw));
      others = λ k. ground (arith, other_parts-cons_first c raw, any-parts name, h.others);
    }

Tracks-character :
    (c : ℕ) (raw name : List Text) → Tracks raw name → Tracks (cons_first c raw) (cons_first c name)
Tracks-character c raw name h =
    let of_raw = first_part-cons_first c raw in
    let of_name = first_part-cons_first c name in
    record {
      empties = λ k. ground (arith, of_raw);
      dot = λ k. ground (
        arith,
        of_raw,
        of_name,
        dot-cons c (first_part raw),
        dot-cons c (first_part name),
        h.empties,
      );
      dots = λ k. ground (
        arith,
        of_raw,
        of_name,
        dots-cons c (first_part raw),
        dots-cons c (first_part name),
        h.dot,
      );
      others = λ k.
          ground (arith, other_parts-cons_first c raw, other_parts-cons_first c name, h.others);
    }

split_separator : (c : ℕ) (t : Text) → (c == b'/') ≡ true → split b'/' (c ∷ t) ≡ [] ∷ split b'/' t
split_separator c t e = rw e

split_character :
    (c : ℕ) (t : Text) → (c == b'/') ≡ false → split b'/' (c ∷ t) ≡ cons_first c (split b'/' t)
split_character c t e = rw e

slashes_other : (c : ℕ) (t : Text) → (c == b'\\') ≡ false → slashes (c ∷ t) ≡ c ∷ slashes t
slashes_other c t e = rw e

slashes_backslash : (c : ℕ) (t : Text) → (c == b'\\') ≡ true → slashes (c ∷ t) ≡ b'/' ∷ slashes t
slashes_backslash c t e = rw e

Tracks-slashes : (t : Text) → Tracks (split b'/' t) (split b'/' (slashes t))
Tracks-slashes [] = record { empties = λ h. h; dot = λ h. h; dots = λ h. h; others = λ h. h }
Tracks-slashes (c ∷ t) =
    let raw = split b'/' t in
    let name = split b'/' (slashes t) in
    elim (Bool-cases (c == b'\\')) [
      | inl b ↦
          subst₂ Tracks (sym (split_character c t (ground arith)))
            (sym (ap (split b'/') (slashes_backslash c t b)))
            (Tracks-backslash c raw name ((==_iff c _).0 b) (Tracks-slashes t))
      | inr b ↦ elim (Bool-cases (c == b'/')) [
        | inl e ↦
            subst₂ Tracks (sym (split_separator c t e))
              (sym (ap (split b'/') (slashes_other c t b) ∙ split_separator c (slashes t) e))
              (Tracks-separator raw name (Tracks-slashes t))
        | inr e ↦
            subst₂ Tracks (sym (split_character c t e))
              (sym (ap (split b'/') (slashes_other c t b) ∙ split_character c (slashes t) e))
              (Tracks-character c raw name (Tracks-slashes t))
      ]
    ]

-- Where the guards pass, the first and the third test fail.
two_guards :
    (a b c : Bool) (e e' e'' : SafetyError) (k : Result SafetyError Unit)
    → (raise_if a e >> (raise_if b e' >> (raise_if c e'' >> k))) ≡ ok tt
    → (a ≡ false) × (c ≡ false)
two_guards true b c e e' e'' k h = cc
two_guards false true c e e' e'' k h = cc
two_guards false false true e e' e'' k h = cc
two_guards false false false e e' e'' k h = (refl, refl)

-- A name that starts at the root of the file system.
abbrev pub is_absolute : Text → Bool
is_absolute name = has_prefix (b'/' ∷ []) name

safe-no_dots :
    (name : Text)
    → check_member_safe name ≡ ok tt
    → (is_absolute (slashes name) ≡ false) × (any is_dots (split b'/' (slashes name)) ≡ false)
unfolding check_member_safe
safe-no_dots [] h = cc
safe-no_dots (c ∷ cs) h =
    two_guards (has_prefix (b'/' ∷ []) (slashes (c ∷ cs)))
      (bad_directory (split b'/' (slashes (c ∷ cs)))) (any is_dots (split b'/' (slashes (c ∷ cs))))
      (absolute_path_member (slashes (c ∷ cs))) (path_traversal (slashes (c ∷ cs)))
      (path_traversal (slashes (c ∷ cs))) _ h

raw-no_dots :
    (raw name : List Text) → Tracks raw name → any is_dots name ≡ false → any is_dots raw ≡ false
raw-no_dots raw name h k = ground (arith, any-parts raw, any-parts name, h.dots, h.others)

-- Where `dest_dir / name` leads, as components with the innermost first: an absolute name replaces
-- the destination.
abbrev pub extracted_to : List Text → Text → Option (List Text)
extracted_to dest name = walk (if is_absolute name then [] else dest) (split b'/' name)

raw-is_absolute : (name : Text) → is_absolute (slashes name) ≡ false → is_absolute name ≡ false
raw-is_absolute [] h = h
raw-is_absolute (c ∷ name) h = ground (arith, h)

stays :
    (dest : List Text) (name : Text)
    → is_absolute name ≡ false
    → any is_dots (split b'/' name) ≡ false
    → extracted_to dest name ≡ some (below dest (split b'/' name))
stays dest name relative clean =
    ap (λ a. walk (if a then [] else dest) (split b'/' name)) relative
    ∙ walk-below (split b'/' name) dest clean

-- For any destination, a member whose name passes `_check_member_safe` is extracted below it: the
-- name is not absolute and takes no step to a parent, as the archive spells it and with its
-- backslashes read as separators.
pub safe_member_stays_inside :
    (name : Text) (dest : List Text)
    → check_member_safe name ≡ ok tt
    → (extracted_to dest name ≡ some (below dest (split b'/' name)))
      × (extracted_to dest (slashes name) ≡ some (below dest (split b'/' (slashes name))))
safe_member_stays_inside name dest h =
    let (relative, clean) = safe-no_dots name h in
    (
      stays dest name (raw-is_absolute name relative) (raw-no_dots _ _ (Tracks-slashes name) clean),
      stays dest (slashes name) relative clean,
    )
