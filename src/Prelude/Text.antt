-- ===== src/Prelude/Text.antt =====
-- Python's `str` and `pathlib` methods that the program uses, over a text as the list of its code
-- points.
use Prim.Native.Nat.{ℕ, ◌+◌}
use Prim.Native.Char.{code}
use Prim.Native.String.{String}
use mathlib.Core.Bool.{Bool, true, false, ◌&&◌, ◌||◌}
use mathlib.Core.Option.{Option, none, some}
use mathlib.Core.List.{List, [], ◌∷◌, reverse}
use biblichor.Prelude.Tests.{if◌then◌else◌, leb, ◌==◌}
use biblichor.Prelude.Lists.{any}

abbrev pub Text : Type 0
Text = List ℕ

-- The code points of a literal.
abbrev pub codes : String → Text
codes String.[] = []
codes (String.◌∷◌ c s) = code c ∷ codes s

-- `==` of two texts
abbrev pub same_codes : Text → Text → Bool
same_codes [] [] = true
same_codes [] (d ∷ u) = false
same_codes (c ∷ t) [] = false
same_codes (c ∷ t) (d ∷ u) = c == d && same_codes t u

-- `t in texts`
abbrev pub is_in : Text → List Text → Bool
is_in t texts = any (same_codes t) texts

-- Python's truth of a text
abbrev pub is_empty : Text → Bool
is_empty [] = true
is_empty (c ∷ t) = false

-- `a or b`
abbrev pub or_else : Text → Text → Text
or_else [] u = u
or_else (c ∷ t) u = c ∷ t

-- `str.isspace` of one character
abbrev pub is_space : ℕ → Bool
is_space c =
    (leb 9 c && leb c 13)
    || (leb 28 c && leb c 32)
    || c == 0x85
    || c == 0xa0
    || c == 0x1680
    || (leb 0x2000 c && leb c 0x200a)
    || c == 0x2028
    || c == 0x2029
    || c == 0x202f
    || c == 0x205f
    || c == 0x3000

-- `lstrip` of the characters that pass a test
abbrev pub lstrip_if : (ℕ → Bool) → Text → Text
lstrip_if p [] = []
lstrip_if p (c ∷ t) = if p c then lstrip_if p t else c ∷ t

-- `strip()`
abbrev pub strip : Text → Text
strip t = reverse (lstrip_if is_space (reverse (lstrip_if is_space t)))

-- `lower()`, exact where a result is compared with ASCII text: besides A to Z only the Kelvin sign
-- and the dotted capital I lower to a text with ASCII letters.
abbrev pub lower : Text → Text
lower [] = []
lower (c ∷ t) =
    let rest = lower t in
    if leb b'A' c && leb c b'Z'
    then (c + 32) ∷ rest
    else if c == 0x212a
    then b'k' ∷ rest
    else if c == 0x130
    then b'i' ∷ 0x307 ∷ rest
    else c ∷ rest

-- `startswith`
abbrev pub has_prefix : Text → Text → Bool
has_prefix [] t = true
has_prefix (p ∷ ps) [] = false
has_prefix (p ∷ ps) (c ∷ t) = c == p && has_prefix ps t

-- `p in t`
abbrev pub contains : Text → Text → Bool
contains p [] = is_empty p
contains p (c ∷ t) = has_prefix p (c ∷ t) || contains p t

-- `replace` of one character by another
abbrev pub replace_char : ℕ → ℕ → Text → Text
replace_char old new [] = []
replace_char old new (c ∷ t) = (if c == old then new else c) ∷ replace_char old new t

-- Puts a character before the first part of a split.
abbrev pub cons_first : ℕ → List Text → List Text
cons_first c [] = (c ∷ []) ∷ []
cons_first c (part ∷ parts) = (c ∷ part) ∷ parts

-- `split(sep)`: never an empty list
abbrev pub split : ℕ → Text → List Text
split sep [] = [] ∷ []
split sep (c ∷ t) = let parts = split sep t in if c == sep then [] ∷ parts else cons_first c parts

-- `parts[-1]`
abbrev pub last_part : List Text → Text
last_part [] = []
last_part (part ∷ []) = part
last_part (part ∷ p ∷ parts) = last_part (p ∷ parts)

-- The text from its last dot on, if there is one.
abbrev pub from_last_dot : Text → Option Text
from_last_dot [] = none
from_last_dot (c ∷ t) = elim (from_last_dot t) [
  | some s ↦ some s
  | none ↦ if c == b'.' then some (c ∷ t) else none
]

-- No suffix is a dot alone.
abbrev more_than_dot : Text → Text
more_than_dot [] = []
more_than_dot (d ∷ []) = []
more_than_dot (d ∷ c ∷ t) = d ∷ c ∷ t

-- `PurePath.suffix` of a final component: not of a leading or a trailing dot
abbrev pub suffix : Text → Text
suffix [] = []
suffix (c ∷ t) = elim (from_last_dot t) [ none ↦ [] | some s ↦ more_than_dot s ]

abbrev before_last_dot : Text → Option Text
before_last_dot [] = none
before_last_dot (c ∷ t) = elim (before_last_dot t) [
  | some s ↦ some (c ∷ s)
  | none ↦ if c == b'.' then some [] else none
]

-- `PurePath.stem` of a final component
abbrev pub stem : Text → Text
stem [] = []
stem (c ∷ t) =
    if is_empty (suffix (c ∷ t))
    then c ∷ t
    else elim (before_last_dot t) [ none ↦ c ∷ t | some s ↦ c ∷ s ]

-- `PurePath.name`: the last component that is neither empty nor a single dot
abbrev pub last_named : Text → List Text → Text
last_named found [] = found
last_named found (part ∷ parts) =
    last_named (if is_empty part || same_codes part (b'.' ∷ []) then found else part) parts

abbrev pub path_name : Text → Text
path_name path = last_named [] (split b'/' path)
