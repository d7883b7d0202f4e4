-- ===== src/Prelude/Path.antt =====
-- Paths as strings, where the program stores what it takes from them.
use Prim.Native.Char.{code}
use Prim.Native.Nat.{ℕ}
use Prim.Native.String.{String}
use mathlib.Core.Bool.{Bool, true, false}
use mathlib.Core.Option.{Option, none, some}
use biblichor.Prelude.Tests.{if◌then◌else◌, ◌==◌}
use biblichor.Prelude.Text.{is_space}

-- The text after the last slash, if there is one.
after_slash : String → Option String
after_slash String.[] = none
after_slash (String.◌∷◌ c s) = elim (after_slash s) [
  | some t ↦ some t
  | none ↦ if code c == b'/' then some s else none
]

-- `Path(p).name`, of a path that does not end in a slash
unfoldable pub file_name : String → String
unfolding after_slash
file_name p = elim (after_slash p) [ some t ↦ t | none ↦ p ]

from_dot : String → Option String
from_dot String.[] = none
from_dot (String.◌∷◌ c s) = elim (from_dot s) [
  | some t ↦ some t
  | none ↦ if code c == b'.' then some (String.◌∷◌ c s) else none
]

more_than_dot : String → String
more_than_dot String.[] = String.[]
more_than_dot (String.◌∷◌ d String.[]) = String.[]
more_than_dot (String.◌∷◌ d (String.◌∷◌ c s)) = String.◌∷◌ d (String.◌∷◌ c s)

suffix_of_name : String → String
suffix_of_name String.[] = String.[]
suffix_of_name (String.◌∷◌ c s) = elim (from_dot s) [ none ↦ String.[] | some t ↦ more_than_dot t ]

-- `Path(p).suffix`
unfoldable pub file_suffix : String → String
unfolding file_name from_dot more_than_dot suffix_of_name
file_suffix p = suffix_of_name (file_name p)

-- `lstrip(".")`
unfoldable pub lstrip_dots : String → String
lstrip_dots String.[] = String.[]
lstrip_dots (String.◌∷◌ c s) =
    let rest = lstrip_dots s in if code c == b'.' then rest else String.◌∷◌ c s

-- `s.replace(chr(n), "")`
unfoldable pub without : ℕ → String → String
without n String.[] = String.[]
without n (String.◌∷◌ c s) =
    let rest = without n s in if code c == n then rest else String.◌∷◌ c rest

-- `s.lstrip()` and `s.rstrip()`
lstrip_blanks : String → String
lstrip_blanks String.[] = String.[]
lstrip_blanks (String.◌∷◌ c s) =
    let rest = lstrip_blanks s in if is_space (code c) then rest else String.◌∷◌ c s

abbrev pub unless_blank : Bool → String → String → String
unless_blank true String.[] s = String.[]
unless_blank true (String.◌∷◌ d r) s = s
unless_blank false r s = s

rstrip_blanks : String → String
rstrip_blanks String.[] = String.[]
rstrip_blanks (String.◌∷◌ c s) =
    let rest = rstrip_blanks s in unless_blank (is_space (code c)) rest (String.◌∷◌ c rest)

-- `s.strip()`
unfoldable pub strip_blanks : String → String
unfolding lstrip_blanks rstrip_blanks
strip_blanks s = rstrip_blanks (lstrip_blanks s)
