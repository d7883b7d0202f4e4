-- ===== src/Domain/FormatRouter.antt =====
-- src/endless_library/domain/format_router.py: which formats are sent as they are.
use biblichor.Prelude.{List, [], ◌∷◌, map, if◌then◌else◌, ◌==◌}
use biblichor.Prelude.Text.{Text, codes, is_in, strip, lstrip_if, lower}

-- `Action`
pub data FormatAction : Type 0 where
  send_native convert skip : FormatAction

-- `NATIVE`
abbrev pub native : List Text
native = map codes ("epub" ∷ "azw3" ∷ "azw" ∷ "kfx" ∷ "mobi" ∷ "pdf" ∷ "txt" ∷ [])

-- `CONVERTIBLE`
abbrev pub convertible : List Text
convertible =
    map codes ("djvu" ∷ "fb2" ∷ "cbz" ∷ "cbr" ∷ "lit" ∷ "rtf" ∷ "html" ∷ "doc" ∷ "docx" ∷ [])

unfoldable pub decide_format_action : Text → FormatAction
decide_format_action ext =
    let e = lower (lstrip_if (λ c. c == b'.') (strip ext)) in
    if is_in e native then send_native else if is_in e convertible then convert else skip
