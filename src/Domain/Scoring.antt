-- ===== src/Domain/Scoring.antt =====
-- src/endless_library/domain/scoring.py: `score_candidate`, over any floats.
pub mod Skips
pub mod Isbn
use mathlib.Core.List.{reverse}
use biblichor.Prelude.{
  ℕ, ◌+◌, String, Bool, true, false, not, ◌&&◌, ◌||◌, Option, none, some, List, [], ◌∷◌, ◌++◌, ltb,
  leb, length, any, select, if◌then◌else◌,
}
use biblichor.Prelude.Number.{Floats}
use biblichor.Prelude.Text.{Text, codes, is_empty, is_space, same_codes, strip, contains, split}
use biblichor.Domain.Script.{is_non_latin, non_latin_substring}
use biblichor.Db.Candidates.{Candidate}

-- `SearchQuery`, as far as the score reads it.
pub record SearchQuery : Type 0 where
  pub title : String
  pub author : Option String
  pub language : String

-- `s or ""` of an optional text
abbrev pub text_of : Option String → Text
text_of none = []
text_of (some s) = codes s

-- `split()`: the words between blanks
abbrev pub add_word : Text → List Text → List Text
add_word w ws = if is_empty w then ws else reverse w ∷ ws

abbrev pub words_loop : Text → Text → List Text
words_loop w [] = add_word w []
words_loop w (c ∷ t) =
    let next = words_loop [] t in
    let more = words_loop (c ∷ w) t in if is_space c then add_word w next else more

-- `t.split(":")[0]`
abbrev pub first_part : List Text → Text
first_part [] = []
first_part (part ∷ parts) = part

abbrev pub derivative_terms : List String
derivative_terms =
    "summary" ∷ "summaries" ∷ "conversation starter" ∷ "study guide" ∷ "book club" ∷ "a guide to"
    ∷ []

-- `any(k in blob for k in terms)`
abbrev pub has_any : List String → Text → Bool
has_any terms blob = any (λ k. contains (codes k) blob) terms

-- `" ".join`
abbrev pub join : List Text → Text
join [] = []
join (t ∷ []) = t
join (t ∷ u ∷ ts) = t ++ b' ' ∷ join (u ∷ ts)

-- The operations on floats and texts that come from outside: the product, the conversion of a
-- natural number, the opposite, Python's `sum` of floats, rapidfuzz's `token_set_ratio(a, b) / 100.0`, `lower()` on all of
-- Unicode, and `raw["row_text"]` of a candidate.
pub record ScoreOps (F : Floats) : Type 0 where
  pub mul : F.Float → F.Float → F.Float
  pub of_nat : ℕ → F.Float
  pub neg : F.Float → F.Float
  pub sum : List F.Float → F.Float
  pub similarity : Text → Text → F.Float
  pub lower : Text → Text
  pub row_text : String → Text

-- `ScoringCfg`, without the size cap, which the pipeline sets.
pub record ScoringConfig (F : Floats) : Type 0 where
  pub isbn_match : F.Float
  pub title_weight : F.Float
  pub author_weight : F.Float
  pub format_bonus : List (String × F.Float)
  pub language_bonus : F.Float
  pub filesize_min_bytes : ℕ
  pub filesize_max_bytes : ℕ
  pub scan_penalty : F.Float
  pub audio_keywords : List String
  pub non_latin_title_multiplier : F.Float

-- Why a candidate is skipped.
pub data SkipReason : Type 0 where
  audio derivative script_mismatch oversize : SkipReason

module _ (F : Floats) (ops : ScoreOps F) (cfg : ScoringConfig F) where
  open F use {Float, zero_float, le, add}

  -- `ScoreBreakdown`, with the two components that are read elsewhere.
  pub record ScoreBreakdown : Type 0 where
    pub total : Float
    pub skip_reason : Option SkipReason
    pub isbn13_matched : Float
    pub title_similarity_raw : Float

  abbrev pub max_float : Float → Float → Float
  max_float x y = if le y x then x else y

  -- `_normalize_title`
  abbrev pub normalize_title : String → Text
  normalize_title t = ops.lower (strip (first_part (split b':' (codes t))))

  -- `_has_audio_marker`
  unfoldable pub has_audio_marker : Candidate → Bool
  has_audio_marker c =
      has_any cfg.audio_keywords
        (ops.lower (join (text_of c.edition_hints ∷ text_of c.format ∷ text_of c.title ∷ [])))

  unfoldable pub is_derivative : Candidate → Bool
  is_derivative c =
      has_any derivative_terms (ops.lower (join (text_of c.title ∷ text_of c.edition_hints ∷ [])))

  abbrev pub differ : Bool → Bool → Bool
  differ true b = not b
  differ false b = b

  unfoldable pub scripts_differ : Candidate → SearchQuery → Bool
  scripts_differ c q =
      not (is_empty (codes q.title))
      && not (is_empty (text_of c.title))
      && differ (is_non_latin (codes q.title)) (is_non_latin (text_of c.title))

  unfoldable pub is_oversize : Option ℕ → Option ℕ → Bool
  is_oversize (some size) (some cap) = ltb cap size
  is_oversize none cap = false
  is_oversize (some size) none = false

  -- `_author_match_strict`
  unfoldable pub author_match_strict : Text → Text → Float
  author_match_strict q_author_lc haystack =
      let tokens = select (λ t. ltb 2 (length t)) (words_loop [] q_author_lc) in
      if leb (length tokens) 0
      then zero_float
      else if any (λ t. not (contains t haystack)) tokens
      then zero_float
      else ops.of_nat 1

  -- The similarity of the glyphs that are not Latin, if both titles have some.
  abbrev pub glyph_similarity : Text → Text → Float → Float
  glyph_similarity sub_c sub_q t_sim =
      if not (is_empty sub_q) && not (is_empty sub_c)
      then max_float t_sim (ops.similarity sub_c sub_q)
      else t_sim

  abbrev pub both_non_latin : Candidate → SearchQuery → Bool
  both_non_latin c q = is_non_latin (codes q.title) && is_non_latin (text_of c.title)

  -- `t_sim`
  unfoldable pub title_similarity : Candidate → SearchQuery → Float
  title_similarity c q =
      let norm_q = normalize_title q.title in
      let norm_c = ops.lower (strip (first_part (split b':' (text_of c.title)))) in
      let t_sim = ops.similarity norm_c norm_q in
      if is_empty (text_of c.title) || is_empty (codes q.title)
      then zero_float
      else if both_non_latin c q
      then glyph_similarity (non_latin_substring norm_c) (non_latin_substring norm_q) t_sim
      else t_sim

  -- `title_weight_eff`; no empty title has a letter that is not Latin.
  abbrev pub title_weight_eff : Candidate → SearchQuery → Float
  title_weight_eff c q =
      if both_non_latin c q
      then ops.mul cfg.title_weight cfg.non_latin_title_multiplier
      else cfg.title_weight

  -- `a_sim`
  unfoldable pub author_similarity : Candidate → SearchQuery → Float
  unfolding author_match_strict
  author_similarity c q =
      let q_lc = ops.lower (text_of q.author) in
      if is_empty (text_of q.author)
      then zero_float
      else if not (is_empty (text_of c.author))
      then ops.similarity (ops.lower (text_of c.author)) q_lc
      else author_match_strict q_lc
          (ops.lower (join (text_of c.edition_hints ∷ ops.row_text c.raw ∷ [])))

  -- `cfg.format_bonus.get(fmt, 0)`
  abbrev pub bonus_of : List (String × Float) → Text → Float
  bonus_of [] fmt = zero_float
  bonus_of ((k, x) ∷ items) fmt = if same_codes (codes k) fmt then x else bonus_of items fmt

  abbrev pub filesize_component : Option ℕ → Float
  filesize_component none = zero_float
  filesize_component (some n) =
      if ltb n 100000
      then ops.neg (ops.of_nat 15)
      else if leb cfg.filesize_min_bytes n && leb n cfg.filesize_max_bytes
      then ops.of_nat 5
      else zero_float

  -- The components after the two of the ISBN, in the order of the dictionary.
  unfoldable pub other_components : Candidate → SearchQuery → List Float
  unfolding title_similarity author_similarity
  other_components c q =
      let t_sim = title_similarity c q in
      ops.mul t_sim (title_weight_eff c q)
      ∷ t_sim
      ∷ ops.mul (author_similarity c q) cfg.author_weight
      ∷ bonus_of cfg.format_bonus (ops.lower (text_of c.format))
      ∷ (if same_codes (ops.lower (text_of c.language)) (ops.lower (codes q.language))
          then cfg.language_bonus
          else zero_float)
      ∷ filesize_component c.filesize_bytes
      ∷ (if has_any ("scan" ∷ "ocr" ∷ []) (ops.lower (text_of c.edition_hints))
          then ops.neg cfg.scan_penalty
          else zero_float)
      ∷ []

  abbrev pub isbn_points : Bool → Float
  isbn_points hit = if hit then cfg.isbn_match else zero_float

  abbrev pub isbn_flag : Bool → Float
  isbn_flag hit = if hit then ops.of_nat 1 else zero_float

  abbrev pub skipped : SkipReason → ScoreBreakdown
  skipped reason = record {
    total = zero_float;
    skip_reason = some reason;
    isbn13_matched = zero_float;
    title_similarity_raw = zero_float;
  }

  unfoldable pub scored : Candidate → SearchQuery → Bool → ScoreBreakdown
  unfolding other_components
  scored c q hit = record {
    total = max_float zero_float (ops.sum (isbn_points hit ∷ isbn_flag hit ∷ other_components c q));
    skip_reason = none;
    isbn13_matched = isbn_flag hit;
    title_similarity_raw = title_similarity c q;
  }

  -- `score_candidate`, where the caller gives `isbn13_match`; `cap` is `deliverable_max_bytes`.
  unfoldable pub score_candidate : Option ℕ → Candidate → SearchQuery → Bool → ScoreBreakdown
  unfolding has_audio_marker is_derivative scripts_differ is_oversize scored
  score_candidate cap c q hit =
      if has_audio_marker c
      then skipped audio
      else if is_derivative c
      then skipped derivative
      else if scripts_differ c q
      then skipped script_mismatch
      else if is_oversize c.filesize_bytes cap
      then skipped oversize
      else scored c q hit
