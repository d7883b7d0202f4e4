-- ===== src/Domain/Scoring/Isbn.antt =====
-- A match of the ISBN never lowers the score.
use biblichor.Prelude.{ℕ, ◌≡◌, Bool, true, false, Option, List, ◌∷◌, if◌then◌else◌, arith}
use biblichor.Prelude.Number.{Floats}
use biblichor.Db.Candidates.{Candidate}
use biblichor.Domain.Scoring.{
  SearchQuery, ScoreOps, ScoringConfig, SkipReason, ScoreBreakdown, max_float, has_audio_marker,
  is_derivative, scripts_differ, is_oversize, skipped, other_components, scored, score_candidate,
}

module _ (F : Floats) (ops : ScoreOps F) (cfg : ScoringConfig F) where
  open F use {Float, zero_float, le, le_refl, le_trans, le_total}

  max_float_mono :
      (x y z : Float)
      → le y z ≡ true
      → le (max_float F ops cfg x y) (max_float F ops cfg x z) ≡ true
  max_float_mono x y z h = ground (arith, le_refl x, h, le_total y x, le_total z x, le_trans y z x)

  if-le :
      (b : Bool) (r : SkipReason) (x y : ScoreBreakdown F ops cfg)
      → le x.total y.total ≡ true
      → le (if b then skipped F ops cfg r else x).total (if b then skipped F ops cfg r else y).total
        ≡ true
  if-le true r x y h = le_refl zero_float
  if-le false r x y h = h

  -- If `sum` does not fall when its first two terms grow, and the points for the ISBN and 1.0 are not
  -- negative, then the total of a candidate with a match of the ISBN is at least its total without.
  pub isbn_match_raises :
      ((x x' y y' : Float) (zs : List Float)
        → le x x' ≡ true
        → le y y' ≡ true
        → le (ops.sum (x ∷ y ∷ zs)) (ops.sum (x' ∷ y' ∷ zs)) ≡ true)
      → le zero_float cfg.isbn_match ≡ true
      → le zero_float (ops.of_nat 1) ≡ true
      → (cap : Option ℕ) (c : Candidate) (q : SearchQuery)
      → le
          (score_candidate F ops cfg cap c q false).total
          (score_candidate F ops cfg cap c q true).total
        ≡ true
  unfolding score_candidate scored
  isbn_match_raises sum_mono h k cap c q = if-le (has_audio_marker F ops cfg c) _ _ _ (
      if-le (is_derivative F ops cfg c) _ _ _ (
        if-le (scripts_differ F ops cfg c q) _ _ _ (
          if-le (is_oversize F ops cfg c.filesize_bytes cap) _ _ _
            (max_float_mono _ _ _ (sum_mono _ _ _ _ (other_components F ops cfg c q) h k)))))
