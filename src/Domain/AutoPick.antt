-- ===== src/Domain/AutoPick.antt =====
-- src/endless_library/domain/state_machine.py: `decide_auto_pick`, over any floats.
use biblichor.Prelude.{◌≡◌, Bool, true, not, ◌&&◌, ℕ, ◌≤◌, arith, if◌then◌else◌}
use biblichor.Prelude.Number.{Floats}

-- `AutoPickDecision`
pub data AutoPickDecision : Type 0 where
  auto needs_review failed : AutoPickDecision

-- How far a decision goes towards picking.
abbrev pub rank : AutoPickDecision → ℕ
rank failed = 0
rank needs_review = 1
rank auto = 2

module _ (F : Floats) where
  open F use {Float, le, add, sub, le_refl, le_trans, le_total, sub_mono_left, sub_mono_right}

  -- The keyword arguments that do not come from the candidates.
  pub record Thresholds : Type 0 where
    pub threshold : Float
    pub gap : Float
    pub min_score_for_failure : Float
    pub high_confidence_bonus : Float
    pub isbn_title_override_min_similarity : Float

  unfoldable pub decide_auto_pick : Thresholds → Float → Float → Bool → Float → AutoPickDecision
  decide_auto_pick t top second top_isbn_matched top_title_similarity =
      if not (le t.min_score_for_failure top)
      then failed
      else if top_isbn_matched && le t.isbn_title_override_min_similarity top_title_similarity
      then auto
      else if le (add t.threshold t.high_confidence_bonus) top
      then auto
      else if le t.threshold top && le t.gap (sub top second)
      then auto
      else needs_review

  gap_mono :
      (x top top' second second' : Float)
      → le top top' ≡ true
      → le second' second ≡ true
      → le x (sub top second) ≡ true
      → le x (sub top' second') ≡ true
  gap_mono x top top' second second' h k g =
      le_trans x (sub top' second) (sub top' second')
        (le_trans x (sub top second) (sub top' second) g (sub_mono_left top top' second h))
        (sub_mono_right top' second' second k)

  -- A better top score, a weaker runner-up and a title that fits better never lower the decision,
  -- whatever the thresholds are.
  pub decide_auto_pick_mono :
      (t : Thresholds) (top top' second second' : Float) (isbn : Bool) (sim sim' : Float)
      → le top top' ≡ true
      → le second' second ≡ true
      → le sim sim' ≡ true
      → rank (decide_auto_pick t top second isbn sim)
        ≤ rank (decide_auto_pick t top' second' isbn sim')
  unfolding decide_auto_pick
  decide_auto_pick_mono t top top' second second' isbn sim sim' h k l = ground (
    arith,
    le_trans t.min_score_for_failure top top',
    le_trans t.isbn_title_override_min_similarity sim sim',
    le_trans (add t.threshold t.high_confidence_bonus) top top',
    le_trans t.threshold top top',
    gap_mono t.gap top top' second second',
  )
