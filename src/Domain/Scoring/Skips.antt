-- ===== src/Domain/Scoring/Skips.antt =====
-- Which candidates `score_candidate` lets pass.
use biblichor.Prelude.{ℕ, ◌≡◌, refl, Bool, true, false, Option, none, if◌then◌else◌}
use biblichor.Prelude.Number.{Floats}
use biblichor.Db.Candidates.{Candidate}
use biblichor.Domain.Scoring.{
  SearchQuery, ScoreOps, ScoringConfig, SkipReason, audio, derivative, script_mismatch, oversize,
  ScoreBreakdown, has_audio_marker, is_derivative, scripts_differ, is_oversize, skipped, scored,
  score_candidate,
}

module _ (F : Floats) (ops : ScoreOps F) (cfg : ScoringConfig F) where
  -- The candidate is no audio book and no derivative, its title has the script of the query's, and
  -- its file is within the cap.
  pub record Passes (cap : Option ℕ) (c : Candidate) (q : SearchQuery) : Type 0 where
    pub no_audio : has_audio_marker F ops cfg c ≡ false
    pub original : is_derivative F ops cfg c ≡ false
    pub same_script : scripts_differ F ops cfg c q ≡ false
    pub fits : is_oversize F ops cfg c.filesize_bytes cap ≡ false

  not_skipped :
      (b : Bool) (r : SkipReason) (x : ScoreBreakdown F ops cfg)
      → (if b then skipped F ops cfg r else x).skip_reason ≡ none
      → (b ≡ false) × (x.skip_reason ≡ none)
  not_skipped true r x h = cc
  not_skipped false r x h = (refl, h)

  pub score_candidate-Passes :
      (cap : Option ℕ) (c : Candidate) (q : SearchQuery) (hit : Bool)
      → (score_candidate F ops cfg cap c q hit).skip_reason ≡ none
      → Passes cap c q
  unfolding score_candidate
  score_candidate-Passes cap c q hit h =
      let (a, h1) = not_skipped (has_audio_marker F ops cfg c) audio _ h in
      let (b, h2) = not_skipped (is_derivative F ops cfg c) derivative _ h1 in
      let (d, h3) = not_skipped (scripts_differ F ops cfg c q) script_mismatch _ h2 in
      let (e, h4) =
        not_skipped (is_oversize F ops cfg c.filesize_bytes cap) oversize (scored F ops cfg c q hit)
          h3 in
      record { no_audio = a; original = b; same_script = d; fits = e }
