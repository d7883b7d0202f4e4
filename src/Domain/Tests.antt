-- ===== src/Domain/Tests.antt =====
-- Small runs of the state machine, picks and formats.
use biblichor.Prelude.{ℕ, ◌+◌, ◌-◌, ◌≤◌, ◌≡◌, refl, true, false, leb, arith}
use biblichor.Prelude.Text.{codes}
use biblichor.Prelude.Number.{Floats}
use biblichor.Domain.AutoPick.{Thresholds, rank, decide_auto_pick, decide_auto_pick_mono}
use biblichor.Domain.FormatRouter.{decide_format_action, send_native, convert, skip}

shouted : decide_format_action (codes " .EPUB ") ≡ send_native
unfolding decide_format_action
shouted = refl

comic : decide_format_action (codes ".cbr") ≡ convert
unfolding decide_format_action
comic = refl

archive : decide_format_action (codes ".tar.gz") ≡ skip
unfolding decide_format_action
archive = refl

pub leb_trans : (x y z : ℕ) → leb x y ≡ true → leb y z ≡ true → leb x z ≡ true
leb_trans x y z h k = ground arith

pub leb_total : (x y : ℕ) → leb x y ≡ false → leb y x ≡ true
leb_total x y h = ground arith

pub leb-sub_left : (x y z : ℕ) → leb x y ≡ true → leb (x - z) (y - z) ≡ true
leb-sub_left x y z h = ground arith

pub leb-sub_right : (x y z : ℕ) → leb y z ≡ true → leb (x - z) (x - y) ≡ true
leb-sub_right x y z h = ground arith

pub leb_refl : (x : ℕ) → leb x x ≡ true
leb_refl x = ground arith

abbrev pub nat_floats : Floats
nat_floats = record {
  Float = ℕ;
  zero_float = 0;
  le = leb;
  add = λ x y. x + y;
  sub = λ x y. x - y;
  le_refl = leb_refl;
  le_trans = leb_trans;
  le_total = leb_total;
  sub_mono_left = leb-sub_left;
  sub_mono_right = leb-sub_right;
}

abbrev thresholds : Thresholds nat_floats
thresholds = record {
  threshold = 70;
  gap = 15;
  min_score_for_failure = 40;
  high_confidence_bonus = 10;
  isbn_title_override_min_similarity = 92;
}

decide_auto_pick_mono_example :
    rank (decide_auto_pick nat_floats thresholds 72 60 false 80)
    ≤ rank (decide_auto_pick nat_floats thresholds 75 55 false 85)
decide_auto_pick_mono_example =
    decide_auto_pick_mono nat_floats thresholds 72 75 60 55 false 80 85 refl refl refl
