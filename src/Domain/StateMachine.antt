-- ===== src/Domain/StateMachine.antt =====
-- src/endless_library/domain/state_machine.py: the table of legal transitions.
use biblichor.Prelude.{Bool, List, [], ◌∷◌, any}
use biblichor.Domain.Status.{
  Status, queued, searching, needs_review, downloading, converting, sending, sent, skipped, failed,
  kindled, same_status,
}

-- `_LEGAL.get(frm, set())`
abbrev pub legal_targets : Status → List Status
legal_targets queued = searching ∷ []
legal_targets searching = needs_review ∷ downloading ∷ failed ∷ skipped ∷ []
legal_targets needs_review = downloading ∷ skipped ∷ queued ∷ []
legal_targets downloading = converting ∷ sending ∷ failed ∷ []
legal_targets converting = sending ∷ failed ∷ []
legal_targets sending = sent ∷ failed ∷ needs_review ∷ downloading ∷ []
legal_targets failed = searching ∷ skipped ∷ queued ∷ []
legal_targets sent = queued ∷ []
legal_targets skipped = queued ∷ []
legal_targets kindled = []

unfoldable pub is_legal_transition : Status → Status → Bool
is_legal_transition frm to = any (same_status to) (legal_targets frm)
