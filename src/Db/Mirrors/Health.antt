-- ===== src/Db/Mirrors/Health.antt =====
-- A mirror under a sequence of probes.
use biblichor.Prelude.{
  ℕ, ◌+◌, ◌≡◌, refl, ◌∙◌, Bool, true, false, ◌&&◌, some, List, [], ◌∷◌, arith, ltb, leb, Bool-cases,
  inl, inr, ◌==◌, find?-true, if◌then◌else◌,
}
use biblichor.Prelude.Sql.{update_where, find?-update_where}
use biblichor.Db.Mirrors.{
  Mirror, Mirrors, Probe, has_id, get, record_probe, auto_disable_after, probe_ok_row,
  probe_failed_row,
}

-- `record_probe` for each outcome, in order, with its time.
unfoldable pub probe_all : ℕ → List (ℕ × Probe) → Mirrors → Mirrors
probe_all i [] t = t
probe_all i ((now, p) ∷ ps) t = probe_all i ps (record_probe now i p t)

-- From `f` failures on, do the outcomes stay below `auto_disable_after` failures in a row?
unfoldable pub survives : ℕ → List (ℕ × Probe) → Bool
survives f [] = true
survives f ((now, p) ∷ ps) =
    let after_failure = survives (f + 1) ps in
    let after_success = survives 0 ps in
    if p.ok then after_success else ltb (f + 1) auto_disable_after && after_failure

abbrev probed : ℕ → Probe → Mirror → Mirror
probed now p m =
    if p.ok
    then probe_ok_row now p m
    else if ltb (m.consecutive_failures + 1) auto_disable_after
    then probe_failed_row now p m
    else record (probe_failed_row now p m) { enabled = false }

found_id : (i : ℕ) (m : Mirror) (t : Mirrors) → get i t ≡ some m → (m.id == i) ≡ true
unfolding get
found_id i m t h = find?-true (has_id i) t m h

get-update_where :
    (i : ℕ) (p : Mirror → Bool) (f : Mirror → Mirror) (m : Mirror) (t : Mirrors)
    → ((x : Mirror) → (f x).id ≡ x.id)
    → get i t ≡ some m
    → get i (update_where p f t) ≡ some (if p m then f m else m)
unfolding get
get-update_where i p f m t same h = rw (find?-update_where (has_id i) p f t (λ x. rw same), h)

get-record_probe :
    (now i : ℕ) (p : Probe) (m : Mirror) (t : Mirrors)
    → get i t ≡ some m
    → get i (record_probe now i p t) ≡ some (probed now p m)
unfolding record_probe
get-record_probe now i p m t h =
    let own = found_id i m t h in
    let failed_row = get-update_where i (has_id i) (probe_failed_row now p) m t (λ x. refl) h in
    elim (Bool-cases p.ok) [
      | inl e ↦
          rw e (get-update_where i (has_id i) (probe_ok_row now p) m t (λ x. refl) h ∙ ground arith)
      | inr e ↦ rw e (
          get-update_where i (λ x. has_id i x && leb auto_disable_after x.consecutive_failures)
            (λ x. record x { enabled = false }) (if has_id i m then probe_failed_row now p m else m)
            (update_where (has_id i) (probe_failed_row now p) t) (λ x. refl) failed_row
          ∙ ground arith)
    ]

-- After any probes a mirror is enabled exactly if it was and never failed five times in a row,
-- counted on from the failures before; a success never enables a mirror.
pub probed_enabled_iff :
    (i : ℕ) (ps : List (ℕ × Probe)) (m : Mirror) (t : Mirrors)
    → get i t ≡ some m
    → (m' : Mirror) × (get i (probe_all i ps t) ≡ some m')
      × (m'.enabled ≡ (m.enabled && survives m.consecutive_failures ps))
unfolding probe_all survives
probed_enabled_iff i [] m t h = (m, h, ground arith)
probed_enabled_iff i ((now, p) ∷ ps) m t h =
    let h' = get-record_probe now i p m t h in
    let (m', got, e) = probed_enabled_iff i ps (probed now p m) (record_probe now i p t) h' in
    (m', got, e ∙ ground arith)
