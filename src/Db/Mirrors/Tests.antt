-- ===== src/Db/Mirrors/Tests.antt =====
-- Two curated mirrors, and probes of one of them.
use biblichor.Prelude.{ℕ, ◌≡◌, ◌&&◌, refl, true, false, none, some, List, [], ◌∷◌}
use biblichor.Db.Mirrors.{Mirror, Curated, Probe, get, seed_curated}
use biblichor.Db.Mirrors.Health.{probe_all, survives, probed_enabled_iff}
use biblichor.Db.Mirrors.Seed.{seed_curated_idempotent}

abbrev curated : List Curated
curated =
    record { kind = "annas"; url = "https://a.example"; label = none }
    ∷ record { kind = "annas"; url = "https://b.example"; label = some "b" }
    ∷ []

seed_curated_idempotent_example :
    let t' = (seed_curated curated ("https://old.example" ∷ []) []).1 in
    seed_curated curated ("https://old.example" ∷ []) t' ≡ (0, t')
seed_curated_idempotent_example = seed_curated_idempotent curated ("https://old.example" ∷ []) []

abbrev mirror : Mirror
mirror = record {
  id = 1;
  kind = "annas";
  url = "https://a.example";
  label = none;
  enabled = true;
  consecutive_failures = 4;
  last_probed_at = none;
  last_ok_at = none;
  last_status = none;
  last_latency_ms = none;
  last_error = none;
}

abbrev probes : List (ℕ × Probe)
probes = (10, record { ok = false; status = some 503; latency_ms = none; error = some "down" }) ∷ []

there : get 1 (mirror ∷ []) ≡ some mirror
unfolding get
there = refl

probed_enabled_iff_example :
    (m' : Mirror) × (get 1 (probe_all 1 probes (mirror ∷ [])) ≡ some m')
    × (m'.enabled ≡ (mirror.enabled && survives mirror.consecutive_failures probes))
probed_enabled_iff_example = probed_enabled_iff 1 probes mirror (mirror ∷ []) there
