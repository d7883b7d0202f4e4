-- ===== src/Db/Mirrors.antt =====
-- src/endless_library/db/mirrors.py: the table of mirrors and the methods of `MirrorRepo`.
pub mod Health
pub mod Tests
pub mod Seed
use biblichor.Prelude.{
  ℕ, ◌+◌, String, Bool, true, false, ◌&&◌, Option, none, some, List, [], ◌∷◌, ◌++◌, ◌==◌, leb,
  str_eq, find?, any, select, map, if◌then◌else◌,
}
use biblichor.Prelude.Sql.{update_where, delete_where, next_rowid, order_by}

pub record Mirror : Type 0 where
  pub id : ℕ
  pub kind : String
  pub url : String
  pub label : Option String
  pub enabled : Bool
  pub consecutive_failures : ℕ
  pub last_probed_at : Option ℕ
  pub last_ok_at : Option ℕ
  pub last_status : Option ℕ
  pub last_latency_ms : Option ℕ
  pub last_error : Option String

abbrev pub Mirrors : Type 0
Mirrors = List Mirror

-- An entry of `CURATED_MIRRORS`.
pub record Curated : Type 0 where
  pub kind : String
  pub url : String
  pub label : Option String

-- `AUTO_DISABLE_AFTER`
abbrev pub auto_disable_after : ℕ
auto_disable_after = 5

abbrev pub has_id : ℕ → Mirror → Bool
has_id i m = m.id == i

abbrev pub has_url : String → Mirror → Bool
has_url url m = str_eq m.url url

-- The row of an INSERT, with the defaults of the schema.
abbrev pub new_mirror : ℕ → String → String → Option String → Mirror
new_mirror i kind url label = record {
  id = i;
  kind = kind;
  url = url;
  label = label;
  enabled = true;
  consecutive_failures = 0;
  last_probed_at = none;
  last_ok_at = none;
  last_status = none;
  last_latency_ms = none;
  last_error = none;
}

-- `add`: `none` where UNIQUE(url) refuses the row.
unfoldable pub add : String → String → Option String → Mirrors → Option (ℕ × Mirrors)
add kind url label t =
    let i = next_rowid (λ m. m.id) t in
    if any (has_url url) t then none else some (i, t ++ new_mirror i kind url label ∷ [])

-- The first loop of `seed_curated`: the number of inserts, and the table.
unfoldable pub seed_new : List Curated → Mirrors → ℕ × Mirrors
seed_new [] t = (0, t)
seed_new (e ∷ es) t =
    let known = any (has_url e.url) t in
    let t' =
      if known then t else t ++ new_mirror (next_rowid (λ m. m.id) t) e.kind e.url e.label ∷ [] in
    let (n, t'') = seed_new es t' in (if known then n else n + 1, t'')

-- The second loop: URLs that are no longer curated are disabled.
unfoldable pub disable_legacy : List Curated → List String → Mirrors → Mirrors
disable_legacy curated [] t = t
disable_legacy curated (url ∷ urls) t = disable_legacy curated urls (
    if any (λ e. str_eq e.url url) curated
    then t
    else update_where (λ m. has_url url m && m.enabled) (λ m. record m { enabled = false }) t)

-- `seed_curated`
unfoldable pub seed_curated : List Curated → List String → Mirrors → ℕ × Mirrors
seed_curated curated legacy t =
    let (inserted, t') = seed_new curated t in (inserted, disable_legacy curated legacy t')

-- `list_all`: `if kind:`
unfoldable pub list_all : Option String → Mirrors → List Mirror
list_all none t = order_by (λ m. m.id) t
list_all (some kind) t =
    if str_eq kind ""
    then order_by (λ m. m.id) t
    else order_by (λ m. m.id) (select (λ m. str_eq m.kind kind) t)

-- `get`
unfoldable pub get : ℕ → Mirrors → Option Mirror
get i t = find? (has_id i) t

-- `delete`
unfoldable pub delete : ℕ → Mirrors → Mirrors
delete i t = delete_where (has_id i) t

-- `set_enabled`
unfoldable pub set_enabled : ℕ → Bool → Mirrors → Mirrors
set_enabled i on t =
    update_where (has_id i) (λ m. record m { enabled = on; consecutive_failures = 0 }) t

-- The outcome of a probe, the arguments of `record_probe`.
pub record Probe : Type 0 where
  pub ok : Bool
  pub status : Option ℕ
  pub latency_ms : Option ℕ
  pub error : Option String

abbrev pub probe_ok_row : ℕ → Probe → Mirror → Mirror
probe_ok_row now p m = record m {
  last_probed_at = some now;
  last_ok_at = some now;
  last_status = p.status;
  last_latency_ms = p.latency_ms;
  last_error = none;
  consecutive_failures = 0;
}

abbrev pub probe_failed_row : ℕ → Probe → Mirror → Mirror
probe_failed_row now p m = record m {
  last_probed_at = some now;
  last_status = p.status;
  last_latency_ms = p.latency_ms;
  last_error = p.error;
  consecutive_failures = m.consecutive_failures + 1;
}

-- `record_probe`: a failure is two UPDATEs.
unfoldable pub record_probe : ℕ → ℕ → Probe → Mirrors → Mirrors
record_probe now i p t =
    if p.ok
    then update_where (has_id i) (probe_ok_row now p) t
    else update_where (λ m. has_id i m && leb auto_disable_after m.consecutive_failures)
        (λ m. record m { enabled = false }) (update_where (has_id i) (probe_failed_row now p) t)

-- `healthy_urls`
unfoldable pub healthy_urls : String → Mirrors → List String
unfolding list_all
healthy_urls kind t = map (λ m. m.url) (select (λ m. m.enabled) (list_all (some kind) t))
