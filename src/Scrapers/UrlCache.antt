-- ===== src/Scrapers/UrlCache.antt =====
-- src/endless_library/scrapers/annas_url_cache.py: `PartnerURLCache` with its file.
pub mod Lookup
pub mod Reopened
use biblichor.Prelude.{
  ℕ, ◌+◌, String, Bool, true, false, ◌&&◌, Option, none, some, List, [], ◌∷◌, leb, str_eq,
  if◌then◌else◌,
}

-- `PartnerURLEntry`
pub record UrlEntry : Type 0 where
  pub url : String
  pub expires_at : ℕ
  pub issued_at : ℕ

-- A dictionary in the order of its keys.
abbrev pub Entries : Type 0
Entries = List (String × UrlEntry)

-- The JSON of the file, over any type of texts: `none` is a text that is no dictionary, and `none` for a key an entry that
-- lacks a field or has one of another type.
pub record JsonFile (X : Type 0) : Type 0 where
  pub dumps : Entries → X
  pub loads : X → Option (List (String × Option UrlEntry))

-- The cache and its file: whether it has a path, whether the folder can be written to, and the
-- text of the file, if there is one.
pub record UrlCache (X : Type 0) : Type 0 where
  pub has_path : Bool
  pub is_writable : Bool
  pub file : Option X
  pub entries : Entries
  pub is_loaded : Bool

-- `_mem.get(md5)`
abbrev pub lookup : String → Entries → Option UrlEntry
lookup k [] = none
lookup k ((m, e) ∷ t) = if str_eq k m then some e else lookup k t

-- `_mem[md5] = entry`
abbrev pub put : String → UrlEntry → Entries → Entries
put k e [] = (k, e) ∷ []
put k e ((m, x) ∷ t) = let rest = put k e t in if str_eq k m then (m, e) ∷ t else (m, x) ∷ rest

-- `del _mem[md5]`
abbrev pub remove : String → Entries → Entries
remove k [] = []
remove k ((m, x) ∷ t) = let rest = remove k t in if str_eq k m then t else (m, x) ∷ rest

-- The loop of `_ensure_loaded`
abbrev pub add_loaded : List (String × Option UrlEntry) → Entries → Entries
add_loaded [] t = t
add_loaded ((k, none) ∷ raw) t = add_loaded raw t
add_loaded ((k, some e) ∷ raw) t = add_loaded raw (put k e t)

abbrev pub from_json : Option (List (String × Option UrlEntry)) → Entries → Entries
from_json none t = t
from_json (some raw) t = add_loaded raw t

module _ {X : Type 0} (json : JsonFile X) where
  abbrev pub read_file : Option X → Entries → Entries
  read_file none t = t
  read_file (some text) t = from_json (json.loads text) t

  -- `_ensure_loaded`
  unfoldable pub ensure_loaded : UrlCache X → UrlCache X
  ensure_loaded c = if c.is_loaded then c else record c {
    is_loaded = true;
    entries = if c.has_path then read_file c.file c.entries else c.entries;
  }

  -- `_flush`
  unfoldable pub flush : UrlCache X → UrlCache X
  flush c =
      if c.has_path && c.is_writable then record c { file = some (json.dumps c.entries) } else c

  abbrev pub unexpired : ℕ → Option UrlEntry → Option UrlEntry
  unexpired now none = none
  unexpired now (some e) = if leb e.expires_at now then none else some e

  -- `get`; the cache afterwards is `ensure_loaded c`.
  unfoldable pub get : ℕ → String → UrlCache X → Option UrlEntry
  unfolding ensure_loaded
  get now md5 c = unexpired now (lookup md5 (ensure_loaded c).entries)

  -- `set`
  unfoldable pub set : ℕ → String → String → ℕ → UrlCache X → UrlCache X
  unfolding ensure_loaded flush
  set now md5 url ttl_seconds c =
      let d = ensure_loaded c in
      let e : UrlEntry = record { url = url; expires_at = now + ttl_seconds; issued_at = now } in
      flush (record d { entries = put md5 e d.entries })

  -- `if md5 in self._mem`
  abbrev pub drop_found : String → UrlCache X → Option UrlEntry → UrlCache X
  drop_found md5 d none = d
  drop_found md5 d (some e) = flush (record d { entries = remove md5 d.entries })

  -- `invalidate`
  unfoldable pub invalidate : String → UrlCache X → UrlCache X
  unfolding ensure_loaded flush
  invalidate md5 c = let d = ensure_loaded c in drop_found md5 d (lookup md5 d.entries)

-- `PartnerURLCache(path)`, after a restart with the same file.
unfoldable pub reopen : {X : Type 0} → UrlCache X → UrlCache X
reopen c = record c { entries = []; is_loaded = false }
