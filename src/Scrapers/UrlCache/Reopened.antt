-- ===== src/Scrapers/UrlCache/Reopened.antt =====
-- A cache that is opened again on its file.
use biblichor.Prelude.{
  ℕ, ◌+◌, ◌≡◌, refl, sym, ap, ◌∙◌, String, true, Option, none, some, List, [], ◌∷◌, eq_iff,
  is_distinct, map, arith,
}
use biblichor.Scrapers.UrlCache.{
  UrlEntry, Entries, JsonFile, UrlCache, lookup, put, add_loaded, from_json, unexpired,
  ensure_loaded, flush, get, set, reopen,
}
use biblichor.Scrapers.UrlCache.Lookup.{
  keys, lookup-put, lookup-absent, put-distinct, ensure_loaded-distinct, loaded-flush, loaded,
}

-- The entries as a file without errors has them.
abbrev pub all_some : Entries → List (String × Option UrlEntry)
all_some t = map (λ (x : String × UrlEntry). (x.0, some x.1)) t

abbrev or_else : Option UrlEntry → Option UrlEntry → Option UrlEntry
or_else none y = y
or_else (some e) y = some e

lookup-loaded :
    (k : String) (t u : Entries)
    → is_distinct (keys t) ≡ true
    → lookup k (add_loaded (all_some t) u) ≡ or_else (lookup k t) (lookup k u)
lookup-loaded k [] u h = refl
lookup-loaded k ((n, x) ∷ t) u h =
    ground
      (arith, lookup-loaded k t (put n x u), lookup-put k n x u, lookup-absent k t, eq_iff k n, h)

or_else-none : (o : Option UrlEntry) → or_else o none ≡ o
or_else-none none = refl
or_else-none (some e) = refl

module _ {X : Type 0} (json : JsonFile X) where
  reopened-flush :
      (d : UrlCache X)
      → d.has_path ≡ true
      → d.is_writable ≡ true
      → (ensure_loaded json (reopen (flush json d))).entries
        ≡ from_json (json.loads (json.dumps d.entries)) []
  unfolding ensure_loaded flush reopen
  reopened-flush d p w = ground (arith, p, w)

  paths-kept :
      (c : UrlCache X)
      → ((ensure_loaded json c).has_path ≡ c.has_path)
        × ((ensure_loaded json c).is_writable ≡ c.is_writable)
  unfolding ensure_loaded
  paths-kept c = (ground arith, ground arith)

  -- If the JSON of a dictionary reads back as it was, the file can be written and no key is there
  -- twice, then a cache that is opened again after a `set` answers for every md5 and at any time what
  -- the old one would.
  pub get-reopen :
      ((t : Entries) → json.loads (json.dumps t) ≡ some (all_some t))
      → (c : UrlCache X) (now later ttl : ℕ) (md5 url k : String) → c.has_path ≡ true
      → c.is_writable ≡ true
      → is_distinct (keys c.entries) ≡ true
      → get json later k (reopen (set json now md5 url ttl c))
        ≡ get json later k (set json now md5 url ttl c)
  unfolding get set
  get-reopen round c now later ttl md5 url k p w h =
      let d = ensure_loaded json c in
      let e : UrlEntry = record { url = url; expires_at = now + ttl; issued_at = now } in
      let t = put md5 e d.entries in
      let (p', w') = paths-kept c in
      let read_back : lookup k (from_json (json.loads (json.dumps t)) []) ≡ lookup k t =
        ap (λ o. lookup k (from_json o [])) (round t)
        ∙ lookup-loaded k t [] (put-distinct md5 e d.entries (ensure_loaded-distinct json c h))
        ∙ or_else-none (lookup k t) in
      ap (λ es. unexpired json later (lookup k es))
        (reopened-flush (record d { entries = t }) (p' ∙ p) (w' ∙ w))
      ∙ ap (unexpired json later) read_back
      ∙ ap (λ es. unexpired json later (lookup k es))
          (sym (loaded-flush json (record d { entries = t }) (loaded json c)))
