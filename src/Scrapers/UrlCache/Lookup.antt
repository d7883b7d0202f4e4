-- ===== src/Scrapers/UrlCache/Lookup.antt =====
-- What the cache answers after a change.
use biblichor.Prelude.{
  ℕ, ◌+◌, ◌≡◌, refl, ap, String, Bool, true, false, Option, none, some, List, [], ◌∷◌, leb, str_eq,
  eq_iff, str_eq_refl, if◌then◌else◌, is_distinct, is_in, map, arith, ◌||◌, ◌∙◌,
}
use biblichor.Scrapers.UrlCache.{
  UrlEntry, Entries, JsonFile, UrlCache, lookup, put, remove, add_loaded, from_json, read_file,
  drop_found, unexpired, ensure_loaded, flush, get, set, invalidate,
}

abbrev pub keys : Entries → List String
keys t = map (λ (x : String × UrlEntry). x.0) t

pub lookup-put :
    (k m : String) (e : UrlEntry) (t : Entries)
    → lookup k (put m e t) ≡ (if str_eq k m then some e else lookup k t)
lookup-put k m e [] = refl
lookup-put k m e ((n, x) ∷ t) =
    ground (arith, lookup-put k m e t, eq_iff m n, eq_iff k n, eq_iff k m)

pub lookup-absent : (k : String) (t : Entries) → is_in (keys t) k ≡ false → lookup k t ≡ none
lookup-absent k [] h = refl
lookup-absent k ((n, x) ∷ t) h = ground (arith, lookup-absent k t, h)

pub lookup-remove :
    (k m : String) (t : Entries)
    → is_distinct (keys t) ≡ true
    → lookup k (remove m t) ≡ (if str_eq k m then none else lookup k t)
lookup-remove k m [] h = ground arith
lookup-remove k m ((n, x) ∷ t) h =
    ground (arith, lookup-remove k m t, lookup-absent k t, eq_iff m n, eq_iff k n, eq_iff k m, h)

is_in-put :
    (k m : String) (e : UrlEntry) (t : Entries)
    → is_in (keys (put m e t)) k ≡ (str_eq k m || is_in (keys t) k)
is_in-put k m e [] = refl
is_in-put k m e ((n, x) ∷ t) = ground (arith, is_in-put k m e t, eq_iff m n)

pub put-distinct :
    (m : String) (e : UrlEntry) (t : Entries)
    → is_distinct (keys t) ≡ true
    → is_distinct (keys (put m e t)) ≡ true
put-distinct m e [] h = refl
put-distinct m e ((n, x) ∷ t) h =
    ground (arith, put-distinct m e t, is_in-put n m e t, eq_iff m n, eq_iff n m, str_eq_refl n, h)

add_loaded-distinct :
    (raw : List (String × Option UrlEntry)) (t : Entries)
    → is_distinct (keys t) ≡ true
    → is_distinct (keys (add_loaded raw t)) ≡ true
add_loaded-distinct [] t h = h
add_loaded-distinct ((k, none) ∷ raw) t h = add_loaded-distinct raw t h
add_loaded-distinct ((k, some e) ∷ raw) t h =
    add_loaded-distinct raw (put k e t) (put-distinct k e t h)

from_json-distinct :
    (o : Option (List (String × Option UrlEntry))) (t : Entries)
    → is_distinct (keys t) ≡ true
    → is_distinct (keys (from_json o t)) ≡ true
from_json-distinct none t h = h
from_json-distinct (some raw) t h = add_loaded-distinct raw t h

absent_key :
    (k m : String) (t : Entries)
    → lookup m t ≡ none
    → lookup k t ≡ (if str_eq k m then none else lookup k t)
absent_key k m t h = ground (arith, eq_iff k m, h)

module _ {X : Type 0} (json : JsonFile X) where
  read_file-distinct :
      (file : Option X) (t : Entries)
      → is_distinct (keys t) ≡ true
      → is_distinct (keys (read_file json file t)) ≡ true
  read_file-distinct none t h = h
  read_file-distinct (some text) t h = from_json-distinct (json.loads text) t h

  -- Loading keeps the keys apart.
  pub ensure_loaded-distinct :
      (c : UrlCache X)
      → is_distinct (keys c.entries) ≡ true
      → is_distinct (keys (ensure_loaded json c).entries) ≡ true
  unfolding ensure_loaded
  ensure_loaded-distinct c h = ground (arith, read_file-distinct c.file c.entries h, h)

  pub loaded-flush :
      (c : UrlCache X)
      → c.is_loaded ≡ true
      → (ensure_loaded json (flush json c)).entries ≡ c.entries
  unfolding ensure_loaded flush
  loaded-flush c h = ground (arith, h)

  loaded-same : (c : UrlCache X) → c.is_loaded ≡ true → (ensure_loaded json c).entries ≡ c.entries
  unfolding ensure_loaded
  loaded-same c h = ground (arith, h)

  unexpired-if :
      (later : ℕ) (b : Bool) (x y : Option UrlEntry)
      → unexpired json later (if b then x else y)
        ≡ (if b then unexpired json later x else unexpired json later y)
  unexpired-if later true x y = refl
  unexpired-if later false x y = refl

  pub loaded : (c : UrlCache X) → (ensure_loaded json c).is_loaded ≡ true
  unfolding ensure_loaded
  loaded c = ground arith

  -- After a `set`, the cache answers the new URL for its md5 until the time is over, and for any other
  -- md5 what it answered before, whatever the file holds.
  pub get-set :
      (c : UrlCache X) (now later ttl : ℕ) (md5 url k : String)
      → get json later k (set json now md5 url ttl c) ≡ (
          if str_eq k md5
          then (if leb (now + ttl) later
              then none
              else some (record { url = url; expires_at = now + ttl; issued_at = now }))
          else get json later k c)
  unfolding get set
  get-set c now later ttl md5 url k =
      let d = ensure_loaded json c in
      let e : UrlEntry = record { url = url; expires_at = now + ttl; issued_at = now } in
      ap (λ es. unexpired json later (lookup k es))
        (loaded-flush (record d { entries = put md5 e d.entries }) (loaded c))
      ∙ ap (unexpired json later) (lookup-put k md5 e d.entries)
      ∙ unexpired-if later (str_eq k md5) (some e) (lookup k d.entries)

  dropped :
      (d : UrlCache X) (later : ℕ) (md5 k : String) (o : Option UrlEntry)
      → d.is_loaded ≡ true
      → is_distinct (keys d.entries) ≡ true
      → lookup md5 d.entries ≡ o
      → lookup k (ensure_loaded json (drop_found json md5 d o)).entries
        ≡ (if str_eq k md5 then none else lookup k d.entries)
  dropped d later md5 k none l h e = ap (lookup k) (loaded-same d l) ∙ absent_key k md5 d.entries e
  dropped d later md5 k (some x) l h e =
      ap (lookup k) (loaded-flush (record d { entries = remove md5 d.entries }) l)
      ∙ lookup-remove k md5 d.entries h

  -- If no key is there twice, the cache answers nothing for an invalidated md5, and for any other md5
  -- what it answered before.
  pub get-invalidate :
      (c : UrlCache X) (later : ℕ) (md5 k : String)
      → is_distinct (keys c.entries) ≡ true
      → get json later k (invalidate json md5 c)
        ≡ (if str_eq k md5 then none else get json later k c)
  unfolding get invalidate
  get-invalidate c later md5 k h =
      let d = ensure_loaded json c in
      ap (unexpired json later)
        (dropped d later md5 k _ (loaded c) (ensure_loaded-distinct c h) refl)
      ∙ unexpired-if later (str_eq k md5) none (lookup k d.entries)
