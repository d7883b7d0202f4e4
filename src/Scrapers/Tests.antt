-- ===== src/Scrapers/Tests.antt =====
-- Chains for a small configuration, and a cache with one URL.
use biblichor.Prelude.{◌≡◌, refl, true, false, none, some, [], ◌∷◌, occurrences}
use biblichor.Domain.Script.{is_non_latin}
use biblichor.Scrapers.Registry.{ScrapersConfig, enabled_order, chain_for_source}
use biblichor.Scrapers.Registry.Order.{chain_for_source-occurrences}
use biblichor.Scrapers.UrlCache.{Entries, JsonFile, UrlCache, get, set, reopen}
use biblichor.Scrapers.UrlCache.Reopened.{all_some, get-reopen}

abbrev cfg : ScrapersConfig
cfg = record {
  order = "annas_curl" ∷ "gutendex" ∷ "libgen_curl" ∷ "bdebooks" ∷ [];
  enabled =
      ("annas_curl", true) ∷ ("gutendex", true) ∷ ("libgen_curl", false) ∷ ("bdebooks", true) ∷ [];
}

public_domain :
    chain_for_source cfg "goodreads" "Emma" true false ≡ "gutendex" ∷ "annas_curl" ∷ "bdebooks" ∷ []
unfolding chain_for_source is_non_latin
public_domain = refl

chain_for_source-occurrences_example :
    occurrences "gutendex" (chain_for_source cfg "goodreads" "Emma" true false)
    ≡ occurrences "gutendex" (enabled_order cfg)
chain_for_source-occurrences_example =
    chain_for_source-occurrences cfg "goodreads" "Emma" true false "gutendex" refl refl

abbrev json : JsonFile Entries
json = record { dumps = λ t. t; loads = λ t. some (all_some t) }

abbrev cache : UrlCache Entries
cache = record { has_path = true; is_writable = true; file = none; entries = []; is_loaded = false }

get-reopen_example :
    get json 4000 "ab12" (reopen (set json 1000 "ab12" "https://x/d3/1" 3600 cache))
    ≡ get json 4000 "ab12" (set json 1000 "ab12" "https://x/d3/1" 3600 cache)
get-reopen_example =
    get-reopen json (λ t. refl) cache 1000 4000 3600 "ab12" "https://x/d3/1" "ab12" refl refl refl
