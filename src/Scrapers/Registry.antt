-- ===== src/Scrapers/Registry.antt =====
-- src/endless_library/scrapers/registry.py: the names of the scrapers and the chain for a book.
pub mod Order
use biblichor.Prelude.{
  String, Bool, true, false, not, ◌&&◌, List, [], ◌∷◌, ◌++◌, select, is_in, str_eq, if◌then◌else◌,
}
use biblichor.Prelude.Text.{codes}
use biblichor.Domain.Script.{is_non_latin}

-- What the registry reads of `ScrapersCfg`: the configured order, and `enabled` as its items.
pub record ScrapersConfig : Type 0 where
  pub order : List String
  pub enabled : List (String × Bool)

-- The keys of `_REGISTRY`
abbrev pub registry : List String
registry =
    "annas_curl" ∷ "annas_flaresolverr" ∷ "annas_playwright" ∷ "annas_patchright"
    ∷ "annas_cloakbrowser" ∷ "welib_curl" ∷ "welib_playwright" ∷ "libgen_curl" ∷ "archive_curl"
    ∷ "kindlebangla_curl" ∷ "gutendex" ∷ "standard_ebooks" ∷ "oapen_doab" ∷ "wikisource"
    ∷ "zlib_singlelogin" ∷ "hathitrust" ∷ "doab" ∷ "mobilism_books" ∷ "bdebooks" ∷ []

abbrev pub pd_priority : List String
pd_priority =
    "standard_ebooks" ∷ "gutendex" ∷ "wikisource" ∷ "oapen_doab" ∷ "doab" ∷ "hathitrust" ∷ []

abbrev pub non_latin_priority : List String
non_latin_priority = "kindlebangla_curl" ∷ "bdebooks" ∷ []

-- `available`
unfoldable pub available : List String
available = registry

-- `cfg.enabled.get(n, False)`
abbrev pub is_on : List (String × Bool) → String → Bool
is_on [] n = false
is_on ((m, b) ∷ items) n = if str_eq m n then b else is_on items n

-- `enabled_order`
unfoldable pub enabled_order : ScrapersConfig → List String
enabled_order cfg = select (λ n. is_on cfg.enabled n && is_in registry n) cfg.order

-- `[n for n in priority if n in base]`
abbrev pub promoted : List String → List String → List String
promoted priority base = select (is_in base) priority

-- `promoted + rest`
abbrev pub promote : List String → List String → List String
promote priority base =
    promoted priority base ++ select (λ n. not (is_in (promoted priority base) n)) base

-- `enabled_order_for_query`; no empty title has a letter that is not Latin.
unfoldable pub enabled_order_for_query : ScrapersConfig → String → List String
unfolding enabled_order
enabled_order_for_query cfg query_title =
    if str_eq query_title ""
    then enabled_order cfg
    else if not (is_non_latin (codes query_title))
    then enabled_order cfg
    else promote non_latin_priority (enabled_order cfg)

-- `pd_aware_order`
unfoldable pub pd_aware_order : ScrapersConfig → String → Bool → List String
unfolding enabled_order_for_query
pd_aware_order cfg query_title is_pd =
    if not is_pd
    then enabled_order_for_query cfg query_title
    else promote pd_priority (enabled_order_for_query cfg query_title)

-- `chain_for_source`
unfoldable pub chain_for_source : ScrapersConfig → String → String → Bool → Bool → List String
unfolding pd_aware_order
chain_for_source cfg source query_title is_pd is_recent_release =
    if str_eq source "kindlebangla" && is_in registry "kindlebangla_curl"
    then "kindlebangla_curl" ∷ []
    else let base = pd_aware_order cfg query_title is_pd in
      if is_recent_release && not is_pd && is_in base "mobilism_books"
      then "mobilism_books" ∷ select (λ n. not (is_in ("mobilism_books" ∷ []) n)) base
      else base
