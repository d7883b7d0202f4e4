-- ===== src/Scrapers/Registry/Order.antt =====
-- The chain of scrapers tries every enabled one once, and the promoted ones first.
use mathlib.Core.Path.{subst}
use biblichor.Prelude.{
  ◌≤◌, ◌≡◌, ◌∙◌, refl, sym, ap, String, Bool, true, false, not, ◌&&◌, List, [], ◌∷◌, ◌++◌, All,
  select, is_in, is_distinct, occurrences, occurrences-append, occurrences-select,
  is_in-occurrences, is_in-select, All-in, is_distinct-once, if-both, str_eq, arith,
}
use biblichor.Scrapers.Registry.{
  ScrapersConfig, pd_priority, non_latin_priority, registry, is_on, enabled_order, promoted,
  promote, enabled_order_for_query, pd_aware_order, chain_for_source,
}

-- A promotion moves names to the front: each occurs as often as before.
occurrences-promote :
    (n : String) (priority base : List String)
    → occurrences n priority ≤ 1
    → occurrences n base ≤ 1
    → occurrences n (promote priority base) ≡ occurrences n base
occurrences-promote n priority base h k = ground (
  arith,
  occurrences-append n (promoted priority base)
      (select (λ m. not (is_in (promoted priority base) m)) base),
  occurrences-select (is_in base) n priority,
  occurrences-select (λ m. not (is_in (promoted priority base) m)) n base,
  is_in-occurrences base n,
  is_in-occurrences (promoted priority base) n,
)

-- The number of occurrences of `n` in the order that both lists share.
record Rearranges (n : String) (base xs : List String) : Type 0 where
  same : occurrences n xs ≡ occurrences n base
  once : occurrences n base ≤ 1

occurrences-enabled :
    (cfg : ScrapersConfig) (n : String)
    → is_distinct cfg.order ≡ true
    → occurrences n (enabled_order cfg) ≤ 1
unfolding enabled_order
occurrences-enabled cfg n h =
    let on : String → Bool = λ m. is_on cfg.enabled m && is_in registry m in
    subst (λ k. k ≤ 1) (sym (occurrences-select on n cfg.order))
      (if-both (λ k. k ≤ 1) (on n) _ _ (λ e. is_distinct-once n cfg.order h) (λ e. omega arith))

promote-Rearranges :
    (n : String) (priority base xs : List String)
    → is_distinct priority ≡ true
    → Rearranges n base xs
    → Rearranges n base (promote priority xs)
promote-Rearranges n priority base xs d r = record {
  same =
      occurrences-promote n priority xs (is_distinct-once n priority d)
        (omega (arith, r.same, r.once))
      ∙ r.same;
  once = r.once;
}

query-Rearranges :
    (cfg : ScrapersConfig) (title n : String)
    → is_distinct cfg.order ≡ true
    → Rearranges n (enabled_order cfg) (enabled_order_for_query cfg title)
unfolding enabled_order_for_query
query-Rearranges cfg title n h =
    let r : Rearranges n (enabled_order cfg) (enabled_order cfg) = record {
      same = refl;
      once = occurrences-enabled cfg n h;
    } in
    if-both (Rearranges n (enabled_order cfg)) (str_eq title "") _ _ (λ e. r)
      (λ e.
        if-both (Rearranges n (enabled_order cfg)) _ _ _ (λ e. r)
          (λ e. promote-Rearranges n non_latin_priority _ _ refl r))

pd-Rearranges :
    (cfg : ScrapersConfig) (title : String) (is_pd : Bool) (n : String)
    → is_distinct cfg.order ≡ true
    → Rearranges n (enabled_order cfg) (pd_aware_order cfg title is_pd)
unfolding pd_aware_order
pd-Rearranges cfg title is_pd n h =
    if-both (Rearranges n (enabled_order cfg)) _ _ _ (λ e. query-Rearranges cfg title n h)
      (λ e. promote-Rearranges n pd_priority _ _ refl (query-Rearranges cfg title n h))

-- A single name that is there is promoted to the front.
front-promote :
    (x : String) (base : List String)
    → is_in base x ≡ true
    → promote (x ∷ []) base ≡ x ∷ select (λ n. not (is_in (x ∷ []) n)) base
front-promote x base h = rw h refl

last_true : (a b c : Bool) → (a && b && c) ≡ true → c ≡ true
last_true a b c h = ground arith

-- If the configured order names no scraper twice, the chain of a book that is not from kindlebangla
-- has each enabled scraper as often as the configured order has it, whatever is promoted.
pub chain_for_source-occurrences :
    (cfg : ScrapersConfig) (source title : String) (is_pd is_recent : Bool) (n : String)
    → is_distinct cfg.order ≡ true
    → str_eq source "kindlebangla" ≡ false
    → occurrences n (chain_for_source cfg source title is_pd is_recent)
      ≡ occurrences n (enabled_order cfg)
unfolding chain_for_source
chain_for_source-occurrences cfg source title is_pd is_recent n h k = rw k (
    let base = pd_aware_order cfg title is_pd in
    let r = pd-Rearranges cfg title is_pd n h in
    let moved = promote-Rearranges n ("mobilism_books" ∷ []) (enabled_order cfg) base refl r in
    if-both (λ xs. occurrences n xs ≡ occurrences n (enabled_order cfg))
      (is_recent && not is_pd && is_in base "mobilism_books") _ _
      (λ e.
        ap (occurrences n)
          (sym (front-promote "mobilism_books" base (last_true is_recent (not is_pd) _ e)))
        ∙ moved.same)
      (λ e. r.same))

-- The names of `priority` come first, and then the others.
abbrev pub ComesFirst : List String → List String → Type 0
ComesFirst priority xs =
    (front : List String) × (rest : List String) × (xs ≡ front ++ rest)
    × All (λ n. is_in priority n ≡ true) front
    × All (λ n. is_in priority n ≡ false) rest

promote-ComesFirst : (priority base : List String) → ComesFirst priority (promote priority base)
promote-ComesFirst priority base = (
  promoted priority base,
  select (λ n. not (is_in (promoted priority base) n)) base,
  refl,
  All-in (λ n. is_in priority n ≡ true) _
      (λ n h. ground (arith, is_in-select (is_in base) priority n, h)),
  All-in (λ n. is_in priority n ≡ false) _
      (λ n h. ground (
        arith,
        is_in-select (is_in base) priority n,
        is_in-select (λ m. not (is_in (promoted priority base) m)) base n,
        h,
      )),
)

-- For a book in the public domain that is not from kindlebangla, the curated public-domain scrapers
-- come first in the chain, whatever the title and the configured order are.
pub public_domain_first :
    (cfg : ScrapersConfig) (source title : String) (is_recent : Bool)
    → str_eq source "kindlebangla" ≡ false
    → ComesFirst pd_priority (chain_for_source cfg source title true is_recent)
unfolding chain_for_source pd_aware_order
public_domain_first cfg source title is_recent k =
    rw k (ground (arith, promote-ComesFirst pd_priority (enabled_order_for_query cfg title)))
