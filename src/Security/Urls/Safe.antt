-- ===== src/Security/Urls/Safe.antt =====
-- What an accepted URL may reach.
use mathlib.Core.Path.{subst}
use biblichor.Prelude.{
  ◌≡◌, refl, sym, ◌∙◌, Bool, true, false, Option, some, List, [], ◌∷◌, any, All, if◌then◌else◌,
  arith,
}
use biblichor.Prelude.Text.{codes, Text, same_codes, lower, strip}
use biblichor.Prelude.Result.{Result, ok, err}
use biblichor.Security.Urls.{
  UnsafeUrl, private_ip, refuse_if, Ip, v4, v6, blocked_networks_v4, blocked_networks_v6, ParsedUrl,
  Resolver, is_blocked, is_blocked_ip, is_any, check_addresses, check_resolved, check_host,
  assert_safe_url,
}
use biblichor.Security.Urls.Networks.{in_range, blocked_v4-in_range, blocked_v6-in_range}

-- The address lies outside every blocked range.
abbrev pub IsOutside : Ip → Type 0
IsOutside (v4 n) = any (λ net. in_range 32 net n) blocked_networks_v4 ≡ false
IsOutside (v6 n) = any (λ net. in_range 128 net n) blocked_networks_v6 ≡ false

outside : (ip : Ip) → is_blocked ip ≡ false → IsOutside ip
outside (v4 n) h = sym (blocked_v4-in_range n) ∙ h
outside (v6 n) h = sym (blocked_v6-in_range n) ∙ h

not_refused :
    (b : Bool) (e : UnsafeUrl) (x : Result UnsafeUrl (Unit {0}))
    → refuse_if b e x ≡ ok tt
    → (b ≡ false) × (x ≡ ok tt)
unfolding refuse_if
not_refused true e x h = cc
not_refused false e x h = (refl, h)

-- A check that is passed.
passed :
    (b : Bool) (e : UnsafeUrl) (x : Result UnsafeUrl (Unit {0}))
    → (if b then err e else x) ≡ ok tt
    → (b ≡ false) × (x ≡ ok tt)
passed true e x h = cc
passed false e x h = (refl, h)

module _ (r : Resolver) where
  -- If the text denotes an address, it lies outside.
  abbrev pub ReachesOutside : Text → Type 0
  ReachesOutside a = (ip : Ip) → r.ip_address a ≡ some ip → IsOutside ip

  unblocked : (a : Text) → is_blocked_ip r a ≡ false → ReachesOutside a
  unfolding is_blocked_ip
  unblocked a h ip e = outside ip (ground (arith, h, e))

  checked : (infos : List Text) → check_addresses r infos ≡ ok tt → All ReachesOutside infos
  checked [] h = tt
  checked (a ∷ rest) h =
      let (free, k) = passed (is_blocked_ip r a) _ (check_addresses r rest) h in
      (unblocked a free, checked rest k)

  host_checked :
      (host : Text)
      → check_host r false host ≡ ok tt
      → (is_blocked_ip r host ≡ false) × (check_resolved r (r.getaddrinfo host) ≡ ok tt)
  unfolding check_host
  host_checked host h =
      let (a, h1) = not_refused _ _ _ h in
      let (b, h2) = not_refused _ _ _ h1 in
      let (c, h3) = not_refused _ _ _ h2 in
      passed (is_blocked_ip r host) private_ip (check_resolved r (r.getaddrinfo host)) h3

  resolved_checked :
      (o : Option (List Text)) (infos : List Text)
      → check_resolved r o ≡ ok tt
      → o ≡ some infos
      → All ReachesOutside infos
  resolved_checked o infos h e = checked infos (subst (λ o. check_resolved r o ≡ ok tt) e h)

  -- A URL that is accepted without the exception for Tailscale has the scheme http or https and a
  -- host; the host, where it is an address, and every address that the host resolves to lie outside
  -- all the blocked ranges.
  pub assert_safe_url-ok :
      (url : ParsedUrl)
      → assert_safe_url r false url ≡ ok tt
      → (is_any r ("http" ∷ "https" ∷ []) (lower url.scheme) ≡ true)
        × (same_codes (strip url.hostname) (codes "") ≡ false)
        × ReachesOutside (strip url.hostname)
        × ((infos : List Text)
            → r.getaddrinfo (strip url.hostname) ≡ some infos
            → All ReachesOutside infos)
  unfolding assert_safe_url
  assert_safe_url-ok url h =
      let (scheme, h1) = not_refused _ _ _ h in
      let (host, h2) = not_refused _ _ (check_host r false (strip url.hostname)) h1 in
      let (free, h3) = host_checked (strip url.hostname) h2 in
      (ground (arith, scheme), host, unblocked _ free, λ infos e. resolved_checked _ infos h3 e)
