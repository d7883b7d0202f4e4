-- ===== src/Security/Urls.antt =====
-- src/endless_library/url_safety.py: which URLs may be fetched.
pub mod Networks
pub mod Safe
use biblichor.Prelude.{
  ℕ, ◌+◌, ◌-◌, ◌*◌, ◌/◌, ◌^◌, String, Bool, true, false, not, ◌&&◌, ◌||◌, Option, none, some, List,
  [], ◌∷◌, ◌==◌, any, if◌then◌else◌,
}
use mathlib.Core.List.{reverse}
use biblichor.Prelude.Text.{codes, Text, same_codes, lower, strip, has_prefix}
use biblichor.Prelude.Result.{Result, ok, err}

-- An address: an `IPv4Address` or an `IPv6Address`, as a number.
pub data Ip : Type 0 where
  v4 v6 : ℕ → Ip

-- A network: its address and the length of its prefix.
pub record Network : Type 0 where
  pub address : ℕ
  pub prefix_length : ℕ

-- The addresses that share the prefix of the network.
abbrev pub size : ℕ → Network → ℕ
size width net = 2 ^ (width - net.prefix_length)

-- `ip in net`: the masked address is the network's.
abbrev pub is_member : ℕ → Network → ℕ → Bool
is_member width net n = (n / size width net) * size width net == net.address

abbrev pub dotted : ℕ → ℕ → ℕ → ℕ → ℕ → Network
dotted a b c d p = record { address = ((a * 256 + b) * 256 + c) * 256 + d; prefix_length = p }

abbrev pub carrier_grade : Network
carrier_grade = dotted 100 64 0 0 10

abbrev pub blocked_networks_v4 : List Network
blocked_networks_v4 =
    dotted 0 0 0 0 8
    ∷ dotted 10 0 0 0 8
    ∷ carrier_grade
    ∷ dotted 127 0 0 0 8
    ∷ dotted 169 254 0 0 16
    ∷ dotted 172 16 0 0 12
    ∷ dotted 192 0 0 0 24
    ∷ dotted 192 168 0 0 16
    ∷ dotted 198 18 0 0 15
    ∷ dotted 224 0 0 0 4
    ∷ dotted 240 0 0 0 4
    ∷ []

abbrev pub blocked_networks_v6 : List Network
blocked_networks_v6 =
    record { address = 1; prefix_length = 128 }
    ∷ record { address = 64512 * 2 ^ 112; prefix_length = 7 }
    ∷ record { address = 65152 * 2 ^ 112; prefix_length = 10 }
    ∷ record { address = 65535 * 2 ^ 32; prefix_length = 96 }
    ∷ []

abbrev pub is_blocked : Ip → Bool
is_blocked (v4 n) = any (λ net. is_member 32 net n) blocked_networks_v4
is_blocked (v6 n) = any (λ net. is_member 128 net n) blocked_networks_v6

-- `t.endswith(s)`
abbrev pub ends_with : Text → Text → Bool
ends_with s t = has_prefix (reverse s) (reverse t)

-- Why a URL is refused.
pub data UnsafeUrl : Type 0 where
  unsupported_scheme no_host loopback_name internal_tld loopback_tld private_ip : UnsafeUrl
  resolves_to : Text → UnsafeUrl

-- What `urlparse` gives, where None reads as "".
pub record ParsedUrl : Type 0 where
  pub scheme : Text
  pub hostname : Text

-- Python's library: the address that a text denotes, and the addresses of a host, where `none` is a
-- `gaierror`.
pub record Resolver : Type 0 where
  pub ip_address : Text → Option Ip
  pub getaddrinfo : Text → Option (List Text)

-- `if b: raise e`
unfoldable pub refuse_if :
    Bool → UnsafeUrl → Result UnsafeUrl (Unit {0}) → Result UnsafeUrl (Unit {0})
refuse_if true e x = err e
refuse_if false e x = x

module _ (r : Resolver) where
  -- `_is_blocked_ip`
  unfoldable pub is_blocked_ip : Text → Bool
  is_blocked_ip t = elim (r.ip_address t) [ none ↦ false | some ip ↦ is_blocked ip ]

  -- The exception for Tailscale.
  abbrev pub is_carrier_grade : Option Ip → Bool
  is_carrier_grade (some (v4 n)) = is_member 32 carrier_grade n
  is_carrier_grade _ = false

  abbrev pub is_any : List String → Text → Bool
  is_any names t = any (λ s. same_codes t (codes s)) names

  -- The first address that is blocked.
  abbrev pub check_addresses : List Text → Result UnsafeUrl (Unit {0})
  check_addresses [] = ok tt
  check_addresses (a ∷ rest) =
      let after = check_addresses rest in if is_blocked_ip a then err (resolves_to a) else after

  abbrev pub check_resolved : Option (List Text) → Result UnsafeUrl (Unit {0})
  check_resolved none = ok tt
  check_resolved (some infos) = check_addresses infos

  -- The checks of a host that is not empty.
  unfoldable pub check_host : Bool → Text → Result UnsafeUrl (Unit {0})
  unfolding is_blocked_ip
  check_host allow host =
      let l = lower host in
      refuse_if
        (is_any ("localhost" ∷ "localhost.localdomain" ∷ "ip6-localhost" ∷ "ip6-loopback" ∷ []) l)
        loopback_name
        (refuse_if
          (ends_with (codes ".local") l
            || ends_with (codes ".internal") l
            || ends_with (codes ".lan") l)
          internal_tld
          (refuse_if (ends_with (codes ".localhost") l) loopback_tld (
            if is_blocked_ip host
            then (if allow && is_carrier_grade (r.ip_address host) then ok tt else err private_ip)
            else check_resolved (r.getaddrinfo host))))

  -- `assert_safe_url`
  unfoldable pub assert_safe_url : Bool → ParsedUrl → Result UnsafeUrl (Unit {0})
  unfolding check_host
  assert_safe_url allow url =
      let host = strip url.hostname in
      refuse_if (not (is_any ("http" ∷ "https" ∷ []) (lower url.scheme))) unsupported_scheme
        (refuse_if (same_codes host (codes "")) no_host (check_host allow host))
