-- ===== src/Security/Urls/Networks.antt =====
-- Membership in a network as a range of addresses.
use native.Mathlib.Nat.{
  div-mul-le_self, div-eq_of_lt-le, mod-lt, div-add-mod, mul_comm, add-mul, one-mul,
}
use biblichor.Prelude.{
  ℕ, ◌+◌, ◌*◌, ◌/◌, ◌<◌, ◌≤◌, ◌≡◌, refl, ap, ◌∙◌, Bool, true, ◌&&◌, ◌||◌, ◌%◌, List, [], ◌∷◌, ◌==◌,
  any, leb, ltb, arith,
}
use biblichor.Security.Urls.{
  v4, v6, Network, size, is_member, is_blocked, blocked_networks_v4, blocked_networks_v6,
}

-- The address of the network has nothing but zeros after the prefix.
abbrev is_aligned : ℕ → Network → Bool
is_aligned width net =
    ltb 0 (size width net) && (net.address / size width net * size width net == net.address)

abbrev are_aligned : ℕ → List Network → Bool
are_aligned width [] = true
are_aligned width (net ∷ nets) = is_aligned width net && are_aligned width nets

abbrev pub in_range : ℕ → Network → ℕ → Bool
in_range width net n = leb net.address n && ltb n (net.address + size width net)

both_true : (a b : Bool) → (a && b) ≡ true → (a ≡ true) × (b ≡ true)
both_true a b h = (ground (arith, h), ground (arith, h))

-- The masked number lies at most `d` below the number.
below_next : (n d : ℕ) → 0 < d → n < n / d * d + d
below_next n d pos =
    let exact : n / d * d + n % d ≡ n =
      ap (λ x. x + n % d) (mul_comm (n / d) d) ∙ div-add-mod n d in
    omega (arith, exact, mod-lt n pos)

masked_in_range : (q d n : ℕ) → 0 < d → q * d ≤ n → n < q * d + d → n / d * d ≡ q * d
masked_in_range q d n pos h k =
    let top : (q + 1) * d ≡ q * d + d = add-mul q 1 d ∙ ap (λ x. q * d + x) (one-mul d) in
    ap (λ x. x * d) (div-eq_of_lt-le {k = q} d h (omega (arith, top, k)))

-- Masking is a test of a range.
masked_range : (a d q n : ℕ) → 0 < d → q * d ≡ a → ((n / d) * d == a) ≡ (leb a n && ltb n (a + d))
masked_range a d q n pos h =
    ground (arith, div-mul-le_self n d, below_next n d pos, masked_in_range q d n pos, h)

is_member-in_range :
    (width : ℕ) (net : Network) (n : ℕ)
    → is_aligned width net ≡ true
    → is_member width net n ≡ in_range width net n
is_member-in_range width net n h =
    masked_range net.address (size width net) (net.address / size width net) n (ground (arith, h))
      (ground (arith, h))

-- The networks test as their ranges do.
any-in_range :
    (width : ℕ) (nets : List Network) (n : ℕ)
    → are_aligned width nets ≡ true
    → any (λ net. is_member width net n) nets ≡ any (λ net. in_range width net n) nets
any-in_range width [] n h = refl
any-in_range width (net ∷ nets) n h =
    let (a, b) = both_true _ _ h in
    ap (λ b. b || any (λ net. is_member width net n) nets) (is_member-in_range width net n a)
    ∙ ap (λ b. in_range width net n || b) (any-in_range width nets n b)

pub blocked_v4-in_range :
    (n : ℕ) → is_blocked (v4 n) ≡ any (λ net. in_range 32 net n) blocked_networks_v4
blocked_v4-in_range n = any-in_range 32 blocked_networks_v4 n refl

pub blocked_v6-in_range :
    (n : ℕ) → is_blocked (v6 n) ≡ any (λ net. in_range 128 net n) blocked_networks_v6
blocked_v6-in_range n = any-in_range 128 blocked_networks_v6 n refl
