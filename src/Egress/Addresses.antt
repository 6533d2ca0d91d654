-- ===== src/Egress/Addresses.antt =====
-- Which addresses are public.
use backupchief_agent.Base.{
  ℕ, ◌+◌, ◌*◌, ◌/◌, ◌^◌, ◌<◌, Bool, true, false, not, ◌&&◌, ◌||◌, ◌≡◌, Bool-cases, inl, inr, leb,
  ◌==◌, arith, List, [], ◌∷◌, All, Text,
}
use backupchief_agent.Egress.{
  dotted, v4, v6, contains, public_unmapped, public, is_global_unicast, in_any, blocked_networks,
  unmap,
}

abbrev pub any_of : List Bool → Bool
any_of [] = false
any_of (b ∷ bs) = b || any_of bs

-- The IPv4 addresses `a.b.c.d` of special use, by their first three octets: this network, private
-- and shared networks, loopback, link-local, protocol assignments, documentation, the relays of
-- 6to4, benchmarks, and all from 224.0.0.0 on.
abbrev pub special_tests : ℕ → ℕ → ℕ → List Bool
special_tests a b c =
    (a == 0)
    ∷ (a == 10)
    ∷ (a == 100 && (leb 64 b && leb b 127))
    ∷ (a == 127)
    ∷ (a == 169 && b == 254)
    ∷ (a == 172 && (leb 16 b && leb b 31))
    ∷ (a == 192 && (b == 0 && c == 0))
    ∷ (a == 192 && (b == 0 && c == 2))
    ∷ (a == 192 && (b == 88 && c == 99))
    ∷ (a == 192 && b == 168)
    ∷ (a == 198 && (b == 18 || b == 19))
    ∷ (a == 198 && (b == 51 && c == 100))
    ∷ (a == 203 && (b == 0 && c == 113))
    ∷ leb 224 a
    ∷ []

abbrev pub is_special : ℕ → ℕ → ℕ → Bool
is_special a b c = any_of (special_tests a b c)

none_of : (bs : List Bool) → any_of bs ≡ false → All (λ b. b ≡ false) bs
none_of [] h = tt
none_of (b ∷ bs) h = (ground arith, none_of bs (ground arith))

unicast_of :
    (a b c d : ℕ)
    → b < 256
    → c < 256
    → d < 256
    → (a == 0) ≡ false
    → (a == 127) ≡ false
    → (a == 169 && b == 254) ≡ false
    → leb 224 a ≡ false
    → is_global_unicast (v4 (dotted a b c d)) ≡ true
unfolding is_global_unicast
unicast_of a b c d hb hc hd zero_net loopback link multi = ground arith

module _ (a b c d : ℕ) (ha : a < 256) (hb : b < 256) (hc : c < 256) (hd : d < 256) where
  octet : (k : ℕ) → (dotted a b c d / 2 ^ 24 == k) ≡ (a == k)
  octet k = ground arith

  two_octets : (i j : ℕ) → j < 256 → (dotted a b c d / 2 ^ 16 == i * 256 + j) ≡ (a == i && b == j)
  two_octets i j h = ground arith

  three_octets :
      (i j k : ℕ)
      → j < 256
      → k < 256
      → (dotted a b c d / 2 ^ 8 == (i * 256 + j) * 256 + k) ≡ (a == i && (b == j && c == k))
  three_octets i j k hj hk = ground arith

  shared : (dotted a b c d / 2 ^ 22 == 401) ≡ (a == 100 && (leb 64 b && leb b 127))
  shared = ground arith

  private : (dotted a b c d / 2 ^ 20 == 2753) ≡ (a == 172 && (leb 16 b && leb b 31))
  private = ground arith

  benchmark : (dotted a b c d / 2 ^ 17 == 25353) ≡ (a == 198 && (b == 18 || b == 19))
  benchmark = ground arith

  multicast : (dotted a b c d / 2 ^ 29 == 7) ≡ leb 224 a
  multicast = ground arith

  in_blocked : in_any blocked_networks (v4 (dotted a b c d)) ≡ is_special a b c
  unfolding in_any contains
  in_blocked = rw (
    octet 0,
    octet 10,
    shared,
    octet 127,
    two_octets 169 254 (omega arith),
    private,
    three_octets 192 0 0 (omega arith) (omega arith),
    three_octets 192 0 2 (omega arith) (omega arith),
    three_octets 192 88 99 (omega arith) (omega arith),
    two_octets 192 168 (omega arith),
    benchmark,
    three_octets 198 51 100 (omega arith) (omega arith),
    three_octets 203 0 113 (omega arith) (omega arith),
    multicast,
  )

  unicast : is_special a b c ≡ false → is_global_unicast (v4 (dotted a b c d)) ≡ true
  unicast free =
      let all_free = none_of (special_tests a b c) free in
      unicast_of a b c d hb hc hd all_free.0 all_free.1.1.1.0 all_free.1.1.1.1.0
        all_free.1.1.1.1.1.1.1.1.1.1.1.1.1.0

  -- An IPv4 address is public exactly if it is not one of special use.
  pub public_v4 : public (v4 (dotted a b c d)) ≡ not (is_special a b c)
  unfolding public public_unmapped unmap
  public_v4 = elim (Bool-cases (is_special a b c)) [
    | inl special ↦ rw (in_blocked, special) (ground arith)
    | inr free ↦ rw (in_blocked, free, unicast free)
  ]

-- An IPv4 address inside of IPv6 is judged as the IPv4 address, whatever its zone.
pub public_mapped :
    (n : ℕ) (zone : Text) → n < 2 ^ 32 → public (v6 (0xffff * 2 ^ 32 + n) zone) ≡ public (v4 n)
unfolding public unmap
public_mapped n zone h = ground arith
