-- ===== src/Federation/Address/Blocks.antt =====
-- The blocked addresses as the address blocks of the registries, written as one number and a prefix.
use mls_ds.Prelude.{
  ℕ, ◌+◌, ◌*◌, ◌/◌, ◌^◌, ◌<◌, ◌≡◌, refl, Bool, true, false, ◌&&◌, ◌||◌, ◌==◌, leb, List, [], ◌∷◌,
  exists, arith,
}
use mls_ds.Prelude.Bits.{bit_and_top7, bit_and_top8, bit_and_top10}
use mls_ds.Federation.Address.{
  Ipv4Addr, Ipv6Addr, IpAddr, v4, v6, is_private_ip, is_only_last, is_unspecified_v4,
  is_link_local_v4, is_multicast_v4, is_unique_local_v6, is_multicast_v6, is_unicast_link_local_v6,
}

-- The network order number of an address.
abbrev pub to_u32 : Ipv4Addr → ℕ
to_u32 ip = ((ip.a * 256 + ip.b) * 256 + ip.c) * 256 + ip.d

abbrev pub to_u128 : Ipv6Addr → ℕ
to_u128 ip =
    ((((((ip.s0 * 65536 + ip.s1) * 65536 + ip.s2) * 65536 + ip.s3) * 65536 + ip.s4) * 65536 + ip.s5)
          * 65536
        + ip.s6)
      * 65536
    + ip.s7

abbrev pub IsOctets : Ipv4Addr → Type 0
IsOctets ip = (ip.a < 256) × (ip.b < 256) × (ip.c < 256) × (ip.d < 256)

abbrev pub IsSegments : Ipv6Addr → Type 0
IsSegments ip =
    (ip.s0 < 65536)
    × (ip.s1 < 65536)
    × (ip.s2 < 65536)
    × (ip.s3 < 65536)
    × (ip.s4 < 65536)
    × (ip.s5 < 65536)
    × (ip.s6 < 65536)
    × (ip.s7 < 65536)

abbrev pub IsAddress : IpAddr → Type 0
IsAddress (v4 ip) = IsOctets ip
IsAddress (v6 ip) = IsSegments ip

-- The leading bits of a block, and how many bits follow them.
abbrev pub is_in_block : ℕ → ℕ × ℕ → Bool
is_in_block n (leading, rest) = n / 2 ^ rest == leading

-- 127.0.0.0/8, 10.0.0.0/8, 172.16.0.0/12, 192.168.0.0/16, 0.0.0.0/32, 169.254.0.0/16, 224.0.0.0/4
abbrev pub blocks_v4 : List (ℕ × ℕ)
blocks_v4 =
    (127, 24) ∷ (10, 24) ∷ (0xac1, 20) ∷ (0xc0a8, 16) ∷ (0, 0) ∷ (0xa9fe, 16) ∷ (14, 28) ∷ []

-- ::1/128, ::/128, fc00::/7, ff00::/8, fe80::/10
abbrev pub blocks_v6 : List (ℕ × ℕ)
blocks_v6 = (1, 0) ∷ (0, 0) ∷ (126, 121) ∷ (255, 120) ∷ (0x3fa, 118) ∷ []

unfoldable pub is_blocked : IpAddr → Bool
unfolding exists
is_blocked (v4 ip) = exists (is_in_block (to_u32 ip)) blocks_v4
is_blocked (v6 ip) = exists (is_in_block (to_u128 ip)) blocks_v6

-- The number of octets and of segments that the leading bits of a block fix.
module _ (ip : Ipv4Addr) (h : IsOctets ip) where
  slash8 : (n : ℕ) → (to_u32 ip / 2 ^ 24 == n) ≡ (ip.a == n)
  slash8 n = ground arith

  slash12 : (to_u32 ip / 2 ^ 20 == 0xac1) ≡ (ip.a == 172 && leb 16 ip.b && leb ip.b 31)
  slash12 = ground arith

  slash16 : (m n : ℕ) → n < 256 → (to_u32 ip / 2 ^ 16 == m * 256 + n) ≡ (ip.a == m && ip.b == n)
  slash16 m n k = ground arith

  slash4 : (to_u32 ip / 2 ^ 28 == 14) ≡ (leb 224 ip.a && leb ip.a 239)
  slash4 = ground arith

  zero_v4 : (to_u32 ip / 2 ^ 0 == 0) ≡ is_unspecified_v4 ip
  zero_v4 = ground arith

word_== : (q r n : ℕ) → r < 65536 → n < 65536 → (q * 65536 + r == n) ≡ (q == 0 && r == n)
word_== q r n h k = ground arith

only_last :
    (ip : Ipv6Addr) (n : ℕ)
    → IsSegments ip
    → n < 65536
    → (to_u128 ip / 2 ^ 0 == n) ≡ is_only_last n ip
only_last ip n (h0, h1, h2, h3, h4, h5, h6, h7) k =
    let e : to_u128 ip / 2 ^ 0 ≡ to_u128 ip = omega arith in
    rw
      (
        e,
        word_== _ ip.s7 n h7 k,
        word_== _ ip.s6 0 h6 (omega arith),
        word_== _ ip.s5 0 h5 (omega arith),
        word_== _ ip.s4 0 h4 (omega arith),
        word_== _ ip.s3 0 h3 (omega arith),
        word_== _ ip.s2 0 h2 (omega arith),
        word_== _ ip.s1 0 h1 (omega arith),
      )
      refl

regroup4 : (a b c d : Bool) → (a || b || c || d) ≡ (a || (b || (c || (d || false))))
regroup4 true b c d = refl
regroup4 false true c d = refl
regroup4 false false true d = refl
regroup4 false false false true = refl
regroup4 false false false false = refl

regroup5 : (a b c d e : Bool) → (a || b || c || d || e) ≡ (a || (b || (c || (d || (e || false)))))
regroup5 true b c d e = refl
regroup5 false b c d e = regroup4 b c d e

regroup7 :
    (a b c d e f g : Bool)
    → (a || (b || c || d) || e || f || g) ≡ (a || (b || (c || (d || (e || (f || (g || false)))))))
regroup7 true b c d e f g = refl
regroup7 false true c d e f g = refl
regroup7 false false true d e f g = refl
regroup7 false false false d e f g = regroup4 d e f g

blocked_v4 : (ip : Ipv4Addr) → IsOctets ip → is_private_ip (v4 ip) ≡ is_blocked (v4 ip)
unfolding is_private_ip is_blocked
blocked_v4 ip h =
    rw
      (
        slash8 ip h 127,
        slash8 ip h 10,
        slash12 ip h,
        slash16 ip h 192 168 (omega arith),
        zero_v4 ip h,
        slash16 ip h 169 254 (omega arith),
        slash4 ip h,
      )
      (regroup7 (ip.a == 127) (ip.a == 10) (ip.a == 172 && leb 16 ip.b && leb ip.b 31)
        (ip.a == 192 && ip.b == 168) (is_unspecified_v4 ip) (is_link_local_v4 ip)
        (is_multicast_v4 ip))

module _ (ip : Ipv6Addr) (h : IsSegments ip) where
  unique_local : (to_u128 ip / 2 ^ 121 == 126) ≡ is_unique_local_v6 ip
  unique_local =
      let e : to_u128 ip / 2 ^ 121 ≡ ip.s0 / 512 = omega arith in
      rw (e, bit_and_top7 ip.s0 h.0) ground arith

  multicast : (to_u128 ip / 2 ^ 120 == 255) ≡ is_multicast_v6 ip
  multicast =
      let e : to_u128 ip / 2 ^ 120 ≡ ip.s0 / 256 = omega arith in
      rw (e, bit_and_top8 ip.s0 h.0) ground arith

  link_local : (to_u128 ip / 2 ^ 118 == 0x3fa) ≡ is_unicast_link_local_v6 ip
  link_local =
      let e : to_u128 ip / 2 ^ 118 ≡ ip.s0 / 64 = omega arith in
      rw (e, bit_and_top10 ip.s0 h.0) ground arith

-- An address is refused exactly where its number lies in one of the listed blocks, for four octets
-- and for eight segments of sixteen bits.
pub is_private_ip-is_blocked : (ip : IpAddr) → IsAddress ip → is_private_ip ip ≡ is_blocked ip
unfolding is_private_ip is_blocked
is_private_ip-is_blocked (v4 ip) h = blocked_v4 ip h
is_private_ip-is_blocked (v6 ip) h =
    rw
      (
        only_last ip 1 h (omega arith),
        only_last ip 0 h (omega arith),
        unique_local ip h,
        multicast ip h,
        link_local ip h,
      )
      (regroup5 (is_only_last 1 ip) (is_only_last 0 ip) (is_unique_local_v6 ip) (is_multicast_v6 ip)
        (is_unicast_link_local_v6 ip))
