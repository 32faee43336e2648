-- ===== src/Federation/Address.antt =====
-- federation/resolver.rs: the addresses to which no request goes. An address is what `std::net` keeps of
-- it, four octets or eight segments, and its tests are those of `std::net`.
pub mod Blocks
use Prim.Native.Nat.{bit_and}
use mls_ds.Prelude.{ℕ, Bool, ◌&&◌, ◌||◌, ◌==◌, leb}

pub record Ipv4Addr : Type 0 where
  pub a : ℕ
  pub b : ℕ
  pub c : ℕ
  pub d : ℕ

pub record Ipv6Addr : Type 0 where
  pub s0 : ℕ
  pub s1 : ℕ
  pub s2 : ℕ
  pub s3 : ℕ
  pub s4 : ℕ
  pub s5 : ℕ
  pub s6 : ℕ
  pub s7 : ℕ

pub data IpAddr : Type 0 where
  v4 : Ipv4Addr → IpAddr
  v6 : Ipv6Addr → IpAddr

-- `is_loopback`, `is_private`, `is_unspecified`, `is_link_local` and `is_multicast` of an `Ipv4Addr`
abbrev pub is_loopback_v4 : Ipv4Addr → Bool
is_loopback_v4 ip = ip.a == 127

abbrev pub is_private_v4 : Ipv4Addr → Bool
is_private_v4 ip =
    ip.a == 10 || (ip.a == 172 && leb 16 ip.b && leb ip.b 31) || (ip.a == 192 && ip.b == 168)

abbrev pub is_unspecified_v4 : Ipv4Addr → Bool
is_unspecified_v4 ip = ip.a == 0 && ip.b == 0 && ip.c == 0 && ip.d == 0

abbrev pub is_link_local_v4 : Ipv4Addr → Bool
is_link_local_v4 ip = ip.a == 169 && ip.b == 254

abbrev pub is_multicast_v4 : Ipv4Addr → Bool
is_multicast_v4 ip = leb 224 ip.a && leb ip.a 239

-- The last segment alone differs from the unspecified address.
abbrev pub is_only_last : ℕ → Ipv6Addr → Bool
is_only_last n ip =
    ip.s0 == 0
    && ip.s1 == 0
    && ip.s2 == 0
    && ip.s3 == 0
    && ip.s4 == 0
    && ip.s5 == 0
    && ip.s6 == 0
    && ip.s7 == n

-- `is_unique_local`, `is_multicast` and `is_unicast_link_local` of an `Ipv6Addr`
abbrev pub is_unique_local_v6 : Ipv6Addr → Bool
is_unique_local_v6 ip = bit_and ip.s0 0xfe00 == 0xfc00

abbrev pub is_multicast_v6 : Ipv6Addr → Bool
is_multicast_v6 ip = bit_and ip.s0 0xff00 == 0xff00

abbrev pub is_unicast_link_local_v6 : Ipv6Addr → Bool
is_unicast_link_local_v6 ip = bit_and ip.s0 0xffc0 == 0xfe80

unfoldable pub is_private_ip : IpAddr → Bool
is_private_ip (v4 ip) =
    is_loopback_v4 ip
    || is_private_v4 ip
    || is_unspecified_v4 ip
    || is_link_local_v4 ip
    || is_multicast_v4 ip
is_private_ip (v6 ip) =
    is_only_last 1 ip
    || is_only_last 0 ip
    || is_unique_local_v6 ip
    || is_multicast_v6 ip
    || is_unicast_link_local_v6 ip
