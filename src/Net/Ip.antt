-- ===== src/Net/Ip.antt =====
-- `net.IP`: the reading of a text, and the tests for the ranges of addresses. An IPv6 address that
-- maps an IPv4 address is that address for all of them, as by `To4`.
use tmap.Base.{
  ℕ, ◌+◌, ◌*◌, ◌/◌, ◌%◌, ◌^◌, Bool, ◌&&◌, ◌||◌, Option, none, some, List, [], ◌∷◌, String,
  if◌then◌else◌, ◌==◌, codes, ◌≡◌, refl,
}
use tmap.Net.Ipv4.{parse_ipv4}
use tmap.Net.Ipv6.{parse_ipv6}

pub data Ip : Type 0 where
  v4 : ℕ → Ip
  v6 : ℕ → Ip

abbrev pub of_ipv4 : Option ℕ → Option Ip
of_ipv4 none = none
of_ipv4 (some n) = some (v4 n)

-- `To4` on the 16 bytes.
abbrev pub of_ipv6 : Option ℕ → Option Ip
of_ipv6 none = none
of_ipv6 (some n) = some (if n / 2 ^ 32 == 0xffff then v4 (n % 2 ^ 32) else v6 n)

-- The first `.`, `:` or `%` says how the text is read.
pub parse_by : List ℕ → List ℕ → Option Ip
parse_by s [] = none
parse_by s (c ∷ rest) =
    let more = parse_by s rest in
    if c == b'.'
    then of_ipv4 (parse_ipv4 s)
    else if c == b':'
    then of_ipv6 (parse_ipv6 s)
    else if c == b'%'
    then none
    else more

-- `net.ParseIP`
unfoldable pub parse_ip : String → Option Ip
unfolding parse_by
parse_ip s = parse_by (codes s) (codes s)

unfoldable pub is_loopback : Ip → Bool
is_loopback (v4 n) = n / 2 ^ 24 == 127
is_loopback (v6 n) = n == 1

unfoldable pub is_unspecified : Ip → Bool
is_unspecified (v4 n) = n == 0
is_unspecified (v6 n) = n == 0

unfoldable pub is_multicast : Ip → Bool
is_multicast (v4 n) = n / 2 ^ 28 == 14
is_multicast (v6 n) = n / 2 ^ 120 == 0xff

unfoldable pub is_private : Ip → Bool
is_private (v4 n) = n / 2 ^ 24 == 10 || n / 2 ^ 20 == 172 * 16 + 1 || n / 2 ^ 16 == 192 * 256 + 168
is_private (v6 n) = n / 2 ^ 121 == 0x7e

unfoldable pub is_link_local_unicast : Ip → Bool
is_link_local_unicast (v4 n) = n / 2 ^ 16 == 169 * 256 + 254
is_link_local_unicast (v6 n) = n / 2 ^ 118 == 0x3fa

unfoldable pub is_link_local_multicast : Ip → Bool
is_link_local_multicast (v4 n) = n / 2 ^ 8 == 224 * 65536
is_link_local_multicast (v6 n) = n / 2 ^ 112 % 16 == 2 && n / 2 ^ 120 == 0xff

home : parse_ip "192.168.1.20" ≡ some (v4 0xc0a80114)
unfolding parse_ip codes parse_ipv4
home = refl
