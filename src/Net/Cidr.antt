-- ===== src/Net/Cidr.antt =====
-- `net.ParseCIDR`, `net.CIDRMask`, and the text and the addresses of a network.
pub mod Upper
use Prim.Native.String.{slice, len}
use text.Mathlib.Text.{find?}
use tmap.Base.{
  ℕ, ◌+◌, ◌-◌, ◌*◌, ◌/◌, ◌%◌, ◌^◌, Bool, not, ◌&&◌, ◌||◌, Option, none, some, List, [], ◌∷◌, String,
  ◌<>◌, if◌then◌else◌, ltb, leb, ◌==◌, codes, ◌≡◌, refl,
}
use tmap.Net.Ipv4.{parse_ipv4, format_ipv4, byte_text, is_digit}
use tmap.Net.Ipv6.{parse_ipv6}
use tmap.Net.Ip.{Ip, v4, v6, parse_ip}

-- A network: its address with the host bits cleared, the length of its prefix, and whether the
-- address has 32 or 128 bits.
pub record IpNet : Type 0 where
  pub base : ℕ
  pub ones : ℕ
  pub bits : ℕ

-- `IP.Mask`
abbrev pub clear : ℕ → ℕ → ℕ
clear v host_bits = v / 2 ^ host_bits * 2 ^ host_bits

-- A decimal number below 0xFFFFFF that is the whole text.
pub dtoi : List ℕ → ℕ → Option ℕ
dtoi [] n = some n
dtoi (c ∷ s) n =
    let more = dtoi s (n * 10 + (c - b'0')) in
    if is_digit c && ltb (n * 10 + (c - b'0')) 0xFFFFFF then more else none

pub prefix_number : List ℕ → Option ℕ
unfolding dtoi
prefix_number [] = none
prefix_number (c ∷ s) = dtoi (c ∷ s) 0

pub make_net : Option ℕ → Option ℕ → ℕ → Option IpNet
make_net (some v) (some n) bits =
    if leb n bits then some (record { base = clear v (bits - n); ones = n; bits = bits }) else none
make_net _ _ bits = none

-- The first `.`, `:` or `%` says how the address is read.
pub net_by : List ℕ → List ℕ → List ℕ → Option IpNet
unfolding make_net prefix_number
net_by mask addr [] = none
net_by mask addr (c ∷ rest) =
    let more = net_by mask addr rest in
    if c == b'.'
    then make_net (parse_ipv4 addr) (prefix_number mask) 32
    else if c == b':'
    then make_net (parse_ipv6 addr) (prefix_number mask) 128
    else if c == b'%'
    then none
    else more

unfoldable pub parse_cidr : String → Option IpNet
unfolding net_by
parse_cidr s = elim (find? s "/") [
  | none ↦ none
  | some i ↦ let addr = codes (slice s 0 i) in net_by (codes (slice s (i + 1) (len s))) addr addr
]

-- `IPNet.IP`, by `To4`.
unfoldable pub net_ip : IpNet → Ip
net_ip n =
    if n.bits == 32
    then v4 n.base
    else if n.base / 2 ^ 32 == 0xffff
    then v4 (n.base % 2 ^ 32)
    else v6 n.base

-- `IPNet.String` of an IPv4 network.
unfoldable pub net_text : ℕ → ℕ → String
unfolding byte_text
net_text base ones = format_ipv4 base <> ("/" <> byte_text ones)

home : parse_cidr "192.168.1.20/24" ≡ some (record { base = 0xc0a80100; ones = 24; bits = 32 })
unfolding parse_cidr codes parse_ipv4
home = refl

too_long : parse_cidr "10.0.0.0/33" ≡ none
unfolding parse_cidr codes parse_ipv4
too_long = refl

ten_net : net_text 0x0a000000 8 ≡ "10.0.0.0/8"
unfolding net_text format_ipv4
ten_net = refl

-- The address before the slash, the first result of `net.ParseCIDR` where that succeeds.
unfoldable pub cidr_ip : String → Option Ip
cidr_ip s = elim (find? s "/") [ none ↦ none | some i ↦ parse_ip (slice s 0 i) ]

-- `IPNet.String`, with the text of a network that is no IPv4 one.
unfoldable pub net_string : (IpNet → String) → IpNet → String
unfolding net_text
net_string ipv6_text n =
    if n.bits == 32
    then net_text n.base n.ones
    else if n.base / 2 ^ 32 == 0xffff
    then net_text (n.base % 2 ^ 32) (n.ones - 96)
    else ipv6_text n

-- `IPNet.Contains`
unfoldable pub net_contains : IpNet → Ip → Bool
net_contains n (v4 x) =
    (n.bits == 32 && clear x (32 - n.ones) == n.base)
    || (n.bits == 128 && (n.base / 2 ^ 32 == 0xffff && clear x (128 - n.ones) == n.base % 2 ^ 32))
net_contains n (v6 x) =
    n.bits == 128 && (not (n.base / 2 ^ 32 == 0xffff) && clear x (128 - n.ones) == n.base)
