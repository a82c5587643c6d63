-- ===== src/Ippool/Candidates.antt =====
-- apps/desktop/ippool/candidate_generator.go. Host addresses are `uint32` numbers, and their sums
-- wrap.
pub mod Hosts
pub mod Output
pub mod Recursion
use mathlib.Core.List.{reverse, foldl}
use tmap.Base.{
  ℕ, zero, suc, ◌+◌, ◌-◌, ◌*◌, ◌/◌, ◌^◌, ◌%◌, Bool, true, false, ◌&&◌, ◌||◌, not, Option, none,
  some, List, [], ◌∷◌, ◌++◌, String, is_empty, if◌then◌else◌, ltb, leb, ◌==◌,
}
use Prim.Native.String.{compare as compare_text}
use text.Mathlib.Text.{is_lt}
use tmap.Base.Int.{ℤ, pos, ltb_ℤ, leb_ℤ, pos_part}
use tmap.Net.Ipv4.{format_ipv4}
use tmap.Net.Ip.{Ip, v4, v6, parse_ip}
use tmap.Net.Cidr.{IpNet, parse_cidr, net_text, clear}
use tmap.Ippool.Guard.{ScopeGuard, allow_ip}

abbrev pub u32 : ℕ → ℕ
u32 n = n % 2 ^ 32

-- `net.ParseIP(s).To4()`
unfoldable pub to4 : Option Ip → Option ℕ
to4 (some (v4 n)) = some n
to4 _ = none

unfoldable pub mem_host : ℕ → List ℕ → Bool
mem_host h [] = false
mem_host h (x ∷ xs) = x == h || mem_host h xs

-- The set `seen` and the slice `ordered`, the newest host first.
pub record Sweep : Type 0 where
  pub seen : List ℕ
  pub rev : List ℕ

-- The closure `add`.
unfoldable pub add_host : ℕ → ℕ → Sweep → ℕ → Sweep
add_host network broadcast s host =
    if leb host network || leb broadcast host || mem_host host s.seen
    then s
    else record { seen = host ∷ s.seen; rev = host ∷ s.rev }

-- `n` numbers from `lo` on.
unfoldable pub range_from : ℕ → ℕ → List ℕ
range_from lo zero = []
range_from lo (suc n) = lo ∷ range_from (lo + 1) n

-- `add(seed + d); add(seed - d)` for d from `d` on.
unfoldable pub neighbors : ℕ → ℕ → ℕ → List ℕ
neighbors seed d zero = []
neighbors seed d (suc n) = u32 (seed + d) ∷ u32 (seed + 2 ^ 32 - d) ∷ neighbors seed (d + 1) n

abbrev pub offset_by : ℕ → List ℕ → List ℕ
offset_by network [] = []
offset_by network (x ∷ xs) = u32 (network + x) ∷ offset_by network xs

-- The hosts that the first three loops add.
unfoldable pub preferred : ℕ → ℕ → List ℕ
unfolding range_from neighbors
preferred network seed =
    offset_by network (1 ∷ 254 ∷ 253 ∷ 252 ∷ 2 ∷ [])
    ++ (neighbors seed 1 4 ++ (seed ∷ offset_by network (range_from 100 101)))

-- The hosts in the order in which the four loops add them.
unfoldable pub visits : ℕ → ℕ → ℕ → List ℕ
visits network broadcast seed =
    preferred network seed ++ range_from (u32 (network + 1)) (broadcast - u32 (network + 1))

unfoldable pub ordered : ℕ → ℕ → ℕ → List ℕ
unfolding visits preferred range_from add_host mem_host
ordered network broadcast seed =
    reverse
      (foldl (add_host network broadcast) (record { seen = network ∷ broadcast ∷ []; rev = [] })
        (visits network broadcast seed)).rev

-- The last loop: `n` texts are out already, and a limit that is not positive is none.
unfoldable pub emit : ScopeGuard → ℤ → ℕ → List ℕ → List String
emit g limit n [] = []
emit g limit n (h ∷ hs) =
    let text = format_ipv4 h in
    let skipped = emit g limit n hs in
    let more = emit g limit (n + 1) hs in
    if not (allow_ip g text).0
    then skipped
    else if ltb_ℤ (pos 0) limit && leb_ℤ limit (pos (n + 1))
    then text ∷ []
    else text ∷ more

-- The network of the seed where `cidr` is empty or is none.
abbrev pub seed_net : ℕ → String → IpNet
seed_net seed cidr =
    let local : IpNet = record { base = clear seed 8; ones = 24; bits = 32 } in
    if is_empty cidr then local else elim (parse_cidr cidr) [ none ↦ local | some n ↦ n ]

-- The full sweep of a network that is no larger than the guard allows.
unfoldable pub sweep : ScopeGuard → ℕ → IpNet → ℤ → List String
unfolding ordered emit
sweep g seed n limit =
    let size = u32 (2 ^ (32 - n.ones)) in
    emit g limit 0 (ordered n.base (u32 (n.base + size + 2 ^ 32 - 1)) seed)

-- `ipNet.Contains` for an IPv4 address; an IPv6 network may map an IPv4 one.
abbrev pub contains_host : IpNet → ℕ → Bool
contains_host n v =
    (n.bits == 32 && clear v (32 - n.ones) == n.base)
    || (n.bits == 128 && n.base / 2 ^ 32 == 0xffff && clear v (128 - n.ones) == n.base % 2 ^ 32)

-- How a call ends: with a list; with a panic, since the address of an IPv6 network has no four bytes;
-- or not within the fuel.
pub data Outcome : Type 0 where
  returned : List String → Outcome
  panicked : Outcome
  running : Outcome

-- `GenerateFromSeed` on an IPv4 seed, with `boundedLargeSubnet`, which calls it again with the text
-- of a network.
unfoldable pub generate : ℕ → ScopeGuard → ℕ → IpNet → ℤ → Outcome
unfolding sweep
generate zero g seed n limit = running
generate (suc fuel) g seed n limit =
    let local : IpNet = record { base = clear seed 8; ones = 24; bits = 32 } in
    let within = if contains_host n local.base then local else n in
    let again = generate fuel g seed within (if leb_ℤ limit (pos 0) then pos 64 else limit) in
    if ltb_ℤ (pos n.ones) g.max_auto_prefix
    then again
    else if n.bits == 32
    then returned (sweep g seed n limit)
    else panicked

unfoldable pub generate_from_seed : ℕ → ScopeGuard → String → String → ℤ → Outcome
unfolding generate to4
generate_from_seed fuel g seed_ip cidr limit = elim (to4 (parse_ip seed_ip)) [
  | none ↦ returned []
  | some seed ↦ generate fuel g seed (seed_net seed cidr) limit
]

-- `ipLess`
unfoldable pub ip_less : String → String → Bool
unfolding to4
ip_less a b = elim (to4 (parse_ip a)) [
  | none ↦ is_lt (compare_text a b)
  | some x ↦ elim (to4 (parse_ip b)) [ none ↦ is_lt (compare_text a b) | some y ↦ ltb x y ]
]

-- `SubnetOf`
unfoldable pub subnet_of : String → ℤ → String
unfolding to4
subnet_of ip prefix = elim (to4 (parse_ip ip)) [
  | none ↦ ""
  | some v ↦
      let ones = if leb_ℤ prefix (pos 0) || ltb_ℤ (pos 32) prefix then 24 else pos_part prefix in
      net_text (clear v (32 - ones)) ones
]
