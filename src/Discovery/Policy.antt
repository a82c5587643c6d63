-- ===== src/Discovery/Policy.antt =====
-- agent/internal/safety: the policy on targets and the rate limiter. A token of the limiter is a place
-- taken in its channel; the clock of the refill is a step.
pub mod Laws
use tmap.Base.{
  ℕ, suc, ◌+◌, ◌-◌, ◌*◌, ◌/◌, ◌^◌, Bool, true, false, not, ◌&&◌, ◌||◌, Option, none, some, List, [],
  ◌∷◌, String, if◌then◌else◌, ltb, ◌==◌,
}
use tmap.Base.Int.{ℤ, pos, leb_ℤ, pos_part}
use tmap.Net.Ip.{Ip, v4, v6, parse_ip, is_loopback, is_link_local_unicast, is_link_local_multicast}
use tmap.Net.Cidr.{parse_cidr, cidr_ip, net_ip, IpNet}

pub data PolicyError : Type 0 where
  scanning_disabled : PolicyError
  public_range public_subnet public_target : String → PolicyError

pub record PolicyScope : Type 0 where
  pub local_subnets : List String
  pub scanned_ranges : List String
  pub excluded_ranges : List String
  pub public_scanning : Bool

-- The IPv6 case is the block fc00::/7.
unfoldable pub is_private_target : Option Ip → Bool
is_private_target none = false
is_private_target (some ip) =
    is_loopback ip || is_link_local_unicast ip || is_link_local_multicast ip || elim ip [
      | v4 n ↦ n / 16777216 == 10 || n / 1048576 == 172 * 16 + 1 || n / 65536 == 192 * 256 + 168
      | v6 n ↦ n / 2 ^ 121 == 0x7e
    ]

unfoldable pub is_private_ip_string : String → Bool
unfolding is_private_target
is_private_ip_string s = is_private_target (parse_ip s)

abbrev private_network : Option Ip → Option IpNet → Bool
private_network ip none = false
private_network ip (some n) = is_private_target ip && is_private_target (some (net_ip n))

unfoldable pub is_private_cidr : String → Bool
unfolding is_private_target
is_private_cidr cidr = private_network (cidr_ip cidr) (parse_cidr cidr)

unfoldable pub filter_private_ips : List String → List String
unfolding is_private_ip_string
filter_private_ips [] = []
filter_private_ips (ip ∷ ips) =
    let rest = filter_private_ips ips in if is_private_ip_string ip then ip ∷ rest else rest

unfoldable pub validate_private_targets : List String → Option PolicyError
unfolding is_private_ip_string
validate_private_targets [] = none
validate_private_targets (ip ∷ ips) =
    let rest = validate_private_targets ips in
    if not (is_private_ip_string ip) then some (public_target ip) else rest

-- The first range that is not private, as an error.
unfoldable pub first_public : (String → PolicyError) → List String → Option PolicyError
unfolding is_private_cidr
first_public refuse [] = none
first_public refuse (cidr ∷ cidrs) =
    let rest = first_public refuse cidrs in
    if not (is_private_cidr cidr) then some (refuse cidr) else rest

abbrev or_else : Option PolicyError → Option PolicyError → Option PolicyError
or_else none b = b
or_else (some e) b = some e

unfoldable pub validate_scope : PolicyScope → Option PolicyError
unfolding first_public
validate_scope s =
    if s.public_scanning
    then some scanning_disabled
    else or_else (first_public public_range s.scanned_ranges)
        (first_public public_subnet s.local_subnets)

pub record RateLimiter : Type 0 where
  pub interval : ℕ
  pub burst : ℕ
  pub tokens : ℕ

abbrev at_least_one : ℤ → ℕ
at_least_one n = if leb_ℤ n (pos 0) then 1 else pos_part n

-- The channel starts full.
unfoldable pub new_rate_limiter : ℤ → ℤ → RateLimiter
new_rate_limiter rps burst = record {
  interval = 1000000000 / at_least_one rps;
  burst = at_least_one burst;
  tokens = at_least_one burst;
}

-- A tick of `refill`: the send has no effect on a full channel.
unfoldable pub refill : RateLimiter → RateLimiter
refill r = if ltb r.tokens r.burst then record r { tokens = suc r.tokens } else r

-- `Wait` where a token is there; where there is none it goes on waiting.
unfoldable pub grant : RateLimiter → Option RateLimiter
grant r = if r.tokens == 0 then none else some (record r { tokens = r.tokens - 1 })
