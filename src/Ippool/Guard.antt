-- ===== src/Ippool/Guard.antt =====
-- apps/desktop/ippool/scope_guard.go. A message is kept as the format that prints it, with its
-- arguments; `silent` is the empty text.
pub mod Safety
use tmap.Base.{
  ℕ, ◌-◌, ◌^◌, Bool, true, false, ◌&&◌, ◌||◌, not, Option, none, some, String, if◌then◌else◌, leb,
  ◌==◌,
}
use tmap.Base.Int.{ℤ, pos, leb_ℤ}
use tmap.Net.Ip.{
  Ip, parse_ip, is_loopback, is_multicast, is_unspecified, is_private, is_link_local_unicast,
}
use tmap.Net.Cidr.{IpNet, parse_cidr, net_ip}
use tmap.Ippool.Config.{Config}

pub data Message : Type 0 where
  silent : Message
  not_an_ip loopback_target multicast_target link_local_target public_target : Message
  invalid_cidr : String → Message
  only_ipv4 : Message
  confirmed_scope needs_confirmation : ℕ → ℕ → Message
  large_scope : ℕ → ℕ → ℤ → Message
  rejected_seed rejected_target : String → Message → Message

pub record ScopeGuard : Type 0 where
  pub allow_link_local : Bool
  pub max_auto_prefix : ℤ
  pub warn_prefix : ℤ
  pub block_prefix : ℤ

unfoldable pub new_scope_guard : {F : Type 0} → Config F → ScopeGuard
new_scope_guard cfg = record {
  allow_link_local = false;
  max_auto_prefix = cfg.max_auto_prefix;
  warn_prefix = cfg.warn_prefix;
  block_prefix = cfg.block_prefix;
}

-- `AllowIP` on the address itself.
unfoldable pub allow_addr : ScopeGuard → Ip → Bool × Message
allow_addr g ip =
    if is_loopback ip
    then (false, loopback_target)
    else if is_multicast ip || is_unspecified ip
    then (false, multicast_target)
    else if is_private ip
    then (true, silent)
    else if g.allow_link_local && is_link_local_unicast ip
    then (true, silent)
    else if is_link_local_unicast ip
    then (false, link_local_target)
    else (false, public_target)

abbrev pub allow_parsed : ScopeGuard → Option Ip → Bool × Message
allow_parsed g none = (false, not_an_ip)
allow_parsed g (some ip) = allow_addr g ip

unfoldable pub allow_ip : ScopeGuard → String → Bool × Message
allow_ip g s = allow_parsed g (parse_ip s)

pub record CidrDecision : Type 0 where
  pub allowed : Bool
  pub warning : Message
  pub reason : Message
  pub prefix : ℕ

-- The prefix of an IPv4 network is at most 32.
unfoldable pub host_count : ℕ → ℕ
host_count ones = if leb 31 ones then 2 ^ (32 - ones) else 2 ^ (32 - ones) - 2

-- The decision on a network, once the text is read.
unfoldable pub decide_net : ScopeGuard → Bool → IpNet → CidrDecision
unfolding host_count
decide_net g confirmed n =
    let ones = n.ones in
    let verdict = allow_addr g (net_ip n) in
    if not (n.bits == 32)
    then record { allowed = false; warning = silent; reason = only_ipv4; prefix = ones }
    else if not verdict.0
    then record { allowed = false; warning = silent; reason = verdict.1; prefix = ones }
    else if leb_ℤ g.max_auto_prefix (pos ones)
    then record { allowed = true; warning = silent; reason = silent; prefix = ones }
    else if leb_ℤ (pos ones) g.block_prefix
    then (if confirmed
        then record {
          allowed = true;
          warning = confirmed_scope ones (host_count ones);
          reason = silent;
          prefix = ones;
        }
        else record {
          allowed = false;
          warning = silent;
          reason = needs_confirmation ones (host_count ones);
          prefix = ones;
        })
    else record {
      allowed = true;
      warning = large_scope ones (host_count ones) g.max_auto_prefix;
      reason = silent;
      prefix = ones;
    }

abbrev decide_parsed : ScopeGuard → Bool → String → Option IpNet → CidrDecision
decide_parsed g confirmed cidr none = record {
  allowed = false;
  warning = silent;
  reason = invalid_cidr cidr;
  prefix = 0;
}
decide_parsed g confirmed cidr (some n) = decide_net g confirmed n

unfoldable pub allow_cidr : ScopeGuard → String → Bool → CidrDecision
allow_cidr g cidr confirmed = decide_parsed g confirmed cidr (parse_cidr cidr)
