-- ===== src/Tests/Config.antt =====
-- Numbers for `float64`, configurations and addresses that the tests share, and the theorems on
-- configurations, guards and subnets at them.
use tmap.Base.{
  List, String, ℕ, ◌*◌, ◌+◌, ◌-◌, ◌/◌, ◌≤◌, ◌≡◌, ◌↔◌, refl, true, false, ◌&&◌, some, ltb, ◌==◌,
  arith, codes, member, All,
}
use tmap.Base.Sets.{IsUnique}
use tmap.Base.Int.{pos}
use tmap.Base.Float.{Float64, Ordered, le}
use tmap.Net.Ip.{v4, is_private, is_loopback, is_multicast, is_unspecified, Ip, parse_ip}
use tmap.Net.Ipv4.{format_ipv4, parse_ipv4}
use tmap.Net.Ipv4.RoundTrip.{parse-format_ipv4}
use tmap.Net.Cidr.{IpNet, parse_cidr, net_ip, clear}
use tmap.Ippool.Config.{Config, default_config, normalized}
use tmap.Ippool.Config.Laws.{IsBounded, normalized-IsBounded, performance_rate_iff}
use tmap.Ippool.Guard.{ScopeGuard, allow_ip, allow_cidr, allow_addr, decide_net}
use tmap.Ippool.Guard.Safety.{IsAllowed, allow_ip_iff, allow_cidr_private}
use tmap.Ippool.Candidates.{generate, returned, running, sweep, mem_host, ordered}
use tmap.Ippool.Candidates.Hosts.{inside, mem_host-ordered}
use tmap.Ippool.Candidates.Output.{last_of, member-sweep, sweep_sound}
use tmap.Ippool.Candidates.Recursion.{IsLocalSweep, generate-IsLocalSweep, generate_diverges}

-- Thousandths stand in for `float64`.
instance abbrev pub thousandths : Float64 ℕ
thousandths = record {
  lit = λ n d. n * 1000 / d;
  lt = ltb;
  eq = λ a b. a == b;
  add = λ a b. a + b;
  sub = λ a b. a - b;
  mul = λ a b. a * b / 1000;
  div = λ a b. a * 1000 / b;
}

-- The order of the thousandths.
pub by_size : Ordered ℕ
by_size = record {
  le_refl = λ a. ground arith;
  le_trans = λ a b c p q. ground arith;
  le_of_not_lt = λ a b p. ground arith;
  eq_sym = λ a b p. ground arith;
  not_lt_of_le = λ a b p. ground arith;
  hundredths = λ n m p. ground arith;
  lt_hundredths = λ n m p. ground arith;
  zero_hundredths = λ n. ground arith;
  hundredths_one = λ n p. ground arith;
}

-- The default configuration, in performance mode and with no probe rate.
abbrev pub slow_config : Config ℕ
slow_config = record default_config { performance_mode = true; max_probes_per_sec = 0 }

abbrev pub home_guard : ScopeGuard
home_guard = record {
  allow_link_local = false;
  max_auto_prefix = pos 24;
  warn_prefix = pos 23;
  block_prefix = pos 16;
}

-- 192.168.1.0/30 and 192.168.0.0/22, and the host 192.168.1.1.
abbrev small_net : IpNet
small_net = record { base = 0xc0a80100; ones = 30; bits = 32 }

abbrev large_net : IpNet
large_net = record { base = 0xc0a80000; ones = 22; bits = 32 }

abbrev router : ℕ
router = 0xc0a80101

parse-format_ipv4_example : parse_ipv4 (codes (format_ipv4 router)) ≡ some router
parse-format_ipv4_example = parse-format_ipv4 router (omega arith)

normalized-IsBounded_example : IsBounded slow_config (normalized slow_config)
normalized-IsBounded_example = normalized-IsBounded slow_config refl

performance_rate_iff_example :
    (ltb 4000 (normalized slow_config).max_probes_per_sec ≡ true)
    ↔ (le slow_config.max_probes_per_sec 0 ≡ true)
performance_rate_iff_example = performance_rate_iff by_size slow_config refl refl refl

allow_ip_iff_example :
    ((allow_ip home_guard "192.168.1.1").0 ≡ true)
    ↔ ((ip : Ip) × (parse_ip "192.168.1.1" ≡ some ip) × IsAllowed home_guard ip)
allow_ip_iff_example = allow_ip_iff home_guard "192.168.1.1"

home_allowed : (allow_cidr home_guard "192.168.1.0/24" false).allowed ≡ true
unfolding allow_cidr parse_cidr codes parse_ipv4 decide_net allow_addr is_loopback net_ip
    is_multicast is_unspecified is_private
home_allowed = refl

allow_cidr_private_example :
    (n : IpNet) × (parse_cidr "192.168.1.0/24" ≡ some n)
    × (n.bits ≡ 32)
    × (16 ≤ n.ones)
    × ((x : ℕ) → clear x (32 - n.ones) ≡ n.base → is_private (v4 x) ≡ true)
allow_cidr_private_example =
    allow_cidr_private home_guard "192.168.1.0/24" refl (omega arith) (omega arith) home_allowed

mem_host-ordered_example :
    mem_host 0xc0a80102 (ordered 0xc0a80100 0xc0a80103 router)
    ≡ inside 0xc0a80100 0xc0a80103 0xc0a80102
mem_host-ordered_example = mem_host-ordered 0xc0a80100 0xc0a80103 router 0xc0a80102 (omega arith)

member-sweep_example :
    member (format_ipv4 router) (sweep home_guard router small_net (pos 0))
    ≡ (inside 0xc0a80100 (last_of small_net) router && (allow_ip home_guard (format_ipv4 router)).0)
member-sweep_example =
    member-sweep home_guard router small_net (omega arith) (pos 0) router (omega arith)
      (omega arith)

sweep_sound_example :
    IsUnique (sweep home_guard router small_net (pos 0))
    × All
        (λ s.
          (h : ℕ) × (s ≡ format_ipv4 h)
          × (inside 0xc0a80100 (last_of small_net) h ≡ true)
          × ((allow_ip home_guard s).0 ≡ true))
        (sweep home_guard router small_net (pos 0))
sweep_sound_example = sweep_sound home_guard router small_net (omega arith) (pos 0)

generate-IsLocalSweep_example :
    (out : List String) × (generate 2 home_guard router large_net (pos 0) ≡ returned out)
    × IsLocalSweep home_guard router (pos 0) out
generate-IsLocalSweep_example =
    generate-IsLocalSweep 0 home_guard router large_net (pos 0) (omega arith) refl refl
      (omega arith)

generate_diverges_example : generate 1000 home_guard 0x0a000001 large_net (pos 0) ≡ running
generate_diverges_example = generate_diverges 1000 home_guard 0x0a000001 large_net (pos 0) refl refl
