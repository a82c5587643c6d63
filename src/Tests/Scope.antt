-- ===== src/Tests/Scope.antt =====
-- A private network as the scope of a scan, networks that pass for private ones, and a rate limiter.
use tmap.Net.Local.{IsLocal}
use tmap.Base.{
  All, ◌≤◌, ◌≡◌, ◌↔◌, refl, true, false, none, some, List, [], ◌∷◌, String, codes, to_lower,
  trim_space,
}
use tmap.Net.Ipv4.{parse_ipv4, format_ipv4}
use tmap.Net.Ip.{
  v4, parse_ip, is_multicast, is_loopback, is_link_local_unicast, is_link_local_multicast,
}
use tmap.Net.Cidr.{IpNet, parse_cidr, cidr_ip, net_ip, net_string, net_contains}
use tmap.Discovery.Scope.{InterfaceInfo, parse_scope, is_private_ip, hosts_in_scope}
use tmap.Discovery.Scope.Safety.{IsIpv4Network, IsSafe, parse_scope-IsSafe, parse_scope_iff}
use tmap.Discovery.Policy.{is_private_cidr, is_private_target, validate_private_targets}
use tmap.Discovery.Policy.Laws.{Turn, ticks, asks, IsLocalText, validate_private_targets_iff}

abbrev ethernet : InterfaceInfo
ethernet = record { name = "eth0"; cidr = "192.168.1.20/30" }

abbrev no_text : IpNet → String
no_text n = ""

abbrev ethernet_net : IpNet
ethernet_net = record { base = 0xc0a80114; ones = 30; bits = 32 }

ethernet_read : IsIpv4Network "192.168.1.20/30" ethernet_net
unfolding parse_cidr cidr_ip parse_ip codes parse_ipv4
ethernet_read = record { address = 0xc0a80114; is_address = refl; is_network = refl; wide = refl }

two_hosts :
    hosts_in_scope (parse_scope no_text " Auto " "quick" false ethernet).scope
    ≡ "192.168.1.21" ∷ "192.168.1.22" ∷ []
unfolding parse_scope hosts_in_scope trim_space to_lower parse_cidr codes parse_ipv4 cidr_ip
    parse_ip net_ip is_loopback is_link_local_unicast is_link_local_multicast net_string format_ipv4
two_hosts = refl

parse_scope-IsSafe_example :
    IsSafe ethernet_net (parse_scope no_text " Auto " "quick" false ethernet)
unfolding parse_scope trim_space to_lower is_multicast parse_cidr codes parse_ipv4 cidr_ip parse_ip
    net_ip is_loopback is_link_local_unicast is_link_local_multicast
parse_scope-IsSafe_example =
    parse_scope-IsSafe no_text " Auto " "quick" ethernet ethernet_net ethernet_read refl refl

abbrev multicast_net : IpNet
multicast_net = record { base = 0xe0000000; ones = 16; bits = 32 }

multicast_read : IsIpv4Network "224.0.0.0/16" multicast_net
unfolding parse_cidr cidr_ip parse_ip codes parse_ipv4
multicast_read = record { address = 0xe0000000; is_address = refl; is_network = refl; wide = refl }

-- The scope is accepted and holds 224.0.1.1, which is not private.
multicast_accepted :
    ((parse_scope no_text "224.0.0.0/16" "quick" false ethernet).err ≡ none)
    × (net_contains multicast_net (v4 0xe0000101) ≡ true)
    × (is_private_ip (v4 0xe0000101) ≡ false)
unfolding parse_scope trim_space to_lower parse_cidr codes parse_ipv4 cidr_ip parse_ip net_ip
    is_loopback is_link_local_unicast is_link_local_multicast net_contains is_private_ip
multicast_accepted = (refl, refl, refl)

parse_scope_iff_example :
    ((parse_scope no_text "224.0.0.0/16" "quick" false ethernet).err ≡ none)
    ↔ (IsLocal (v4 0xe0000000) × (16 ≤ 16))
unfolding trim_space to_lower
parse_scope_iff_example =
    parse_scope_iff no_text "224.0.0.0/16" "quick" ethernet multicast_net multicast_read

-- The range holds 192.175.1.1, which is not private.
wide_range :
    (is_private_cidr "192.168.0.0/13" ≡ true)
    × (net_contains (record { base = 0xc0a80000; ones = 13; bits = 32 }) (v4 0xc0af0101) ≡ true)
    × (is_private_target (some (v4 0xc0af0101)) ≡ false)
unfolding is_private_cidr parse_cidr codes parse_ipv4 cidr_ip parse_ip is_loopback
    is_link_local_unicast is_link_local_multicast net_ip net_contains is_private_target
wide_range = (refl, refl, refl)

abbrev targets : List String
targets = "192.168.1.1" ∷ "8.8.8.8" ∷ []

validate_private_targets_iff_example :
    (validate_private_targets targets ≡ none) ↔ All IsLocalText targets
validate_private_targets_iff_example = validate_private_targets_iff targets

abbrev busy : List Turn
busy = asks ∷ asks ∷ ticks ∷ asks ∷ asks ∷ []
