-- ===== src/Discovery/Scope.antt =====
-- agent/internal/discovery/scope.go: the scope of a scan, its limits and its hosts. The reason of a
-- refusal and the message of a warning are kept as their formats with the arguments.
pub mod Hosts
pub mod Safety
use tmap.Base.{
  ℕ, zero, suc, ◌+◌, ◌-◌, ◌*◌, ◌/◌, ◌%◌, ◌^◌, Bool, true, false, not, ◌&&◌, ◌||◌, Option, none,
  some, List, [], ◌∷◌, ◌++◌, map, String, str_eq, is_empty, to_lower, trim_space, if◌then◌else◌,
  ltb, leb, ◌==◌,
}
use tmap.Net.Ipv4.{format_ipv4}
use tmap.Net.Ip.{Ip, v4, v6, parse_ip, is_loopback, is_link_local_unicast, is_link_local_multicast}
use tmap.Net.Cidr.{IpNet, parse_cidr, cidr_ip, net_ip, net_string, net_contains}

pub record ScanScope : Type 0 where
  pub requested : String
  pub cidr : String
  pub interface : String
  pub host_count : ℕ
  pub private : Bool
  pub public_allowed : Bool
  pub profile : String

-- The name and the network of the selected interface.
pub record InterfaceInfo : Type 0 where
  pub name : String
  pub cidr : String

pub data ScopeError : Type 0 where
  no_local_network : ScopeError
  invalid_network : String → ScopeError
  public_ipv6 : ScopeError
  public_scope : String → ScopeError
  too_many_hosts : String → ℕ → ScopeError

pub data Warning : Type 0 where
  ipv6_unsupported public_enabled : Warning
  many_hosts : String → ℕ → Warning

-- The three results of `ParseScope`.
pub record ScopeResult : Type 0 where
  pub scope : ScanScope
  pub warnings : List Warning
  pub err : Option ScopeError

abbrev pub max_scan_hosts : ℕ
max_scan_hosts = 65536

abbrev pub soft_warn_hosts : ℕ
soft_warn_hosts = 1024

-- The IPv6 case is the block fc00::/7.
unfoldable pub is_private_ip : Ip → Bool
is_private_ip (v4 n) =
    is_loopback (v4 n)
    || is_link_local_unicast (v4 n)
    || is_link_local_multicast (v4 n)
    || n / 2 ^ 24 == 10
    || n / 2 ^ 20 == 172 * 16 + 1
    || n / 2 ^ 16 == 192 * 256 + 168
is_private_ip (v6 n) =
    is_loopback (v6 n)
    || is_link_local_unicast (v6 n)
    || is_link_local_multicast (v6 n)
    || n / 2 ^ 121 == 0x7e

unfoldable pub scope_host_count : ℕ → ℕ → ℕ
scope_host_count ones bits =
    let host_bits = bits - ones in
    if leb host_bits 1
    then 2 ^ host_bits
    else if leb 31 host_bits
    then max_scan_hosts + 1
    else 2 ^ host_bits - 2

abbrev is_ipv4 : Option Ip → Bool
is_ipv4 (some (v4 n)) = true
is_ipv4 _ = false

abbrev is_private_parsed : Option Ip → Bool
is_private_parsed none = false
is_private_parsed (some ip) = is_private_ip ip

module _ (ipv6_text : IpNet → String) where
  -- The part of `ParseScope` for an address that is no IPv4 one.
  unfoldable pub parse_ipv6_scope : ScanScope → Bool → Option Ip → ScopeResult
  unfolding is_private_ip
  parse_ipv6_scope s allow_public ip =
      let scope = record s { host_count = 0; private = is_private_parsed ip } in
      if not scope.private && not allow_public
      then record { scope = scope; warnings = ipv6_unsupported ∷ []; err = some public_ipv6 }
      else record {
        scope = scope;
        warnings = ipv6_unsupported ∷ (if allow_public then public_enabled ∷ [] else []);
        err = none;
      }

  -- The part of `ParseScope` for an IPv4 network.
  unfoldable pub parse_ipv4_scope : ScanScope → Bool → IpNet → ScopeResult
  unfolding is_private_ip scope_host_count
  parse_ipv4_scope s allow_public n =
      let count = scope_host_count n.ones n.bits in
      let private = is_private_ip (net_ip n) in
      let scope = record s { host_count = count; private = private } in
      if not private && not allow_public
      then record { scope = scope; warnings = []; err = some (public_scope s.cidr) }
      else if ltb max_scan_hosts count
      then record { scope = scope; warnings = []; err = some (too_many_hosts s.cidr count) }
      else record {
        scope = scope;
        warnings =
            (if allow_public && not private then public_enabled ∷ [] else [])
            ++ (if ltb soft_warn_hosts count then many_hosts s.cidr count ∷ [] else []);
        err = none;
      }

  abbrev pub parse_network : ScanScope → Bool → String → Option IpNet → ScopeResult
  parse_network s allow_public cidr none = record {
    scope = s;
    warnings = [];
    err = some (invalid_network cidr);
  }
  parse_network s allow_public cidr (some n) =
      let scope = record s { cidr = net_string ipv6_text n } in
      if is_ipv4 (cidr_ip cidr)
      then parse_ipv4_scope scope allow_public n
      else parse_ipv6_scope scope allow_public (cidr_ip cidr)

  unfoldable pub parse_scope : String → String → Bool → InterfaceInfo → ScopeResult
  unfolding parse_ipv4_scope parse_ipv6_scope
  parse_scope requested profile allow_public primary =
      let asked = trim_space requested in
      let start : ScanScope = record {
        requested = asked;
        cidr = "";
        interface = primary.name;
        host_count = 0;
        private = false;
        public_allowed = allow_public;
        profile = profile;
      } in
      if is_empty asked || str_eq (to_lower asked) "auto"
      then (if is_empty primary.cidr
          then record { scope = start; warnings = []; err = some no_local_network }
          else parse_network (record start { requested = "auto" }) allow_public primary.cidr
              (parse_cidr primary.cidr))
      else parse_network start allow_public asked (parse_cidr asked)

-- The addresses from `base + start` on, `n` of them; the sums wrap.
unfoldable pub addresses_from : ℕ → ℕ → ℕ → List ℕ
addresses_from base start zero = []
addresses_from base start (suc n) = (base + start) % 2 ^ 32 ∷ addresses_from base (start + 1) n

-- The hosts of an IPv4 network, or of one that maps an IPv4 network.
unfoldable pub ipv4_hosts : ℕ → ℕ → List ℕ
unfolding addresses_from
ipv4_hosts base host_bits =
    let total = 2 ^ host_bits in
    if ltb max_scan_hosts total
    then []
    else if leb 2 host_bits
    then addresses_from base 1 (total - 2)
    else addresses_from base 0 total

unfoldable pub network_hosts : IpNet → List ℕ
unfolding ipv4_hosts
network_hosts n = elim (net_ip n) [ v4 b ↦ ipv4_hosts b (n.bits - n.ones) | v6 b ↦ [] ]

abbrev hosts_of : Option IpNet → List String
hosts_of none = []
hosts_of (some n) = map format_ipv4 (network_hosts n)

unfoldable pub hosts_in_scope : ScanScope → List String
unfolding network_hosts
hosts_in_scope s = if is_empty s.cidr then [] else hosts_of (parse_cidr s.cidr)

abbrev contains_parsed : Option IpNet → Option Ip → Bool
contains_parsed (some n) (some ip) = net_contains n ip
contains_parsed _ _ = false

unfoldable pub in_scope : ScanScope → String → Bool
in_scope s ip = not (is_empty s.cidr) && contains_parsed (parse_cidr s.cidr) (parse_ip ip)
