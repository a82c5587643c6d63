-- ===== src/Discovery/Scope/Safety.antt =====
-- What `ParseScope` lets through.
use tmap.Base.{
  ℕ, ◌-◌, ◌^◌, ◌≤◌, ◌<◌, ◌≡◌, refl, codes, sym, ap, ◌∙◌, ◌↔◌, subst, Bool, true, false, not, ◌&&◌,
  ◌||◌, none, some, String, is_empty, str_eq, to_lower, trim_space, All, length, if◌then◌else◌, ltb,
  leb, arith, inl, inr, Bool-cases, passes_under, passes_under_lem,
}
use text.Mathlib.TextEquality.{eq_iff}
use tmap.Net.Local.{IsLocal}
use tmap.Net.Ip.{v4, is_multicast, is_loopback, is_link_local_unicast, is_link_local_multicast}
use tmap.Net.Cidr.{IpNet, parse_cidr, cidr_ip, net_ip, clear}
use tmap.Net.Cidr.Upper.{parse_cidr-IsCleared}
use tmap.Discovery.Scope.{
  ScanScope, ScopeError, InterfaceInfo, ScopeResult, max_scan_hosts, is_private_ip,
  scope_host_count, parse_ipv4_scope, parse_network, parse_scope, ipv4_hosts, network_hosts,
}
use tmap.Discovery.Scope.Hosts.{IsPrivate, ipv4_hosts-IsPrivate, length-ipv4_hosts}

-- The text of an IPv4 network, with what it is read as.
pub record IsIpv4Network (text : String) (n : IpNet) : Type 0 where
  pub address : ℕ
  pub is_address : cidr_ip text ≡ some (v4 address)
  pub is_network : parse_cidr text ≡ some n
  pub wide : n.bits ≡ 32

-- The text that the scope is read from: the request, or the network of the interface for "auto".
abbrev pub scope_text : String → InterfaceInfo → String
scope_text requested primary =
    if is_empty (trim_space requested) || str_eq (to_lower (trim_space requested)) "auto"
    then primary.cidr
    else trim_space requested

-- What an accepted scope promises of its network.
pub record IsSafe (n : IpNet) (r : ScopeResult) : Type 0 where
  pub private : All IsPrivate (network_hosts n)
  pub counted : length (network_hosts n) ≡ r.scope.host_count
  pub bounded : r.scope.host_count ≤ max_scan_hosts

large_powers : passes_under (λ h. leb h 16 || ltb 65536 (2 ^ h - 2)) 31 ≡ true
unfolding passes_under
large_powers = refl

few_bits :
    (ones bits : ℕ) → ltb max_scan_hosts (scope_host_count ones bits) ≡ false → bits - ones ≤ 16
unfolding scope_host_count
few_bits ones bits h = few (bits - ones) (2 ^ (bits - ones)) h (λ below.
    passes_under_lem (λ k. leb k 16 || ltb 65536 (2 ^ k - 2)) 31 {k = bits - ones} below
      large_powers)
  where
    few :
        (k p : ℕ)
        → ltb 65536 (if leb k 1 then p else if leb 31 k then 65537 else p - 2) ≡ false
        → (k < 31 → (leb k 16 || ltb 65536 (p - 2)) ≡ true)
        → k ≤ 16
    few k p q test = ground (arith, test)

-- The number of hosts that so many bits leave.
abbrev bit_hosts : ℕ → ℕ
bit_hosts k = if leb k 1 then 2 ^ k else if leb 31 k then 65537 else 2 ^ k - 2

few_hosts : passes_under (λ k. not (ltb 65536 (bit_hosts k))) 17 ≡ true
unfolding passes_under
few_hosts = refl

few_counted :
    (ones bits : ℕ) → bits - ones ≤ 16 → ltb max_scan_hosts (scope_host_count ones bits) ≡ false
unfolding scope_host_count
few_counted ones bits h = flip (ltb 65536 (bit_hosts (bits - ones))) (
    passes_under_lem (λ k. not (ltb 65536 (bit_hosts k))) 17 {k = bits - ones} (omega (arith, h))
      few_hosts)
  where
    flip : (b : Bool) → not b ≡ true → b ≡ false
    flip b q = ground arith

no_network : (n : IpNet) → parse_cidr "" ≡ some n → ⊥
unfolding parse_cidr codes
no_network n e = cc

net_ip-v4 : (n : IpNet) → n.bits ≡ 32 → net_ip n ≡ v4 n.base
unfolding net_ip
net_ip-v4 n wide = rw wide refl

network_hosts-v4 : (n : IpNet) → n.bits ≡ 32 → network_hosts n ≡ ipv4_hosts n.base (n.bits - n.ones)
unfolding network_hosts
network_hosts-v4 n wide = rw (net_ip-v4 n wide, network_hosts) refl

-- When a chain of two refusals has none.
accepted :
    (refused large : Bool) (r1 r2 r3 : ScopeResult) {e1 e2 : ScopeError}
    → r1.err ≡ some e1
    → r2.err ≡ some e2
    → (let out : ScopeResult = (if refused then r1 else if large then r2 else r3) in out.err ≡ none)
    → (refused ≡ false) × (large ≡ false)
accepted true large r1 r2 r3 p q ok = absurd (ground (arith, p, ok))
accepted false true r1 r2 r3 p q ok = absurd (ground (arith, q, ok))
accepted false false r1 r2 r3 p q ok = (refl, refl)

holds : (q : Bool) → (not q && not false) ≡ false → q ≡ true
holds q e = ground arith

module _ (ipv6_text : IpNet → String) where
  parse_ipv4_scope-IsSafe :
      (s : ScanScope) (n : IpNet) (v : ℕ)
      → n.base ≡ clear v (n.bits - n.ones)
      → n.bits ≡ 32
      → is_multicast (v4 n.base) ≡ false
      → (parse_ipv4_scope ipv6_text s false n).err ≡ none
      → IsSafe n (parse_ipv4_scope ipv6_text s false n)
  unfolding parse_ipv4_scope
  parse_ipv4_scope-IsSafe s n v cleared wide m ok =
      let private = is_private_ip (net_ip n) in
      let large = ltb max_scan_hosts (scope_host_count n.ones n.bits) in
      let (a, b) = accepted (not private && not false) large _ _ _ refl refl ok in
      let few = few_bits n.ones n.bits b in
      let p : IsPrivate n.base =
        subst (λ ip. is_private_ip ip ≡ true) (net_ip-v4 n wide) (holds private a) in
      record {
        private = rw (network_hosts-v4 n wide) (
            subst (λ x. All IsPrivate (ipv4_hosts x (n.bits - n.ones))) (sym cleared)
              (ipv4_hosts-IsPrivate v (n.bits - n.ones) few (rw⁻¹ cleared m) (rw⁻¹ cleared p)));
        counted = rw (a, b, network_hosts-v4 n wide) (length-ipv4_hosts n.base n.ones n.bits few);
        bounded = rw (a, b) (below (scope_host_count n.ones n.bits) b);
      }
    where
      below : (c : ℕ) → ltb 65536 c ≡ false → c ≤ 65536
      below c e = ground arith

  parse_network-IsSafe :
      (s : ScanScope) (text : String) (n : IpNet)
      → IsIpv4Network text n
      → is_multicast (v4 n.base) ≡ false
      → (parse_network ipv6_text s false text (parse_cidr text)).err ≡ none
      → IsSafe n (parse_network ipv6_text s false text (parse_cidr text))
  parse_network-IsSafe s text n t m =
      let (v, cleared) = parse_cidr-IsCleared text n t.is_network in
      rw (t.is_network, t.is_address) (parse_ipv4_scope-IsSafe _ n v cleared t.wide m)

  -- Without the public flag, a scope that is accepted for the text of an IPv4 network which does
  -- not start in the multicast block has only private hosts, counts them, and has at most 65536 of
  -- them.
  pub parse_scope-IsSafe :
      (requested profile : String) (primary : InterfaceInfo) (n : IpNet)
      → IsIpv4Network (scope_text requested primary) n
      → is_multicast (v4 n.base) ≡ false
      → (parse_scope ipv6_text requested profile false primary).err ≡ none
      → IsSafe n (parse_scope ipv6_text requested profile false primary)
  unfolding parse_scope
  parse_scope-IsSafe requested profile primary n =
      let asked = trim_space requested in
      elim (Bool-cases (is_empty asked || str_eq (to_lower asked) "auto")) [
        | inr own ↦ rw own (λ t m ok. parse_network-IsSafe _ asked n t m ok)
        | inl auto ↦ elim (Bool-cases (is_empty primary.cidr)) [
          | inl blank ↦ rw (auto, blank) (λ t m ok. absurd (ground (arith, ok)))
          | inr known ↦ rw (auto, known) (λ t m ok. parse_network-IsSafe _ primary.cidr n t m ok)
        ]
      ]

  IsPrivate-IsLocal : (x : ℕ) → IsPrivate x ↔ IsLocal (v4 x)
  unfolding is_private_ip is_loopback is_link_local_unicast is_link_local_multicast
  IsPrivate-IsLocal x = ground arith

  parse_ipv4_scope_iff :
      (s : ScanScope) (n : IpNet)
      → n.bits ≡ 32
      → ((parse_ipv4_scope ipv6_text s false n).err ≡ none)
        ↔ (IsLocal (v4 n.base) × (n.bits - n.ones ≤ 16))
  unfolding parse_ipv4_scope
  parse_ipv4_scope_iff s n wide = (to, from)
    where
      private_ip : is_private_ip (net_ip n) ≡ is_private_ip (v4 n.base)
      private_ip = ap is_private_ip (net_ip-v4 n wide)

      to :
          (parse_ipv4_scope ipv6_text s false n).err ≡ none
          → IsLocal (v4 n.base) × (n.bits - n.ones ≤ 16)
      to ok =
          let (a, b) =
            accepted (not (is_private_ip (net_ip n)) && not false)
              (ltb max_scan_hosts (scope_host_count n.ones n.bits)) _ _ _ refl refl ok in
          (
            (IsPrivate-IsLocal n.base).0 (sym private_ip ∙ holds (is_private_ip (net_ip n)) a),
            few_bits n.ones n.bits b,
          )

      from :
          IsLocal (v4 n.base) × (n.bits - n.ones ≤ 16)
          → (parse_ipv4_scope ipv6_text s false n).err ≡ none
      from (p, few) =
          rw (private_ip ∙ (IsPrivate-IsLocal n.base).1 p, few_counted n.ones n.bits few) refl

  parse_network_iff :
      (s : ScanScope) (text : String) (n : IpNet)
      → IsIpv4Network text n
      → ((parse_network ipv6_text s false text (parse_cidr text)).err ≡ none)
        ↔ (IsLocal (v4 n.base) × (n.bits - n.ones ≤ 16))
  parse_network_iff s text n t = rw (t.is_network, t.is_address) (parse_ipv4_scope_iff _ n t.wide)

  -- Without the public flag, a scope for the text of an IPv4 network is accepted exactly when the
  -- first address of the network is in a private, loopback or link-local block, 224.0.0.0/24 among
  -- them, and the network has at most 16 host bits, whether or not it lies in that block.
  pub parse_scope_iff :
      (requested profile : String) (primary : InterfaceInfo) (n : IpNet)
      → IsIpv4Network (scope_text requested primary) n
      → ((parse_scope ipv6_text requested profile false primary).err ≡ none)
        ↔ (IsLocal (v4 n.base) × (n.bits - n.ones ≤ 16))
  unfolding parse_scope
  parse_scope_iff requested profile primary n =
      let asked = trim_space requested in
      elim (Bool-cases (is_empty asked || str_eq (to_lower asked) "auto")) [
        | inr own ↦ rw own (λ t. parse_network_iff _ asked n t)
        | inl auto ↦ elim (Bool-cases (is_empty primary.cidr)) [
          | inl blank ↦
              rw (auto, blank)
                (λ t. absurd (
                  no_network n (
                    subst (λ c. parse_cidr c ≡ some n) ((eq_iff primary.cidr "").0 blank)
                      t.is_network)))
          | inr known ↦ rw (auto, known) (λ t. parse_network_iff _ primary.cidr n t)
        ]
      ]
