-- ===== src/Ippool/Guard/Safety.antt =====
-- What the guard lets through.
use tmap.Base.{
  ℕ, ◌-◌, ◌/◌, ◌≤◌, ◌≡◌, sym, ap, subst, ◌∙◌, ◌↔◌, ◌⊎◌, inl, inr, true, false, some, String, arith,
  Option-cases,
}
use tmap.Base.Int.{pos, ◌≤ℤ◌, leb_ℤ}
use mathlib.Core.Option.{some-injective}
use tmap.Net.Ip.{
  Ip, v4, v6, parse_ip, is_loopback, is_multicast, is_unspecified, is_private,
  is_link_local_unicast,
}
use tmap.Net.Cidr.{IpNet, parse_cidr, net_ip, clear}
use tmap.Net.Cidr.Upper.{clear_upper}
use tmap.Ippool.Guard.{ScopeGuard, allow_addr, allow_ip, allow_cidr, decide_net}

-- The addresses that may be probed: private ones, and link-local ones where the guard has them.
abbrev pub IsAllowed : ScopeGuard → Ip → Type 0
IsAllowed g ip =
    (is_private ip ≡ true) ⊎ ((g.allow_link_local ≡ true) × (is_link_local_unicast ip ≡ true))

-- No private address falls under the earlier refusals.
allow_addr_iff : (g : ScopeGuard) (ip : Ip) → ((allow_addr g ip).0 ≡ true) ↔ IsAllowed g ip
unfolding allow_addr is_loopback is_multicast is_unspecified is_private is_link_local_unicast
allow_addr_iff g (v4 n) = ground arith
allow_addr_iff g (v6 n) = ground arith

-- A text is allowed exactly when it reads as an address that is private, or link-local where the
-- guard allows those.
pub allow_ip_iff :
    (g : ScopeGuard) (s : String)
    → ((allow_ip g s).0 ≡ true) ↔ ((ip : Ip) × (parse_ip s ≡ some ip) × IsAllowed g ip)
unfolding allow_ip
allow_ip_iff g s = elim (Option-cases (parse_ip s)) [
  | inl e ↦ rw e ((λ h. cc), λ h. cc (h.1))
  | inr (ip, e) ↦ (
    λ h. (ip, e, (allow_addr_iff g ip).0 (rw e at h)),
    λ h.
        rw e ((allow_addr_iff g ip).1 (subst (IsAllowed g) (some-injective _ _ (sym h.1 ∙ e)) h.2)),
  )
]

-- An address is private or not by its upper half.
private_upper :
    (x y : ℕ) → x / 65536 ≡ y / 65536 → is_private (v4 y) ≡ true → is_private (v4 x) ≡ true
unfolding is_private
private_upper x y e h = ground arith

-- What a decision for an automatic scan says of the network.
decide_private :
    (g : ScopeGuard) (n : IpNet)
    → g.allow_link_local ≡ false
    → pos 16 ≤ℤ g.max_auto_prefix
    → pos 15 ≤ℤ g.block_prefix
    → (decide_net g false n).allowed ≡ true
    → (n.bits ≡ 32) × (16 ≤ n.ones) × (is_private (v4 n.base) ≡ true)
unfolding decide_net net_ip allow_addr
decide_private g n l m b h = ground arith

net_private :
    (n : IpNet)
    → (16 ≤ n.ones) × (is_private (v4 n.base) ≡ true)
    → (x : ℕ) → clear x (32 - n.ones) ≡ n.base
    → is_private (v4 x) ≡ true
net_private n (o, p) x e =
    private_upper x n.base
      (sym (clear_upper x (32 - n.ones) (omega arith)) ∙ ap (λ (y : ℕ). y / 65536) e) p

-- Where link-local addresses are not enabled, MaxAutoPrefix is at least 16 and BlockPrefix at least
-- 15, a subnet that is allowed without the user's confirmation is an IPv4 network of prefix 16 or
-- longer, and every address of it is private.
pub allow_cidr_private :
    (g : ScopeGuard) (cidr : String)
    → g.allow_link_local ≡ false
    → pos 16 ≤ℤ g.max_auto_prefix
    → pos 15 ≤ℤ g.block_prefix
    → (allow_cidr g cidr false).allowed ≡ true
    → (n : IpNet) × (parse_cidr cidr ≡ some n)
      × (n.bits ≡ 32)
      × (16 ≤ n.ones)
      × ((x : ℕ) → clear x (32 - n.ones) ≡ n.base → is_private (v4 x) ≡ true)
unfolding allow_cidr
allow_cidr_private g cidr l m b h = elim (Option-cases (parse_cidr cidr)) [
  | inl e ↦ absurd (ground arith)
  | inr (n, e) ↦
      let (bits, ones, base) = decide_private g n l m b (ground arith) in
      (n, e, bits, ones, net_private n (ones, base))
]

-- Without confirmation a network that is read and whose prefix is at most BlockPrefix and below
-- MaxAutoPrefix is never allowed, whatever its address.
pub block_needs_confirmation :
    (g : ScopeGuard) (cidr : String) (n : IpNet)
    → parse_cidr cidr ≡ some n
    → pos n.ones ≤ℤ g.block_prefix
    → leb_ℤ g.max_auto_prefix (pos n.ones) ≡ false
    → (allow_cidr g cidr false).allowed ≡ false
unfolding allow_cidr decide_net
block_needs_confirmation g cidr n e b m = rw e (ground arith)
