-- ===== src/Discovery/Policy/Laws.antt =====
-- The check of targets and the bound of the rate limiter.
use mathlib.Core.Option.{some-injective}
use tmap.Net.Local.{IsLocal}
use tmap.Net.Ip.{Ip, v4, v6, parse_ip, is_loopback, is_link_local_unicast, is_link_local_multicast}
use tmap.Base.{
  true, sym, ◌∙◌, All, Option-cases, clash, ℕ, suc, ◌+◌, ◌≡◌, refl, subst, ◌↔◌, Option, none, some,
  List, [], ◌∷◌, String, arith, inl, inr, Bool-cases,
}
use tmap.Discovery.Policy.{
  RateLimiter, is_private_target, is_private_ip_string, validate_private_targets, refill, grant,
}

is_private_target_iff : (ip : Ip) → (is_private_target (some ip) ≡ true) ↔ IsLocal ip
unfolding is_private_target is_loopback is_link_local_unicast is_link_local_multicast
is_private_target_iff (v4 n) = ground arith
is_private_target_iff (v6 n) = ground arith

-- A text that reads as an address of such a block.
abbrev pub IsLocalText : String → Type 0
IsLocalText s = (ip : Ip) × (parse_ip s ≡ some ip) × IsLocal ip

nothing : is_private_target none ≡ true → ⊥
unfolding is_private_target
nothing h = ground arith

is_private_ip_string_iff : (s : String) → (is_private_ip_string s ≡ true) ↔ IsLocalText s
unfolding is_private_ip_string
is_private_ip_string_iff s = elim (Option-cases (parse_ip s)) [
  | inl e ↦ rw e (λ h. absurd (nothing h), λ h. cc (h.1))
  | inr (ip, e) ↦ (
    λ h. (ip, e, (is_private_target_iff ip).0 (rw e at h)),
    λ h. rw e ((is_private_target_iff ip).1 (subst IsLocal (some-injective _ _ (sym h.1 ∙ e)) h.2)),
  )
]

-- Targets are accepted exactly when every one reads as an address of 10.0.0.0/8, 172.16.0.0/12,
-- 192.168.0.0/16 or fc00::/7, or as a loopback or link-local one,
-- link-local multicast included.
pub validate_private_targets_iff :
    (ips : List String) → (validate_private_targets ips ≡ none) ↔ All IsLocalText ips
unfolding validate_private_targets
validate_private_targets_iff [] = ((λ h. tt), λ h. refl)
validate_private_targets_iff (ip ∷ ips) =
    let here = is_private_ip_string_iff ip in
    let rest = validate_private_targets_iff ips in
    elim (Bool-cases (is_private_ip_string ip)) [
      | inl private ↦ rw private (λ h. (here.0 private, rest.0 h), λ h. rest.1 h.1)
      | inr public ↦
          rw public
            (λ h. absurd (ground arith), λ h. clash (is_private_ip_string ip) public (here.1 h.0))
    ]

-- What happens to a limiter: a tick of its clock, or a request that may get a token.
pub data Turn : Type 0 where
  ticks asks : Turn

abbrev after_grant : RateLimiter → Option RateLimiter → RateLimiter × ℕ
after_grant r none = (r, 0)
after_grant r (some s) = (s, 1)

-- The limiter after a list of turns, and how many requests got a token.
unfoldable pub turns : RateLimiter → List Turn → RateLimiter × ℕ
unfolding refill grant
turns r [] = (r, 0)
turns r (ticks ∷ ts) = turns (refill r) ts
turns r (asks ∷ ts) =
    let first = after_grant r (grant r) in let rest = turns first.0 ts in (rest.0, first.1 + rest.1)

unfoldable pub count_ticks : List Turn → ℕ
count_ticks [] = 0
count_ticks (ticks ∷ ts) = suc (count_ticks ts)
count_ticks (asks ∷ ts) = count_ticks ts
