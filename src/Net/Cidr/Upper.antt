-- ===== src/Net/Cidr/Upper.antt =====
-- The upper half of the addresses of a small network.
use native.Mathlib.Nat.{mul-add-div_right, div-eq_of_lt, pow-suc}
use Prim.Native.String.{slice, len}
use tmap.Base.{
  ℕ, zero, suc, ◌+◌, ◌-◌, ◌*◌, ◌/◌, ◌^◌, ◌≤◌, ◌<◌, ◌≡◌, refl, ap, subst, ◌∙◌, arith, dec_lt, codes,
  Option, none, some, List, [], ◌∷◌, String, leb, ◌==◌, if_case, Yields, yield, inl, inr,
  Option-cases,
}
use tmap.Net.Cidr.{IpNet, clear, make_net, net_by, prefix_number, parse_cidr}
use tmap.Net.Ipv4.{parse_ipv4}
use tmap.Net.Ipv6.{parse_ipv6}
use text.Mathlib.Text.{find?}

-- Clearing at most 16 host bits keeps the upper half of an address. The first eight widths, then the
-- others.
clear_few : (x h : ℕ) → h ≤ 8 → clear x h / 65536 ≡ x / 65536
clear_few x zero _ = omega arith
clear_few x (suc zero) _ = omega arith
clear_few x (suc (suc zero)) _ = omega arith
clear_few x (suc (suc (suc zero))) _ = omega arith
clear_few x (suc (suc (suc (suc zero)))) _ = omega arith
clear_few x (suc (suc (suc (suc (suc zero))))) _ = omega arith
clear_few x (suc (suc (suc (suc (suc (suc zero)))))) _ = omega arith
clear_few x (suc (suc (suc (suc (suc (suc (suc zero))))))) _ = omega arith
clear_few x (suc (suc (suc (suc (suc (suc (suc (suc zero)))))))) _ = omega arith
clear_few x (suc (suc (suc (suc (suc (suc (suc (suc (suc h))))))))) p = absurd (omega arith)

clear_many : (x h : ℕ) → h ≤ 8 → clear x (h + 8) / 65536 ≡ x / 65536
clear_many x zero _ = omega arith
clear_many x (suc zero) _ = omega arith
clear_many x (suc (suc zero)) _ = omega arith
clear_many x (suc (suc (suc zero))) _ = omega arith
clear_many x (suc (suc (suc (suc zero)))) _ = omega arith
clear_many x (suc (suc (suc (suc (suc zero))))) _ = omega arith
clear_many x (suc (suc (suc (suc (suc (suc zero)))))) _ = omega arith
clear_many x (suc (suc (suc (suc (suc (suc (suc zero))))))) _ = omega arith
clear_many x (suc (suc (suc (suc (suc (suc (suc (suc zero)))))))) _ = omega arith
clear_many x (suc (suc (suc (suc (suc (suc (suc (suc (suc h))))))))) p = absurd (omega arith)

pub clear_upper : (x h : ℕ) → h ≤ 16 → clear x h / 65536 ≡ x / 65536
clear_upper x h p = elim (dec_lt h 8) [
  | yes q ↦ clear_few x h (omega arith)
  | no q ↦
      let e : h - 8 + 8 ≡ h = omega arith in
      subst (λ (k : ℕ). clear x k / 65536 ≡ x / 65536) e (clear_many x (h - 8) (omega arith))
]

pow_positive : (h : ℕ) → 0 < 2 ^ h
pow_positive zero = omega arith
pow_positive (suc h) = rw pow-suc (omega (arith, pow_positive h))

-- The address that follows a cleared one by less than the size of the network is of the network.
pub clear-add : (v h i : ℕ) → i < 2 ^ h → clear (clear v h + i) h ≡ clear v h
clear-add v h i below =
    ap (λ q. q * 2 ^ h)
      (mul-add-div_right (pow_positive h) (v / 2 ^ h) i
        ∙ ap (λ r. v / 2 ^ h + r) (div-eq_of_lt below)
        ∙ (omega arith))

-- The network that a text gives has its host bits cleared.
abbrev IsCleared : IpNet → Type 0
IsCleared n = (v : ℕ) × (n.base ≡ clear v (n.bits - n.ones))

make_net-IsCleared : (v ones : Option ℕ) (bits : ℕ) → Yields IsCleared (make_net v ones bits)
unfolding make_net
make_net-IsCleared (some v) (some n) bits =
    if_case (Yields IsCleared) (leb n bits) (yield IsCleared (v, refl)) (unfold Yields in tt)
make_net-IsCleared (some v) none bits = unfold Yields in tt
make_net-IsCleared none ones bits = unfold Yields in tt

net_by-IsCleared : (mask addr rest : List ℕ) → Yields IsCleared (net_by mask addr rest)
unfolding net_by
net_by-IsCleared mask addr [] = unfold Yields in tt
net_by-IsCleared mask addr (c ∷ rest) =
    if_case (Yields IsCleared) (c == b'.')
      (make_net-IsCleared (parse_ipv4 addr) (prefix_number mask) 32)
      (if_case (Yields IsCleared) (c == b':')
        (make_net-IsCleared (parse_ipv6 addr) (prefix_number mask) 128)
        (if_case (Yields IsCleared) (c == b'%') (unfold Yields in tt)
          (net_by-IsCleared mask addr rest)))

parse_cidr-Yields : (s : String) → Yields IsCleared (parse_cidr s)
unfolding parse_cidr
parse_cidr-Yields s = elim (Option-cases (find? s "/")) [
  | inl e ↦ rw (e, parse_cidr) (unfold Yields in tt)
  | inr (i, e) ↦
      rw (e, parse_cidr)
        (net_by-IsCleared (codes (slice s (i + 1) (len s))) (codes (slice s 0 i))
          (codes (slice s 0 i)))
]

pub parse_cidr-IsCleared : (s : String) (n : IpNet) → parse_cidr s ≡ some n → IsCleared n
unfolding Yields
parse_cidr-IsCleared s n e = subst (Yields IsCleared) e (parse_cidr-Yields s)
