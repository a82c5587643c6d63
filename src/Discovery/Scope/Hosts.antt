-- ===== src/Discovery/Scope/Hosts.antt =====
-- The hosts of a network that is small enough to be scanned.
use tmap.Base.{
  ℕ, zero, suc, ◌+◌, ◌-◌, ◌/◌, ◌%◌, ◌^◌, ◌≤◌, ◌<◌, ◌≡◌, refl, sym, ap, ◌∙◌, true, false, All,
  length, if◌then◌else◌, if_case, ltb, leb, arith, inl, inr, Bool-cases, passes_under,
  passes_under_lem,
}
use tmap.Net.Ip.{v4, is_loopback, is_multicast, is_link_local_unicast, is_link_local_multicast}
use tmap.Net.Cidr.{clear}
use tmap.Net.Cidr.Upper.{clear_upper, clear-add}
use tmap.Discovery.Scope.{
  max_scan_hosts, is_private_ip, scope_host_count, addresses_from, ipv4_hosts,
}

abbrev pub IsPrivate : ℕ → Type 0
IsPrivate x = is_private_ip (v4 x) ≡ true

-- Away from the multicast block an address is private or not by its upper half.
IsPrivate-upper :
    (x y : ℕ)
    → x / 65536 ≡ y / 65536
    → is_multicast (v4 y) ≡ false
    → IsPrivate y
    → IsPrivate (x % 2 ^ 32)
unfolding is_private_ip is_multicast is_loopback is_link_local_unicast is_link_local_multicast
IsPrivate-upper x y e m h = ground arith

small_powers : passes_under (λ h. leb (2 ^ h) 65536) 17 ≡ true
unfolding passes_under
small_powers = refl

not_large : (h : ℕ) → h ≤ 16 → ltb max_scan_hosts (2 ^ h) ≡ false
not_large h few =
    flip (2 ^ h) (passes_under_lem (λ k. leb (2 ^ k) 65536) 17 (omega (arith, few)) small_powers)
  where
    flip : (x : ℕ) → leb x 65536 ≡ true → ltb 65536 x ≡ false
    flip x q = ground arith

addresses_from-All :
    (P : ℕ → Type 0) (base start n : ℕ)
    → ((k : ℕ) → start ≤ k → k < start + n → P ((base + k) % 2 ^ 32))
    → All P (addresses_from base start n)
unfolding addresses_from
addresses_from-All P base start zero h = tt
addresses_from-All P base start (suc n) h = (
  h start (omega arith) (omega arith),
  addresses_from-All P base (start + 1) n (λ k p q. h k (omega (arith, p)) (omega (arith, q))),
)

length-addresses_from : (base start n : ℕ) → length (addresses_from base start n) ≡ n
unfolding addresses_from
length-addresses_from base start zero = refl
length-addresses_from base start (suc n) = ap suc (length-addresses_from base (start + 1) n)

-- The hosts of a small private network away from the multicast block are private.
pub ipv4_hosts-IsPrivate :
    (v h : ℕ)
    → h ≤ 16
    → is_multicast (v4 (clear v h)) ≡ false
    → IsPrivate (clear v h)
    → All IsPrivate (ipv4_hosts (clear v h) h)
unfolding ipv4_hosts
ipv4_hosts-IsPrivate v h few m p = if_case (All IsPrivate) (ltb max_scan_hosts (2 ^ h)) tt (
    if_case (All IsPrivate) (leb 2 h)
      (addresses_from-All IsPrivate (clear v h) 1 (2 ^ h - 2)
        (λ k lo hi. each k (omega (arith, lo, hi))))
      (addresses_from-All IsPrivate (clear v h) 0 (2 ^ h) (λ k lo hi. each k (omega (arith, hi)))))
  where
    each : (k : ℕ) → k < 2 ^ h → IsPrivate ((clear v h + k) % 2 ^ 32)
    each k below =
        IsPrivate-upper (clear v h + k) (clear v h)
          (sym (clear_upper (clear v h + k) h few) ∙ ap (λ x. x / 65536) (clear-add v h k below)) m
          p

-- As many hosts are listed as are counted.
pub length-ipv4_hosts :
    (base ones bits : ℕ)
    → bits - ones ≤ 16
    → length (ipv4_hosts base (bits - ones)) ≡ scope_host_count ones bits
unfolding ipv4_hosts scope_host_count
length-ipv4_hosts base ones bits few =
    let h = bits - ones in
    elim (Bool-cases (leb 2 h)) [
      | inl many ↦
          rw (not_large h few, many, two_up h (2 ^ h) 65537 (2 ^ h - 2) few many)
            (length-addresses_from base 1 (2 ^ h - 2))
      | inr one ↦ rw (not_large h few, one, two_down h one) (length-addresses_from base 0 (2 ^ h))
    ]
  where
    two_down : (h : ℕ) → leb 2 h ≡ false → leb h 1 ≡ true
    two_down h q = ground arith

    two_up :
        (h x y z : ℕ)
        → h ≤ 16
        → leb 2 h ≡ true
        → (if leb h 1 then x else if leb 31 h then y else z) ≡ z
    two_up h x y z p q = ground arith
