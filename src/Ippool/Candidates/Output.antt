-- ===== src/Ippool/Candidates/Output.antt =====
-- The list that a sweep returns.
use mathlib.Core.Option.{some-injective}
use text.Mathlib.TextEquality.{eq_iff}
use tmap.Base.{
  ℕ, zero, suc, ◌+◌, ◌-◌, ◌^◌, ◌≤◌, ◌<◌, ◌≡◌, refl, sym, ap, ◌∙◌, inl, inr, true, false, ◌&&◌, List,
  [], ◌∷◌, String, str_eq, ◌==◌, ==_iff, arith, Bool-cases, length, All, codes, member,
}
use tmap.Base.Sets.{IsUnique}
use tmap.Base.Int.{ℤ, pos, ◌≤ℤ◌}
use tmap.Net.Ipv4.{format_ipv4, parse_ipv4}
use tmap.Net.Ipv4.RoundTrip.{parse-format_ipv4}
use native.Mathlib.Nat.{pow-suc}
use tmap.Net.Cidr.{IpNet}
use tmap.Ippool.Guard.{ScopeGuard, allow_ip}
use tmap.Ippool.Candidates.Hosts.{inside, IsDistinct, mem_host-ordered, ordered-IsDistinct}
use tmap.Ippool.Candidates.{u32, mem_host, ordered, emit, sweep}

format_inj : (x y : ℕ) → x < 2 ^ 32 → y < 2 ^ 32 → format_ipv4 x ≡ format_ipv4 y → x ≡ y
format_inj x y p q e = some-injective _ _ (
    sym (parse-format_ipv4 x p)
    ∙ (ap (λ (s : String). parse_ipv4 (codes s)) e ∙ parse-format_ipv4 y q))

-- The hosts of a list are 32-bit numbers.
abbrev AllBelow : List ℕ → Type 0
AllBelow = All (λ h. h < 2 ^ 32)

same_text : (x y : ℕ) → x < 2 ^ 32 → y < 2 ^ 32 → str_eq (format_ipv4 x) (format_ipv4 y) ≡ (x == y)
same_text x y p q = elim (Bool-cases (x == y)) [
  | inl e ↦ rw e ((eq_iff (format_ipv4 x) (format_ipv4 y)).1 (ap format_ipv4 ((==_iff x y).0 e)))
  | inr n ↦ ground (arith, eq_iff (format_ipv4 x) (format_ipv4 y), format_inj x y p q)
]

module _ (g : ScopeGuard) where
  -- With no limit, a host's text is in the output exactly when the host is in the list and allowed.
  member-emit :
      (limit : ℤ) (n : ℕ) (hs : List ℕ) (h : ℕ)
      → limit ≤ℤ pos 0
      → AllBelow hs
      → h < 2 ^ 32
      → member (format_ipv4 h) (emit g limit n hs)
        ≡ (mem_host h hs && (allow_ip g (format_ipv4 h)).0)
  unfolding emit member mem_host
  member-emit limit n [] h l a b = refl
  member-emit limit n (x ∷ hs) h l a b = ground (
    arith,
    same_text x h a.0 b,
    member-emit limit n hs h l a.1 b,
    member-emit limit (n + 1) hs h l a.1 b,
  )

  -- With a limit, no more texts than that come out.
  length-emit :
      (limit n : ℕ) (hs : List ℕ) → n < limit → length (emit g (pos limit) n hs) + n ≤ limit
  unfolding emit
  length-emit limit n [] h = omega arith
  length-emit limit n (x ∷ hs) h =
      ground (arith, length-emit limit n hs h, length-emit limit (n + 1) hs)

  -- Whatever the limit, each text is that of a host of the list that the guard allows.
  pub emit-All :
      (P : String → Type 0) (limit : ℤ) (n : ℕ) (hs : List ℕ)
      → All (λ h. (allow_ip g (format_ipv4 h)).0 ≡ true → P (format_ipv4 h)) hs
      → All P (emit g limit n hs)
  unfolding emit
  emit-All P limit n [] a = tt
  emit-All P limit n (x ∷ hs) a =
      ground (arith, a.0, emit-All P limit n hs a.1, emit-All P limit (n + 1) hs a.1)

  -- No text comes out twice.
  emit_absent :
      (limit : ℤ) (n : ℕ) (hs : List ℕ) (h : ℕ)
      → AllBelow hs
      → h < 2 ^ 32
      → mem_host h hs ≡ false
      → member (format_ipv4 h) (emit g limit n hs) ≡ false
  unfolding emit member mem_host
  emit_absent limit n [] h a b m = refl
  emit_absent limit n (x ∷ hs) h a b m = ground (
    arith,
    same_text x h a.0 b,
    emit_absent limit n hs h a.1 b,
    emit_absent limit (n + 1) hs h a.1 b,
  )

  emit-IsUnique :
      (limit : ℤ) (n : ℕ) (hs : List ℕ) → AllBelow hs → IsDistinct hs → IsUnique (emit g limit n hs)
  unfolding emit member
  emit-IsUnique limit n [] a d = tt
  emit-IsUnique limit n (x ∷ hs) a d = ground (
    arith,
    emit_absent limit (n + 1) hs x a.1 a.0 d.0,
    emit-IsUnique limit n hs a.1 d.1,
    emit-IsUnique limit (n + 1) hs a.1 d.1,
  )

-- A predicate holds of all hosts of a list if it holds of its members.
members-All : (P : ℕ → Type 0) (xs : List ℕ) → ((h : ℕ) → mem_host h xs ≡ true → P h) → All P xs
unfolding mem_host
members-All P [] f = tt
members-All P (x ∷ xs) f = (f x (ground arith), members-All P xs (λ h m. f h (ground arith)))

-- The last address of a network.
abbrev pub last_of : IpNet → ℕ
last_of n = n.base + 2 ^ (32 - n.ones) - 1

pow_pos : (k : ℕ) → 0 < 2 ^ k
pow_pos zero = omega arith
pow_pos (suc k) = rw pow-suc (omega (arith, pow_pos k))

broadcast_lem :
    (base size : ℕ)
    → 0 < size
    → base + size ≤ 2 ^ 32
    → u32 (base + u32 size + 2 ^ 32 - 1) ≡ base + size - 1
broadcast_lem base size p h = omega arith

module _ (g : ScopeGuard) (seed : ℕ) (n : IpNet) (fits : n.base + 2 ^ (32 - n.ones) ≤ 2 ^ 32) where
  sweep-eq : (limit : ℤ) → sweep g seed n limit ≡ emit g limit 0 (ordered n.base (last_of n) seed)
  unfolding sweep
  sweep-eq limit =
      ap (λ (b : ℕ). emit g limit 0 (ordered n.base b seed))
        (broadcast_lem n.base (2 ^ (32 - n.ones)) (pow_pos (32 - n.ones)) fits)

  hosts_inside :
      (h : ℕ) → mem_host h (ordered n.base (last_of n) seed) ≡ inside n.base (last_of n) h
  hosts_inside h =
      mem_host-ordered n.base (last_of n) seed h (omega (arith, pow_pos (32 - n.ones), fits))

  hosts_below : AllBelow (ordered n.base (last_of n) seed)
  hosts_below = members-All _ _ λ h m. bound (rw hosts_inside at m)
    where
      bound : {h : ℕ} → inside n.base (last_of n) h ≡ true → h < 2 ^ 32
      bound i = ground (arith, fits, pow_pos (32 - n.ones))

  -- On a network within 32 bits, a sweep with no limit returns the text of an address exactly when
  -- the address lies strictly between the network's own and its last one, and the guard allows it.
  pub member-sweep :
      (limit : ℤ) (h : ℕ)
      → limit ≤ℤ pos 0
      → h < 2 ^ 32
      → member (format_ipv4 h) (sweep g seed n limit)
        ≡ (inside n.base (last_of n) h && (allow_ip g (format_ipv4 h)).0)
  member-sweep limit h l b =
      rw (sweep-eq limit, member-emit g limit 0 _ h l hosts_below b, hosts_inside h)

  -- On a network within 32 bits, whatever the limit, a sweep returns no text twice, and each is
  -- that of an address strictly between the network's own and its last one that the guard allows.
  pub sweep_sound :
      (limit : ℤ)
      → IsUnique (sweep g seed n limit)
        × All
            (λ s.
              (h : ℕ) × (s ≡ format_ipv4 h)
              × (inside n.base (last_of n) h ≡ true)
              × ((allow_ip g s).0 ≡ true))
            (sweep g seed n limit)
  sweep_sound limit = rw sweep-eq (
    emit-IsUnique g limit 0 _ hosts_below (ordered-IsDistinct _ _ seed),
    emit-All g _ limit 0 _ (members-All _ _ λ h m a. (h, refl, sym (hosts_inside h) ∙ m, a)),
  )

  -- On a network within 32 bits, a sweep with a positive limit returns no more texts than that.
  pub length-sweep : (limit : ℕ) → 0 < limit → length (sweep g seed n (pos limit)) ≤ limit
  length-sweep limit p =
      rw sweep-eq (omega (arith, length-emit g limit 0 (ordered n.base (last_of n) seed) p))
