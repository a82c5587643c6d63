-- ===== src/Net/Ipv6.antt =====
-- The reading of an IPv6 text (`parseIPv6` of `net/netip`), without a zone, which `net.ParseIP` and
-- `net.ParseCIDR` refuse. Groups are kept in reverse, and `ellipsis` is the number of groups
-- before `::`.
use tmap.Base.{
  ℕ, zero, suc, ◌+◌, ◌-◌, ◌*◌, ◌/◌, ◌%◌, ◌^◌, Bool, true, false, ◌&&◌, ◌||◌, not, Option, none,
  some, List, [], ◌∷◌, if◌then◌else◌, leb, ltb, ◌==◌, length, codes, ◌≡◌, refl,
}
use tmap.Net.Ipv4.{parse_ipv4, is_digit}

hex_value : ℕ → Option ℕ
hex_value c =
    if is_digit c
    then some (c - b'0')
    else if leb b'a' c && leb c b'f'
    then some (c - b'a' + 10)
    else if leb b'A' c && leb c b'F'
    then some (c - b'A' + 10)
    else none

-- The digits of one group: their number, their value, and what follows. More than four digits, or a
-- value of more than 16 bits, is an error.
hex_group : List ℕ → ℕ → ℕ → Option (ℕ × ℕ × List ℕ)
unfolding hex_value
hex_group [] n acc = some (n, acc, [])
hex_group (c ∷ s) n acc = elim (hex_value c) [
  | none ↦ some (n, acc, c ∷ s)
  | some d ↦
      if ltb 3 n || ltb 65535 (acc * 16 + d) then none else hex_group s (n + 1) (acc * 16 + d)
]

pub record Groups : Type 0 where
  pub rev : List ℕ
  pub ellipsis : Option ℕ

is_none : Option ℕ → Bool
is_none none = true
is_none (some n) = false

-- A group, or the four bytes of an IPv4 text that ends the address; `rec` reads the groups after it.
read_group : (Groups → List ℕ → Option Groups) → Groups → List ℕ → Option Groups
unfolding hex_group is_none
read_group rec g s = elim (hex_group s 0 0) [
  | none ↦ none
  | some (n, acc, rest) ↦ if n == 0 then none else elim rest [
    | [] ↦ some (record g { rev = acc ∷ g.rev })
    | c ∷ r ↦
        if c == b'.'
        then (if (is_none g.ellipsis && not (length g.rev == 6)) || ltb 6 (length g.rev)
            then none
            else elim (parse_ipv4 s) [
              | none ↦ none
              | some v ↦ some (record g { rev = (v % 65536) ∷ (v / 65536) ∷ g.rev })
            ])
        else if not (c == b':')
        then none
        else elim r [
          | [] ↦ none
          | d ∷ q ↦
              let h : Groups = record g { rev = acc ∷ g.rev } in
              if not (d == b':')
              then rec h (d ∷ q)
              else if not (is_none g.ellipsis)
              then none
              else elim q [
                | [] ↦ some (record h { ellipsis = some (length h.rev) })
                | e ∷ t ↦ rec (record h { ellipsis = some (length h.rev) }) (e ∷ t)
              ]
        ]
  ]
]

-- At most eight groups are read; a text that goes on after them is refused.
read_groups : ℕ → Groups → List ℕ → Option Groups
unfolding read_group
read_groups zero g s = none
read_groups (suc n) g s = if leb 8 (length g.rev) then none else read_group (read_groups n) g s

value_of : List ℕ → ℕ
value_of [] = 0
value_of (x ∷ xs) = value_of xs * 65536 + x

-- The groups after the ellipsis move to the end of the address.
expand : List ℕ → ℕ → ℕ → ℕ
unfolding value_of
expand rev before missing =
    let all = value_of rev in
    let tail = 65536 ^ (length rev - before) in (all / tail) * (tail * 65536 ^ missing) + all % tail

finish : Groups → Option ℕ
unfolding expand value_of
finish g = elim g.ellipsis [
  | none ↦ if length g.rev == 8 then some (value_of g.rev) else none
  | some before ↦
      if leb 8 (length g.rev) then none else some (expand g.rev before (8 - length g.rev))
]

finish_all : Option Groups → Option ℕ
unfolding finish
finish_all none = none
finish_all (some g) = finish g

start : List ℕ → Option Groups
unfolding read_groups
start (c ∷ d ∷ s) =
    if c == b':' && d == b':'
    then elim s [
      | [] ↦ some (record { rev = []; ellipsis = some 0 })
      | e ∷ t ↦ read_groups 9 (record { rev = []; ellipsis = some 0 }) (e ∷ t)
    ]
    else read_groups 9 (record { rev = []; ellipsis = none }) (c ∷ d ∷ s)
start s = read_groups 9 (record { rev = []; ellipsis = none }) s

unfoldable pub parse_ipv6 : List ℕ → Option ℕ
unfolding start finish_all
parse_ipv6 s = finish_all (start s)

loopback : parse_ipv6 (codes "::1") ≡ some 1
unfolding parse_ipv6 codes
loopback = refl

link_local : parse_ipv6 (codes "fe80::1:0203") ≡ some (0xfe80 * 2 ^ 112 + 0x10203)
unfolding parse_ipv6 codes
link_local = refl

mapped : parse_ipv6 (codes "::ffff:192.168.1.20") ≡ some (0xffff * 2 ^ 32 + 0xc0a80114)
unfolding parse_ipv6 codes parse_ipv4
mapped = refl

eight_groups : parse_ipv6 (codes "1:2:3:4:5:6:7:8") ≡ some 0x00010002000300040005000600070008
unfolding parse_ipv6 codes
eight_groups = refl

refused : (parse_ipv6 (codes "1::2::3") ≡ none) × (parse_ipv6 (codes "1:2:3:4:5:6:7:8:9") ≡ none)
unfolding parse_ipv6 codes
refused = (refl, refl)
