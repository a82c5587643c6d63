-- ===== src/Ippool/Registry/Order.antt =====
-- The order of `Snapshot` on a pool of IPv4 devices.
use mathlib.Core.List.{reverse, reverse-cons}
use tmap.Base.{
  ℕ, ◌≤◌, ◌≡◌, refl, sym, ◌∙◌, Option, none, some, List, [], ◌∷◌, ◌++◌, false, arith, tests,
  Bool-cases, inl, inr, ltb, All, All-map, All-append,
}
use tmap.Base.Float.{Float64}
use tmap.Net.Ip.{parse_ip}
use tmap.Ippool.Types.{DevicePoolEntry}
use tmap.Ippool.Candidates.{ip_less, to4}
use tmap.Ippool.Registry.{shift_left, sort_from, sort_by_ip}

abbrev number_of : Option ℕ → ℕ
number_of none = 0
number_of (some v) = v

module _ {F : Type 0} where
  -- The IPv4 address of an entry as a number.
  abbrev pub key : DevicePoolEntry F → ℕ
  key e = number_of (to4 (parse_ip e.ip))

  abbrev pub IsV4 : DevicePoolEntry F → Type 0
  IsV4 e = (v : ℕ) × (to4 (parse_ip e.ip) ≡ some v)

  -- The addresses do not fall.
  abbrev pub IsSorted : List (DevicePoolEntry F) → Type 0
  IsSorted [] = Unit
  IsSorted (d ∷ ds) = All (λ e. key d ≤ key e) ds × IsSorted ds

  -- The addresses do not rise.
  abbrev IsFalling : List (DevicePoolEntry F) → Type 0
  IsFalling [] = Unit
  IsFalling (d ∷ ds) = All (λ e. key e ≤ key d) ds × IsFalling ds

  ip_less-ltb :
      (a b : DevicePoolEntry F) → IsV4 a → IsV4 b → ip_less a.ip b.ip ≡ ltb (key a) (key b)
  unfolding ip_less
  ip_less-ltb a b p q = rw (p.1, q.1, ip_less) refl

  snoc-IsSorted :
      (xs : List (DevicePoolEntry F)) (d : DevicePoolEntry F)
      → All (λ e. key e ≤ key d) xs
      → IsSorted xs
      → IsSorted (xs ++ (d ∷ []))
  snoc-IsSorted [] d a s = (tt, tt)
  snoc-IsSorted (x ∷ xs) d a s =
      (All-append (λ e. key x ≤ key e) xs (d ∷ []) s.0 (a.0, tt), snoc-IsSorted xs d a.1 s.1)

  module _ ⦃f : Float64 F⦄ where
    shift_left-All :
        (P : DevicePoolEntry F → Type 0) (e : DevicePoolEntry F) (before : List (DevicePoolEntry F))
        → P e
        → All P before
        → All P (shift_left e before)
    unfolding shift_left
    shift_left-All P e [] p h = (p, tt)
    shift_left-All P e (d ∷ before) p h = elim (Bool-cases (ip_less e.ip d.ip)) [
      | inl c ↦ rw (c, shift_left) (h.0, shift_left-All P e before p h.1)
      | inr c ↦ rw (c, shift_left) (p, h)
    ]

    shift_left-IsFalling :
        (e : DevicePoolEntry F) (before : List (DevicePoolEntry F))
        → IsV4 e
        → All IsV4 before
        → IsFalling before
        → IsFalling (shift_left e before)
    unfolding shift_left
    shift_left-IsFalling e [] v vs h = (tt, tt)
    shift_left-IsFalling e (d ∷ before) v vs h = elim (Bool-cases (ip_less e.ip d.ip)) [
      | inl c ↦
          rw (c, shift_left)
            (
              shift_left-All (λ x. key x ≤ key d) e before
                  (omega (tests, sym (ip_less-ltb e d v vs.0) ∙ c)) h.0,
              shift_left-IsFalling e before v vs.1 h.1,
            )
      | inr c ↦
          let up : key d ≤ key e = below (key e) (key d) (sym (ip_less-ltb e d v vs.0) ∙ c) in
          rw (c, shift_left)
            (
              (
                up,
                All-map (λ x. key x ≤ key d) (λ x. key x ≤ key e) before
                    (λ x q. omega (arith, q, up)) h.0,
              ),
              h,
            )
    ]
      where
        below : (a b : ℕ) → ltb a b ≡ false → b ≤ a
        below a b q = ground arith

    sort_from-IsFalling :
        (es before : List (DevicePoolEntry F))
        → All IsV4 es
        → All IsV4 before
        → IsFalling before
        → IsFalling (sort_from before es)
    unfolding sort_from
    sort_from-IsFalling [] before us vs h = h
    sort_from-IsFalling (e ∷ es) before us vs h =
        sort_from-IsFalling es (shift_left e before) us.1 (shift_left-All IsV4 e before us.0 vs)
          (shift_left-IsFalling e before us.0 vs h)

  reverse-All :
      (P : DevicePoolEntry F → Type 0) (xs : List (DevicePoolEntry F))
      → All P xs
      → All P (reverse xs)
  reverse-All P [] h = tt
  reverse-All P (x ∷ xs) h =
      rw reverse-cons (All-append P (reverse xs) (x ∷ []) (reverse-All P xs h.1) (h.0, tt))

  reverse-IsSorted : (xs : List (DevicePoolEntry F)) → IsFalling xs → IsSorted (reverse xs)
  reverse-IsSorted [] h = tt
  reverse-IsSorted (x ∷ xs) h = rw reverse-cons (
      snoc-IsSorted (reverse xs) x (reverse-All (λ e. key e ≤ key x) xs h.0)
        (reverse-IsSorted xs h.1))

  module _ ⦃f : Float64 F⦄ where
    -- Where every entry has an IPv4 address, the sort of a snapshot puts the addresses in an order
    -- that does not fall.
    sort_by_ip-IsSorted : (es : List (DevicePoolEntry F)) → All IsV4 es → IsSorted (sort_by_ip es)
    unfolding sort_by_ip
    sort_by_ip-IsSorted es v = reverse-IsSorted _ (sort_from-IsFalling es [] v tt tt)
