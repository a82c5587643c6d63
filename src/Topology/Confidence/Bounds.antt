-- ===== src/Topology/Confidence/Bounds.antt =====
-- The bands of confidence.go: no confidence leaves the band of its type.
use tmap.Base.{
  ℕ, ◌≤◌, ◌≡◌, Bool, true, false, ◌||◌, String, str_eq, if_case, Bool-cases, inl, inr, ◌⊎◌, arith,
}
use text.Mathlib.TextEquality.{eq_iff}
use tmap.Base.Float.{Float64, Ordered, le}
use tmap.Topology.Types.{
  direct_lldp, direct_cdp, snmp_bridge, route_hop, inferred_l2, gateway_default,
}
use tmap.Topology.Confidence.{
  by_type, by_type-case, is_physical_evidence_edge, max_confidence, clamp_confidence,
}

-- The three types of proven adjacency.
pub physical_cases :
    (type : String)
    → is_physical_evidence_edge type ≡ true
    → (type ≡ direct_lldp) ⊎ ((type ≡ direct_cdp) ⊎ (type ≡ snmp_bridge))
unfolding is_physical_evidence_edge
physical_cases type h =
    ground (arith, eq_iff type direct_lldp, eq_iff type direct_cdp, eq_iff type snmp_bridge)

-- A predicate of the values at the types without proof holds of the value at such a type.
by_type-inferred {ℓ κ} :
    {A : Type ℓ} (P : A → Type κ) (type : String) (lldp cdp snmp : A) {route l2 gateway other : A}
    → is_physical_evidence_edge type ≡ false
    → P route
    → P l2
    → P gateway
    → P other
    → P (by_type type lldp cdp snmp route l2 gateway other)
unfolding is_physical_evidence_edge by_type
by_type-inferred P type lldp cdp snmp h d e g z =
    let none =
      all_false (str_eq type direct_lldp) (str_eq type direct_cdp) (str_eq type snmp_bridge) h in
    rw (none.0, none.1.0, none.1.1)
      (if_case P (str_eq type route_hop) d
        (if_case P (str_eq type inferred_l2) e (if_case P (str_eq type gateway_default) g z)))
  where
    all_false : (a b c : Bool) → (a || b || c) ≡ false → (a ≡ false) × ((b ≡ false) × (c ≡ false))
    all_false a b c q = ground arith

module _ {F : Type 0} ⦃f : Float64 F⦄ (o : Ordered F) where
  zero_zero : le (f.lit 0 1) (f.lit 0 1) ≡ true
  zero_zero = o.le_refl (f.lit 0 1)

  zero_below : (n : ℕ) → n ≤ 100 → le (f.lit 0 1) (f.lit 1 1) ≡ true
  zero_below n h =
      o.le_trans (f.lit 0 1) (f.lit n 100) (f.lit 1 1) (o.zero_hundredths n) (o.hundredths_one n h)

  pub max_confidence-floor : (type : String) → le (f.lit 0 1) (max_confidence type) ≡ true
  unfolding max_confidence
  max_confidence-floor type =
      by_type-case (λ c. le (f.lit 0 1) c ≡ true) type (o.zero_hundredths 98) (o.zero_hundredths 98)
        (o.zero_hundredths 80) (o.zero_hundredths 60) (o.zero_hundredths 50) (o.zero_hundredths 30)
        zero_zero

  pub max_confidence-one : (type : String) → le (max_confidence type) (f.lit 1 1) ≡ true
  unfolding max_confidence
  max_confidence-one type =
      by_type-case (λ c. le c (f.lit 1 1) ≡ true) type (o.hundredths_one 98 (omega arith))
        (o.hundredths_one 98 (omega arith)) (o.hundredths_one 80 (omega arith))
        (o.hundredths_one 60 (omega arith)) (o.hundredths_one 50 (omega arith))
        (o.hundredths_one 30 (omega arith)) (zero_below 0 (omega arith))

  -- The band of an inferred type ends at 0.60.
  pub max_confidence-inferred :
      (type : String)
      → is_physical_evidence_edge type ≡ false
      → le (max_confidence type) (f.lit 60 100) ≡ true
  unfolding max_confidence
  max_confidence-inferred type h =
      by_type-inferred (λ c. le c (f.lit 60 100) ≡ true) type (f.lit 98 100) (f.lit 98 100)
        (f.lit 80 100) h (o.le_refl (f.lit 60 100)) (o.hundredths 50 60 (omega arith))
        (o.hundredths 30 60 (omega arith)) (o.zero_hundredths 60)

  pub clamp_confidence-floor :
      (type : String) (c : F) → le (f.lit 0 1) (clamp_confidence type c) ≡ true
  unfolding clamp_confidence
  clamp_confidence-floor type c = elim (Bool-cases (f.lt c (f.lit 0 1))) [
    | inl low ↦ rw low zero_zero
    | inr high ↦ rw high (
        if_case {A = F} (λ x. le (f.lit 0 1) x ≡ true) (f.lt (max_confidence type) c)
          (max_confidence-floor type) (o.le_of_not_lt c (f.lit 0 1) high))
  ]

  pub clamp_confidence-ceiling :
      (type : String) (c : F) → le (clamp_confidence type c) (max_confidence type) ≡ true
  unfolding clamp_confidence
  clamp_confidence-ceiling type c =
      if_case {A = F} (λ x. le x (max_confidence type) ≡ true) (f.lt c (f.lit 0 1))
        (max_confidence-floor type)
        (elim (Bool-cases (f.lt (max_confidence type) c)) [
          | inl high ↦ rw high (o.le_refl (max_confidence type))
          | inr low ↦ rw low (o.le_of_not_lt (max_confidence type) c low)
        ])
