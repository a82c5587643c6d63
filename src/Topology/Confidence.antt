-- ===== src/Topology/Confidence.antt =====
-- agent/internal/topology/confidence.go: the confidence bands of the types of an edge.
pub mod Bounds
use tmap.Base.{Bool, ◌||◌, String, str_eq, if◌then◌else◌, if_case}
use tmap.Base.Float.{Float64, le}
use tmap.Topology.Types.{
  direct_lldp, direct_cdp, snmp_bridge, route_hop, inferred_l2, gateway_default,
}

unfoldable pub is_physical_evidence_edge : String → Bool
is_physical_evidence_edge type =
    str_eq type direct_lldp || str_eq type direct_cdp || str_eq type snmp_bridge

-- The `switch` over the type of an edge, with the value of its `default` last.
unfoldable pub by_type {ℓ} : {A : Type ℓ} → String → A → A → A → A → A → A → A → A
by_type type lldp cdp snmp route l2 gateway other =
    if str_eq type direct_lldp
    then lldp
    else if str_eq type direct_cdp
    then cdp
    else if str_eq type snmp_bridge
    then snmp
    else if str_eq type route_hop
    then route
    else if str_eq type inferred_l2
    then l2
    else if str_eq type gateway_default
    then gateway
    else other

pub by_type-case {ℓ κ} :
    {A : Type ℓ} (P : A → Type κ) (type : String) {lldp cdp snmp route l2 gateway other : A}
    → P lldp
    → P cdp
    → P snmp
    → P route
    → P l2
    → P gateway
    → P other
    → P (by_type type lldp cdp snmp route l2 gateway other)
unfolding by_type
by_type-case P type a b c d e g h = if_case P (str_eq type direct_lldp) a (
    if_case P (str_eq type direct_cdp) b (
      if_case P (str_eq type snmp_bridge) c (
        if_case P (str_eq type route_hop) d
          (if_case P (str_eq type inferred_l2) e (if_case P (str_eq type gateway_default) g h)))))

module _ {F : Type 0} ⦃f : Float64 F⦄ where
  unfoldable pub base_confidence : String → F
  unfolding by_type
  base_confidence type =
      by_type type (f.lit 95 100) (f.lit 95 100) (f.lit 80 100) (f.lit 60 100) (f.lit 40 100)
        (f.lit 30 100) (f.lit 0 1)

  unfoldable pub max_confidence : String → F
  unfolding by_type
  max_confidence type =
      by_type type (f.lit 98 100) (f.lit 98 100) (f.lit 80 100) (f.lit 60 100) (f.lit 50 100)
        (f.lit 30 100) (f.lit 0 1)

  unfoldable pub clamp_confidence : String → F → F
  clamp_confidence type c =
      if f.lt c (f.lit 0 1)
      then f.lit 0 1
      else if f.lt (max_confidence type) c
      then max_confidence type
      else c

  unfoldable pub confidence_label : F → String
  confidence_label c =
      if le (f.lit 90 100) c
      then "very_high"
      else if le (f.lit 70 100) c
      then "high"
      else if le (f.lit 45 100) c
      then "medium"
      else if le (f.lit 25 100) c
      then "low"
      else "very_low"
