-- ===== src/Topology/Edge/Suffix.antt =====
-- The identifier of an edge tells whether its type is a proven one: just those end in "p".
use Prim.Native.Char.{code}
use Prim.Native.String.{String as Text}
use text.Mathlib.TextLemmas.{nil-append, cons-append, append-eq-nil_iff}
use text.Mathlib.TextEquality.{eq_iff}
use tmap.Base.{
  Bool, true, false, ◌||◌, String, ◌<>◌, is_empty, str_eq, if◌then◌else◌, ◌==◌, ◌≡◌, refl, ◌∙◌, ap,
  inl, inr, Bool-cases, clash,
}
use tmap.Topology.Confidence.{by_type, by_type-case, is_physical_evidence_edge}
use tmap.Topology.Edge.{short_edge_type, edge_id}

-- Whether the last byte is "p".
unfoldable pub ends_in_p : String → Bool
ends_in_p Text.[] = false
ends_in_p (Text.◌∷◌ c s) = let rest = ends_in_p s in if is_empty s then code c == b'p' else rest

append-filled : (s t : String) → is_empty t ≡ false → is_empty (s <> t) ≡ false
append-filled s t h = elim (Bool-cases (is_empty (s <> t))) [
  | inl blank ↦
      clash (is_empty t) h ((eq_iff t "").1 (append-eq-nil_iff.0 ((eq_iff (s <> t) "").0 blank)).1)
  | inr filled ↦ filled
]

ends_in_p-append : (s t : String) → is_empty t ≡ false → ends_in_p (s <> t) ≡ ends_in_p t
unfolding ends_in_p
ends_in_p-append Text.[] t h = ap ends_in_p (nil-append t)
ends_in_p-append (Text.◌∷◌ c s) t h =
    ap ends_in_p (cons-append c s t) ∙ rw (append-filled s t h) (ends_in_p-append s t h)

short_edge_type-filled : (type : String) → is_empty (short_edge_type type) ≡ false
unfolding short_edge_type
short_edge_type-filled type =
    by_type-case (λ s. is_empty s ≡ false) type refl refl refl refl refl refl refl

short_edge_type-p :
    (type : String) → ends_in_p (short_edge_type type) ≡ is_physical_evidence_edge type
unfolding short_edge_type is_physical_evidence_edge by_type ends_in_p
short_edge_type-p type =
    pick (str_eq type "direct_lldp") (str_eq type "direct_cdp") (str_eq type "snmp_bridge")
      (str_eq type "route_hop") (str_eq type "inferred_l2") (str_eq type "gateway_default")
  where
    pick :
        (a b c d e g : Bool)
        → ends_in_p (
            if a
            then "lldp"
            else if b
            then "cdp"
            else if c
            then "snmp"
            else if d
            then "route"
            else if e
            then "l2"
            else if g
            then "gw"
            else "x")
          ≡ (a || b || c)
    pick true b c d e g = refl
    pick false true c d e g = refl
    pick false false true d e g = refl
    pick false false false true e g = refl
    pick false false false false true g = refl
    pick false false false false false true = refl
    pick false false false false false false = refl

pub edge_id-p :
    (source target type : String)
    → ends_in_p (edge_id source target type) ≡ is_physical_evidence_edge type
unfolding edge_id
edge_id-p source target type =
    let short = short_edge_type type in
    let filled = short_edge_type-filled type in
    let a = append-filled "--" short filled in
    let b = append-filled target _ a in
    let c = append-filled "--" _ b in
    let d = append-filled source _ c in
    ends_in_p-append "edge-" _ d
    ∙ ends_in_p-append source _ c
    ∙ ends_in_p-append "--" _ b
    ∙ ends_in_p-append target _ a
    ∙ ends_in_p-append "--" short filled
    ∙ short_edge_type-p type
