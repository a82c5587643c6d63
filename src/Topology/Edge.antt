-- ===== src/Topology/Edge.antt =====
-- agent/internal/topology/edge.go: the constructor of an edge and the fields it derives from the
-- type.
pub mod Sound
pub mod Suffix
use tmap.Base.{Bool, true, false, ◌||◌, List, String, ◌<>◌, str_eq, if◌then◌else◌}
use tmap.Base.Float.{Float64}
use tmap.Topology.Types.{inferred_l2, TopologyEdge}
use tmap.Topology.Confidence.{
  by_type, is_physical_evidence_edge, base_confidence, clamp_confidence, confidence_label,
}
use tmap.Topology.Evidence.{dedup_sorted}

unfoldable pub short_edge_type : String → String
unfolding by_type
short_edge_type type = by_type type "lldp" "cdp" "snmp" "route" "l2" "gw" "x"

-- `edge-%s--%s--%s`
unfoldable pub edge_id : String → String → String → String
edge_id source target type =
    "edge-" <> (source <> ("--" <> (target <> ("--" <> short_edge_type type))))

unfoldable pub edge_layer : String → String
unfolding by_type
edge_layer type = by_type type "L2" "L2" "L2" "L3" "L2" "L3" "unknown"

unfoldable pub edge_relationship : String → String
unfolding by_type
edge_relationship type =
    by_type type "lldp_neighbor" "cdp_neighbor" "snmp_bridge_fdb" "traceroute_hop" "same_subnet"
      "default_gateway" "unknown"

unfoldable pub edge_inferred : String → Bool
unfolding by_type
edge_inferred type = by_type type false false false false true true true

unfoldable pub edge_proof_source : String → String
unfolding by_type
edge_proof_source type =
    by_type type "lldp" "cdp" "snmp_bridge_fdb" "traceroute" "same_subnet_arp_ping" "route_table"
      "unknown"

module _ {F : Type 0} ⦃f : Float64 F⦄ where
  unfoldable pub edge_line_style : String → F → String
  edge_line_style type confidence =
      if is_physical_evidence_edge type
      then "solid"
      else if str_eq type inferred_l2 || f.lt confidence (f.lit 50 100)
      then "dotted"
      else "dashed"

  -- The confidence of a new edge: the one asked for where it is above 0, within the type's band.
  unfoldable pub edge_confidence : String → F → F
  edge_confidence type override =
      clamp_confidence type (if f.lt (f.lit 0 1) override then override else base_confidence type)

  unfoldable pub new_edge : String → String → String → String → F → List String → TopologyEdge F
  new_edge source target type reason override evidence_ids =
      let conf = edge_confidence type override in
      record {
        id = edge_id source target type;
        source = source;
        target = target;
        type = type;
        layer = edge_layer type;
        relationship = edge_relationship type;
        physical = is_physical_evidence_edge type;
        inferred = edge_inferred type;
        confidence = conf;
        confidence_label = confidence_label conf;
        proof_source = edge_proof_source type;
        ui_line_style = edge_line_style type conf;
        evidence_ids = dedup_sorted evidence_ids;
        reason = reason;
      }
