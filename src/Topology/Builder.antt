-- ===== src/Topology/Builder.antt =====
-- agent/internal/topology/builder.go and classifier.go: the topology built from what discovery
-- found.
pub mod Sound
pub mod Kinds
pub mod Flags
pub mod Bands
pub mod Roles
use tmap.Base.{
  ℕ, suc, Bool, true, false, not, ◌&&◌, ◌||◌, List, [], ◌∷◌, ◌++◌, map, String, str_eq, is_empty,
  member, if◌then◌else◌, length, ◌==◌,
}
use tmap.Base.Float.{Float64, le}
use tmap.Topology.Types.{
  direct_lldp, direct_cdp, snmp_bridge, route_hop, inferred_l2, gateway_default, role_agent,
  role_gateway, role_router, role_host, Device, TopologyEdge,
}
use tmap.Topology.Confidence.{is_physical_evidence_edge}
use tmap.Topology.Edge.{new_edge}
use tmap.Topology.Graph.{Graph, new_graph, add_edges, sorted_edges}

pub record RouteHop : Type 0 where
  pub from_id : String
  pub to_id : String
  pub evidence_ids : List String

pub record Neighbor (F : Type 0) : Type 0 where
  pub from_id : String
  pub to_id : String
  pub kind : String
  pub confidence : F
  pub reason : String
  pub evidence_ids : List String

pub record BuildInput (F : Type 0) : Type 0 where
  pub agent_id : String
  pub gateway_id : String
  pub devices : List (Device F)
  pub gateway_route_evidence_ids : List String
  pub route_hops : List RouteHop
  pub l2_peers : List String
  pub neighbors : List (Neighbor F)

pub record BuildResult (F : Type 0) : Type 0 where
  pub devices : List (Device F)
  pub edges : List (TopologyEdge F)
  pub inferred_only : Bool
  pub high_confidence_edges : ℕ

pub record RoleInput : Type 0 where
  pub is_agent : Bool
  pub is_default_gw : Bool
  pub forwards_traffic : Bool

-- The closure `add` of `ClassifyRoles`.
unfoldable pub add_role : List String → String → List String
add_role roles r = if member r roles then roles else roles ++ (r ∷ [])

unfoldable pub classify_roles : RoleInput → List String
unfolding add_role
classify_roles in_ =
    let gateway = if in_.is_default_gw then add_role [] role_gateway else [] in
    let router = if in_.forwards_traffic then add_role gateway role_router else gateway in
    let agent = if in_.is_agent then add_role router role_agent else router in
    add_role agent role_host

unfoldable pub neighbor_reason : String → String
neighbor_reason kind =
    if str_eq kind direct_lldp
    then "Neighbour reported via LLDP; this is a directly attached link-layer neighbour."
    else if str_eq kind direct_cdp
    then "Neighbour reported via CDP; this is a directly attached link-layer neighbour."
    else if str_eq kind snmp_bridge
    then "Forwarding/bridge (FDB) table entry read via SNMP indicates a link-layer association."
    else "Link-layer neighbour."

-- The devices that the hops show to forward, and the gateway where there is a hop.
unfoldable pub forwarders : String → List RouteHop → List String
forwarders gateway [] = []
forwarders gateway (h ∷ hs) =
    let sources = map (λ (x : RouteHop). x.from_id) (h ∷ hs) in
    if is_empty gateway then sources else gateway ∷ sources

module _ {F : Type 0} where
  -- A neighbour counts where its kind is a physical one and it names evidence.
  unfoldable pub is_proven : Neighbor F → Bool
  is_proven n = is_physical_evidence_edge n.kind && not (length n.evidence_ids == 0)

module _ {F : Type 0} ⦃f : Float64 F⦄ where
  unfoldable pub neighbor_edge : Neighbor F → TopologyEdge F
  unfolding neighbor_reason
  neighbor_edge n =
      let reason = if is_empty n.reason then neighbor_reason n.kind else n.reason in
      new_edge n.from_id n.to_id n.kind reason n.confidence n.evidence_ids

  unfoldable pub neighbor_edges : List (Neighbor F) → List (TopologyEdge F)
  unfolding is_proven neighbor_edge
  neighbor_edges [] = []
  neighbor_edges (n ∷ ns) =
      let rest = neighbor_edges ns in
      if not (is_physical_evidence_edge n.kind)
      then rest
      else if length n.evidence_ids == 0
      then rest
      else neighbor_edge n ∷ rest

  unfoldable pub hop_edge : RouteHop → TopologyEdge F
  hop_edge h =
      new_edge h.from_id h.to_id route_hop
        "Adjacent hops observed in a traceroute; routed (L3) adjacency, not necessarily a direct physical link."
        (f.lit 0 1) h.evidence_ids

  unfoldable pub gateway_edges : BuildInput F → List (TopologyEdge F)
  gateway_edges in_ =
      let edge =
        new_edge in_.agent_id in_.gateway_id gateway_default
          "The agent's default route points at this gateway; this is the route to the rest of the network, not proof of a direct cable."
          (f.lit 0 1) in_.gateway_route_evidence_ids in
      if not (is_empty in_.agent_id) && not (is_empty in_.gateway_id) then edge ∷ [] else []

  unfoldable pub peer_edge : String → String → TopologyEdge F
  peer_edge hub peer =
      new_edge hub peer inferred_l2
        "On the same subnet (observed via ARP/ping); L2 adjacency is inferred from the shared broadcast domain and anchored at the gateway, not proven."
        (f.lit 0 1) []

  -- The peers of the subnet, at the gateway or else at the agent.
  unfoldable pub hub_of : BuildInput F → String
  hub_of in_ = if is_empty in_.gateway_id then in_.agent_id else in_.gateway_id

  unfoldable pub peer_edges : BuildInput F → List String → List (TopologyEdge F)
  unfolding peer_edge hub_of
  peer_edges in_ [] = []
  peer_edges in_ (peer ∷ peers) =
      let rest = peer_edges in_ peers in
      if str_eq peer in_.agent_id || str_eq peer in_.gateway_id
      then rest
      else peer_edge (hub_of in_) peer ∷ rest

  -- The edges offered to the graph, in the order of trust.
  unfoldable pub build_graph : BuildInput F → Graph F
  unfolding neighbor_edges hop_edge gateway_edges peer_edges
  build_graph in_ =
      let empty = new_graph (map (λ (d : Device F). d.id) in_.devices) in
      let proven = add_edges empty (neighbor_edges in_.neighbors) in
      let routed = add_edges proven (map hop_edge in_.route_hops) in
      let linked = add_edges routed (gateway_edges in_) in
      add_edges linked (peer_edges in_ in_.l2_peers)

  -- A device with the roles that the input supports.
  unfoldable pub with_roles : BuildInput F → Device F → Device F
  unfolding forwarders classify_roles
  with_roles in_ d = record d {
    is_gateway = str_eq d.id in_.gateway_id;
    is_agent = str_eq d.id in_.agent_id;
    roles = classify_roles (record {
      is_agent = str_eq d.id in_.agent_id;
      is_default_gw = str_eq d.id in_.gateway_id;
      forwards_traffic = member d.id (forwarders in_.gateway_id in_.route_hops);
    });
  }

  unfoldable pub all_inferred : List (TopologyEdge F) → Bool
  all_inferred [] = true
  all_inferred (e ∷ es) =
      let rest = all_inferred es in if is_physical_evidence_edge e.type then false else rest

  unfoldable pub count_high : List (TopologyEdge F) → ℕ
  count_high [] = 0
  count_high (e ∷ es) =
      let rest = count_high es in if le (f.lit 70 100) e.confidence then suc rest else rest

  unfoldable pub build : BuildInput F → BuildResult F
  unfolding build_graph with_roles all_inferred count_high
  build in_ =
      let edges = sorted_edges (build_graph in_) in
      record {
        devices = map (with_roles in_) in_.devices;
        edges = edges;
        inferred_only = all_inferred edges;
        high_confidence_edges = count_high edges;
      }
