-- ===== src/Topology/Builder/Kinds.antt =====
-- The kinds of the edges that are offered to the graph, and what their offers keep.
use tmap.Base.{
  false, not, ◌&&◌, ◌||◌, List, [], ◌∷◌, map, String, str_eq, is_empty, if_case, All, ◌≡◌, refl,
}
use tmap.Base.Float.{Float64}
use tmap.Topology.Types.{TopologyEdge, route_hop, gateway_default, inferred_l2}
use tmap.Topology.Confidence.{is_physical_evidence_edge}
use tmap.Topology.Edge.{new_edge}
use tmap.Topology.Edge.Suffix.{ends_in_p, edge_id-p}
use tmap.Topology.Graph.{Graph, new_graph, add_edge, add_edges}
use tmap.Topology.Builder.{
  RouteHop, Neighbor, BuildInput, neighbor_edge, neighbor_edges, hop_edge, gateway_edges, peer_edge,
  peer_edges, hub_of, build_graph,
}
use tmap.Topology.Builder.Sound.{device_ids}

module _ {F : Type 0} where
  abbrev pub IsInferred : TopologyEdge F → Type 0
  IsInferred e = is_physical_evidence_edge e.type ≡ false

  -- The identifier tells the kind of the type.
  abbrev pub IsNamed : TopologyEdge F → Type 0
  IsNamed e = ends_in_p e.id ≡ is_physical_evidence_edge e.type

module _ {F : Type 0} ⦃f : Float64 F⦄ where
  new_edge-IsNamed :
      (source target type reason : String) (c : F) (ids : List String)
      → IsNamed (new_edge source target type reason c ids)
  unfolding new_edge
  new_edge-IsNamed source target type reason c ids = edge_id-p source target type

  pub neighbor_edge-IsNamed : (n : Neighbor F) → IsNamed (neighbor_edge n)
  unfolding neighbor_edge
  neighbor_edge-IsNamed n = new_edge-IsNamed _ _ _ _ _ _

  -- The edges that no neighbour backs.
  abbrev pub IsOther : TopologyEdge F → Type 0
  IsOther e = IsNamed e × IsInferred e

  hop_edges-IsOther :
      (in_ : BuildInput F) (hs : List RouteHop)
      → All (λ (e : TopologyEdge F). IsOther e) (map hop_edge hs)
  unfolding hop_edge
  hop_edges-IsOther in_ [] = tt
  hop_edges-IsOther in_ (h ∷ hs) = (
    (
      new_edge-IsNamed h.from_id h.to_id route_hop _ _ h.evidence_ids,
      unfold new_edge is_physical_evidence_edge in refl,
    ),
    hop_edges-IsOther in_ hs,
  )

  gateway_edges-IsOther : (in_ : BuildInput F) → All IsOther (gateway_edges in_)
  unfolding gateway_edges
  gateway_edges-IsOther in_ =
      if_case (All IsOther) (not (is_empty in_.agent_id) && not (is_empty in_.gateway_id))
        (
          (
            new_edge-IsNamed in_.agent_id in_.gateway_id gateway_default _ _ _,
            unfold new_edge is_physical_evidence_edge in refl,
          ),
          tt,
        )
        tt

  peer_edges-IsOther :
      (in_ : BuildInput F) (peers : List String) → All IsOther (peer_edges in_ peers)
  unfolding peer_edges peer_edge
  peer_edges-IsOther in_ [] = tt
  peer_edges-IsOther in_ (peer ∷ peers) =
      if_case (All IsOther) (str_eq peer in_.agent_id || str_eq peer in_.gateway_id)
        (peer_edges-IsOther in_ peers)
        (
          (
            new_edge-IsNamed (hub_of in_) peer inferred_l2 _ _ [],
            unfold new_edge is_physical_evidence_edge in refl,
          ),
          peer_edges-IsOther in_ peers,
        )

  -- What the steps keep that offer such edges.
  pub add_edges-keep :
      (Q : Graph F → Type 0) (P : TopologyEdge F → Type 0) (g : Graph F)
      (es : List (TopologyEdge F))
      → ((g : Graph F) (e : TopologyEdge F) → P e → Q g → Q (add_edge g e).0)
      → All P es
      → Q g
      → Q (add_edges g es)
  unfolding add_edges
  add_edges-keep Q P g [] step a h = h
  add_edges-keep Q P g (e ∷ es) step a h =
      add_edges-keep Q P (add_edge g e).0 es step a.1 (step g e a.0 h)

  abbrev pub proven_graph : BuildInput F → Graph F
  proven_graph in_ = add_edges (new_graph (device_ids in_)) (neighbor_edges in_.neighbors)

  pub build_graph-keep :
      (Q : Graph F → Type 0) (in_ : BuildInput F)
      → ((g : Graph F) (e : TopologyEdge F) → IsOther e → Q g → Q (add_edge g e).0)
      → Q (proven_graph in_)
      → Q (build_graph in_)
  unfolding build_graph
  build_graph-keep Q in_ step h =
      add_edges-keep Q IsOther _ (peer_edges in_ in_.l2_peers) step
        (peer_edges-IsOther in_ in_.l2_peers)
        (add_edges-keep Q IsOther _ (gateway_edges in_) step (gateway_edges-IsOther in_) (
          add_edges-keep Q IsOther _ (map hop_edge in_.route_hops) step
            (hop_edges-IsOther in_ in_.route_hops) h))
