-- ===== src/Topology/Builder/Sound.antt =====
-- The edges of a built topology.
use tmap.Base.{
  true, false, not, ◌&&◌, ◌||◌, List, [], ◌∷◌, map, String, str_eq, is_empty, member, if◌then◌else◌,
  if_case, All, All-map, ◌≡◌, refl, inl, inr, Bool-cases, length, ◌==◌, clash,
}
use tmap.Base.Float.{Float64, Ordered}
use tmap.Topology.Types.{Device, TopologyEdge, route_hop, gateway_default, inferred_l2}
use tmap.Topology.Confidence.{is_physical_evidence_edge}
use tmap.Topology.Confidence.Bounds.{physical_cases}
use tmap.Topology.Edge.Sound.{IsKnown, IsWellFormed, new_edge-IsWellFormed, cites}
use tmap.Topology.Validate.{is_valid_edge_type}
use tmap.Topology.Graph.{Graph, new_graph, add_edges}
use tmap.Topology.Graph.Best.{joins}
use tmap.Topology.Graph.Sound.{
  IsApart, IsKept, add_edges-IsKept, sorted_edges-All, sorted_edges-IsApart,
}
use tmap.Topology.Builder.{
  RouteHop, Neighbor, BuildInput, is_proven, neighbor_reason, neighbor_edge, neighbor_edges,
  hop_edge, gateway_edges, peer_edge, peer_edges, hub_of, build_graph, build,
}

-- What the producer of the input answers for: each proven neighbour names evidence, and all that is
-- named is known.
pub record IsSupported {F : Type 0} (known : List String) (in_ : BuildInput F) : Type 0 where
  pub neighbors_cite :
      All (λ (n : Neighbor F). is_proven n ≡ true → cites n.evidence_ids ≡ true) in_.neighbors
  pub neighbors_known : All (λ (n : Neighbor F). All (IsKnown known) n.evidence_ids) in_.neighbors
  pub hops_known : All (λ (h : RouteHop). All (IsKnown known) h.evidence_ids) in_.route_hops
  pub gateway_known : All (IsKnown known) in_.gateway_route_evidence_ids

neighbor_reason-filled : (kind : String) → is_empty (neighbor_reason kind) ≡ false
unfolding neighbor_reason
neighbor_reason-filled kind =
    if_case (λ s. is_empty s ≡ false) (str_eq kind "direct_lldp") refl
      (if_case (λ s. is_empty s ≡ false) (str_eq kind "direct_cdp") refl
        (if_case (λ s. is_empty s ≡ false) (str_eq kind "snmp_bridge") refl refl))

physical-valid :
    (kind : String) → is_physical_evidence_edge kind ≡ true → is_valid_edge_type kind ≡ true
physical-valid kind h = elim (physical_cases kind h) [
  | inl a ↦ rw a (unfold is_valid_edge_type member in refl)
  | inr (inl b) ↦ rw b (unfold is_valid_edge_type member in refl)
  | inr (inr c) ↦ rw c (unfold is_valid_edge_type member in refl)
]

module _ {F : Type 0} ⦃f : Float64 F⦄ (o : Ordered F) (known : List String) where
  neighbor_edge-IsWellFormed :
      (n : Neighbor F)
      → is_physical_evidence_edge n.kind ≡ true
      → cites n.evidence_ids ≡ true
      → All (IsKnown known) n.evidence_ids
      → IsWellFormed known (neighbor_edge n)
  unfolding neighbor_edge
  neighbor_edge-IsWellFormed n p c k =
      new_edge-IsWellFormed o known n.from_id n.to_id n.kind _ n.confidence n.evidence_ids
        (physical-valid n.kind p) reason (λ q. c) k
    where
      reason : is_empty (if is_empty n.reason then neighbor_reason n.kind else n.reason) ≡ false
      reason = elim (Bool-cases (is_empty n.reason)) [
        | inl blank ↦ rw blank (neighbor_reason-filled n.kind)
        | inr filled ↦ rw filled filled
      ]

  neighbor_edges-All :
      (ns : List (Neighbor F))
      → All (λ (n : Neighbor F). is_proven n ≡ true → cites n.evidence_ids ≡ true) ns
      → All (λ (n : Neighbor F). All (IsKnown known) n.evidence_ids) ns
      → All (IsWellFormed known) (neighbor_edges ns)
  unfolding neighbor_edges is_proven
  neighbor_edges-All [] c k = tt
  neighbor_edges-All (n ∷ ns) c k = elim (Bool-cases (is_physical_evidence_edge n.kind)) [
    | inr other ↦ rw other (neighbor_edges-All ns c.1 k.1)
    | inl p ↦ elim (Bool-cases (length n.evidence_ids == 0)) [
      | inl blank ↦ rw (p, blank) (neighbor_edges-All ns c.1 k.1)
      | inr cited ↦
          rw (p, cited)
            (
              neighbor_edge-IsWellFormed n p (c.0 (rw (p, cited) refl)) k.0,
              neighbor_edges-All ns c.1 k.1,
            )
    ]
  ]

  hop_edges-All :
      (hs : List RouteHop)
      → All (λ (h : RouteHop). All (IsKnown known) h.evidence_ids) hs
      → All (IsWellFormed {F = F} known) (map hop_edge hs)
  unfolding hop_edge
  hop_edges-All [] k = tt
  hop_edges-All (h ∷ hs) k = (
    new_edge-IsWellFormed o known h.from_id h.to_id route_hop _ (f.lit 0 1) h.evidence_ids
        (unfold is_valid_edge_type member in refl) refl
        (λ p.
          clash (is_physical_evidence_edge route_hop) (unfold is_physical_evidence_edge in refl) p)
        k.0,
    hop_edges-All hs k.1,
  )

  gateway_edges-All :
      (in_ : BuildInput F)
      → All (IsKnown known) in_.gateway_route_evidence_ids
      → All (IsWellFormed known) (gateway_edges in_)
  unfolding gateway_edges
  gateway_edges-All in_ k =
      if_case (All (IsWellFormed known))
        (not (is_empty in_.agent_id) && not (is_empty in_.gateway_id))
        (
          new_edge-IsWellFormed o known in_.agent_id in_.gateway_id gateway_default _ (f.lit 0 1)
              in_.gateway_route_evidence_ids (unfold is_valid_edge_type member in refl) refl
              (λ p.
                clash (is_physical_evidence_edge gateway_default)
                  (unfold is_physical_evidence_edge in refl) p)
              k,
          tt,
        )
        tt

  peer_edges-All :
      (in_ : BuildInput F) (peers : List String) → All (IsWellFormed known) (peer_edges in_ peers)
  unfolding peer_edges peer_edge
  peer_edges-All in_ [] = tt
  peer_edges-All in_ (peer ∷ peers) =
      if_case (All (IsWellFormed known)) (str_eq peer in_.agent_id || str_eq peer in_.gateway_id)
        (peer_edges-All in_ peers)
        (
          new_edge-IsWellFormed o known (hub_of in_) peer inferred_l2 _ (f.lit 0 1) []
              (unfold is_valid_edge_type member in refl) refl
              (λ p.
                clash (is_physical_evidence_edge inferred_l2)
                  (unfold is_physical_evidence_edge in refl) p)
              tt,
          peer_edges-All in_ peers,
        )

-- An edge of the result: well formed, and between two devices of the input.
abbrev pub IsLink :
    {F : Type 0} ⦃f : Float64 F⦄ → List String → List String → TopologyEdge F → Type 0
IsLink known ids e = IsWellFormed known e × (joins ids e ≡ true)

abbrev pub device_ids : {F : Type 0} → BuildInput F → List String
device_ids {F} in_ = map (λ (d : Device F). d.id) in_.devices

module _ {F : Type 0} ⦃f : Float64 F⦄ where
  offered-IsKept :
      (known ids : List String) (g : Graph F) (es : List (TopologyEdge F))
      → All (IsWellFormed known) es
      → (g.device_ids ≡ ids) × IsKept (IsLink known ids) g.edges
      → ((add_edges g es).device_ids ≡ ids) × IsKept (IsLink known ids) (add_edges g es).edges
  offered-IsKept known ids g es a h =
      add_edges-IsKept (IsLink known ids) ids g es h.0
        (All-map (IsWellFormed known) (λ e. joins ids e ≡ true → IsLink known ids e) es
          (λ e w j. (w, j)) a)
        h.1

  build_graph-IsKept :
      (o : Ordered F) (known : List String) (in_ : BuildInput F)
      → IsSupported known in_
      → IsKept (IsLink known (device_ids in_)) (build_graph in_).edges
  unfolding build_graph new_graph
  build_graph-IsKept o known in_ s =
      let ids = device_ids in_ in
      let start =
        offered-IsKept known ids (new_graph ids) (neighbor_edges in_.neighbors)
          (neighbor_edges-All o known in_.neighbors s.neighbors_cite s.neighbors_known)
          (refl, (tt, tt)) in
      let routed =
        offered-IsKept known ids _ (map hop_edge in_.route_hops)
          (hop_edges-All o known in_.route_hops s.hops_known) start in
      let linked =
        offered-IsKept known ids _ (gateway_edges in_)
          (gateway_edges-All o known in_ s.gateway_known) routed in
      (offered-IsKept known ids _ (peer_edges in_ in_.l2_peers)
        (peer_edges-All o known in_ in_.l2_peers) linked).1

  pub build-IsLink :
      (o : Ordered F) (known : List String) (in_ : BuildInput F)
      → IsSupported known in_
      → All (IsLink known (device_ids in_)) (build in_).edges
  unfolding build
  build-IsLink o known in_ s =
      sorted_edges-All (IsLink known (device_ids in_)) (build_graph in_)
        (build_graph-IsKept o known in_ s)

  -- No two edges of a topology built from supported input share an identifier.
  pub build-IsApart :
      (o : Ordered F) (known : List String) (in_ : BuildInput F)
      → IsSupported known in_
      → IsApart (build in_).edges
  unfolding build
  build-IsApart o known in_ s =
      sorted_edges-IsApart (IsLink known (device_ids in_)) (build_graph in_)
        (build_graph-IsKept o known in_ s)
