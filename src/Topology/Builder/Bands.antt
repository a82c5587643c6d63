-- ===== src/Topology/Builder/Bands.antt =====
-- The confidence of the edges of a built topology, whatever the input.
use tmap.Base.{
  ℕ, suc, ◌≤◌, Bool, true, false, not, ◌&&◌, ◌||◌, List, [], ◌∷◌, map, String, str_eq, is_empty,
  if◌then◌else◌, if_case, All, ◌≡◌, inl, inr, Bool-cases, length, ◌==◌, arith, clash,
}
use tmap.Base.Float.{Float64, Ordered, le}
use tmap.Topology.Types.{TopologyEdge}
use tmap.Topology.Confidence.{is_physical_evidence_edge, max_confidence}
use tmap.Topology.Confidence.Bounds.{
  clamp_confidence-floor, clamp_confidence-ceiling, max_confidence-inferred,
}
use tmap.Topology.Edge.{edge_confidence, new_edge}
use tmap.Topology.Graph.{Graph, new_graph, add_edges}
use tmap.Topology.Graph.Sound.{IsKept, add_edge-IsKept, sorted_edges-All}
use tmap.Topology.Builder.{
  RouteHop, Neighbor, BuildInput, neighbor_edge, neighbor_edges, hop_edge, gateway_edges, peer_edge,
  peer_edges, build_graph, count_high, build,
}
use tmap.Topology.Builder.Kinds.{add_edges-keep}

module _ {F : Type 0} ⦃f : Float64 F⦄ (P : TopologyEdge F → Type 0)
    (made : (source target type reason : String) (c : F) (ids : List String)
      → P (new_edge source target type reason c ids)) where
  neighbor_edges-every : (ns : List (Neighbor F)) → All P (neighbor_edges ns)
  unfolding neighbor_edges neighbor_edge
  neighbor_edges-every [] = tt
  neighbor_edges-every (n ∷ ns) =
      let rest = neighbor_edges-every ns in
      if_case (All P) (not (is_physical_evidence_edge n.kind)) rest
        (if_case (All P) (length n.evidence_ids == 0) rest (made _ _ _ _ _ _, rest))

  hop_edges-every : (hs : List RouteHop) → All P (map hop_edge hs)
  unfolding hop_edge
  hop_edges-every [] = tt
  hop_edges-every (h ∷ hs) = (made _ _ _ _ _ _, hop_edges-every hs)

  gateway_edges-every : (in_ : BuildInput F) → All P (gateway_edges in_)
  unfolding gateway_edges
  gateway_edges-every in_ =
      if_case (All P) (not (is_empty in_.agent_id) && not (is_empty in_.gateway_id))
        (made _ _ _ _ _ _, tt) tt

  peer_edges-every : (in_ : BuildInput F) (peers : List String) → All P (peer_edges in_ peers)
  unfolding peer_edges peer_edge
  peer_edges-every in_ [] = tt
  peer_edges-every in_ (peer ∷ peers) =
      let rest = peer_edges-every in_ peers in
      if_case (All P) (str_eq peer in_.agent_id || str_eq peer in_.gateway_id) rest
        (made _ _ _ _ _ _, rest)

  offered-every :
      (g : Graph F) (es : List (TopologyEdge F))
      → All P es
      → IsKept P g.edges
      → IsKept P (add_edges g es).edges
  offered-every g es a h =
      add_edges-keep (λ (x : Graph F). IsKept P x.edges) P g es
        (λ x e p k. add_edge-IsKept P x e (λ j. p) k) a h

  -- What holds of every new edge holds of the edges of the result.
  build-every : (in_ : BuildInput F) → All P (build in_).edges
  unfolding build build_graph new_graph
  build-every in_ = sorted_edges-All P (build_graph in_) (
      offered-every _ _ (peer_edges-every in_ in_.l2_peers) (
        offered-every _ _ (gateway_edges-every in_) (
          offered-every _ _ (hop_edges-every in_.route_hops)
            (offered-every _ _ (neighbor_edges-every in_.neighbors) (tt, tt)))))

module _ {F : Type 0} ⦃f : Float64 F⦄ where
  -- The confidence is within the band of the type, which ends at 0.60 for a type without proof.
  pub record IsInBand (e : TopologyEdge F) : Type 0 where
    pub not_negative : le (f.lit 0 1) e.confidence ≡ true
    pub within : le e.confidence (max_confidence e.type) ≡ true
    pub unproven : is_physical_evidence_edge e.type ≡ false → le e.confidence (f.lit 60 100) ≡ true

  unfoldable pub count_physical : List (TopologyEdge F) → ℕ
  count_physical [] = 0
  count_physical (e ∷ es) =
      let rest = count_physical es in if is_physical_evidence_edge e.type then suc rest else rest

module _ {F : Type 0} ⦃f : Float64 F⦄ (o : Ordered F) where
  new_edge-IsInBand :
      (source target type reason : String) (c : F) (ids : List String)
      → IsInBand (new_edge source target type reason c ids)
  unfolding new_edge edge_confidence
  new_edge-IsInBand source target type reason c ids =
      let top = clamp_confidence-ceiling o type _ in
      record {
        not_negative = clamp_confidence-floor o type _;
        within = top;
        unproven = λ h.
            o.le_trans _ (max_confidence type) (f.lit 60 100) top
              (max_confidence-inferred o type h);
      }

  -- Every edge of a built topology is within the band of its type, and one without proof of
  -- adjacency is at 0.60 at most.
  pub build-IsInBand : (in_ : BuildInput F) → All IsInBand (build in_).edges
  build-IsInBand in_ = build-every IsInBand new_edge-IsInBand in_

  high_physical :
      (e : TopologyEdge F)
      → IsInBand e
      → is_physical_evidence_edge e.type ≡ false
      → le (f.lit 70 100) e.confidence ≡ false
  high_physical e b p = elim (Bool-cases (le (f.lit 70 100) e.confidence)) [
    | inl high ↦
        clash (f.lt (f.lit 60 100) (f.lit 70 100))
          (o.not_lt_of_le (f.lit 70 100) (f.lit 60 100)
            (o.le_trans (f.lit 70 100) e.confidence (f.lit 60 100) high (b.unproven p)))
          (o.lt_hundredths 60 70 (omega arith))
    | inr low ↦ low
  ]

  count_high-le : (es : List (TopologyEdge F)) → All IsInBand es → count_high es ≤ count_physical es
  unfolding count_high count_physical
  count_high-le [] h = omega arith
  count_high-le (e ∷ es) h = elim (Bool-cases (is_physical_evidence_edge e.type)) [
    | inl p ↦ rw p (counted (le (f.lit 70 100) e.confidence) (count_high-le es h.1))
    | inr n ↦ rw (n, high_physical e h.0 n) (count_high-le es h.1)
  ]
    where
      counted : (b : Bool) {m n : ℕ} → m ≤ n → (if b then suc m else m) ≤ suc n
      counted b h = ground arith

  -- The high-confidence edges that a built topology reports are no more than its edges of a proven
  -- type.
  high_confidence_edges-le :
      (in_ : BuildInput F) → (build in_).high_confidence_edges ≤ count_physical (build in_).edges
  unfolding build
  high_confidence_edges-le in_ = count_high-le (build in_).edges (build-IsInBand in_)
