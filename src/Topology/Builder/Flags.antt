-- ===== src/Topology/Builder/Flags.antt =====
-- The flag `InferredOnly` of a built topology.
use tmap.Base.{
  Bool, true, false, not, ◌&&◌, ◌||◌, some, List, [], ◌∷◌, String, str_eq, if◌then◌else◌, if_case,
  All, ◌≡◌, refl, sym, ◌∙◌, ap, inl, inr, Bool-cases, Option-cases, length, ◌==◌, arith, clash,
}
use text.Mathlib.TextPositions.{eq_refl}
use tmap.Base.Map.{Map, lookup, Each-lookup, map_values}
use tmap.Base.Float.{Float64, le}
use tmap.Topology.Types.{TopologyEdge}
use tmap.Topology.Confidence.{is_physical_evidence_edge}
use tmap.Topology.Edge.{new_edge}
use tmap.Topology.Edge.Suffix.{ends_in_p}
use tmap.Topology.Graph.{
  Graph, new_graph, add_edge, add_edges, comes_before, place, sort_edges, sorted_edges,
}
use tmap.Topology.Graph.Best.{
  add_edge-device_ids, joins, is_offer, stronger, lookup-add_edge, offer_same,
}
use tmap.Topology.Graph.Sound.{IsKept, add_edge-IsKept, add_edges-IsKept, sorted_edges-All}
use tmap.Topology.Builder.{
  Neighbor, BuildInput, is_proven, neighbor_edge, neighbor_edges, build_graph, all_inferred, build,
}
use tmap.Topology.Builder.Kinds.{
  IsInferred, IsNamed, neighbor_edge-IsNamed, add_edges-keep, build_graph-keep,
}
use tmap.Topology.Builder.Sound.{device_ids}

module _ {F : Type 0} ⦃f : Float64 F⦄ where
  -- Whether a proven neighbour links two known devices.
  unfoldable pub has_proven_link : List String → List (Neighbor F) → Bool
  has_proven_link ids [] = false
  has_proven_link ids (n ∷ ns) =
      (is_proven n && joins ids (neighbor_edge n)) || has_proven_link ids ns

  -- Without a proven link no edge is physical.
  neighbor_edges-IsInferred :
      (ids : List String) (ns : List (Neighbor F))
      → has_proven_link ids ns ≡ false
      → All (λ e. joins ids e ≡ true → IsInferred e) (neighbor_edges ns)
  unfolding has_proven_link neighbor_edges is_proven
  neighbor_edges-IsInferred ids [] h = tt
  neighbor_edges-IsInferred ids (n ∷ ns) h =
      let parts = split (is_proven n && joins ids (neighbor_edge n)) (has_proven_link ids ns) h in
      elim (Bool-cases (is_physical_evidence_edge n.kind)) [
        | inr other ↦ rw other (neighbor_edges-IsInferred ids ns parts.1)
        | inl p ↦ elim (Bool-cases (length n.evidence_ids == 0)) [
          | inl b ↦ rw (p, b) (neighbor_edges-IsInferred ids ns parts.1)
          | inr c ↦
              rw (p, c)
                (
                  (λ j.
                      clash (joins ids (neighbor_edge n))
                        (only (is_proven n) (joins ids (neighbor_edge n)) (rw (p, c) refl) parts.0)
                        j),
                  neighbor_edges-IsInferred ids ns parts.1,
                )
        ]
      ]
    where
      split : (a b : Bool) → (a || b) ≡ false → (a ≡ false) × (b ≡ false)
      split a b q = ground arith

      only : (a b : Bool) → a ≡ true → (a && b) ≡ false → b ≡ false
      only a b q r = ground arith

  all_inferred-place :
      (e : TopologyEdge F) (ds : List (TopologyEdge F))
      → all_inferred (place e ds) ≡ all_inferred (e ∷ ds)
  unfolding place all_inferred
  all_inferred-place e [] = refl
  all_inferred-place e (d ∷ ds) = elim (Bool-cases (comes_before d e)) [
    | inl first ↦
        rw (first, all_inferred-place e ds)
          (swap (is_physical_evidence_edge d.type) (is_physical_evidence_edge e.type)
            (all_inferred ds))
    | inr last ↦ rw last refl
  ]
    where
      swap :
          (p q r : Bool)
          → (if p then false else if q then false else r)
            ≡ (if q then false else if p then false else r)
      swap p q r = ground arith

  all_inferred-sort : (es : List (TopologyEdge F)) → all_inferred (sort_edges es) ≡ all_inferred es
  unfolding sort_edges all_inferred
  all_inferred-sort [] = refl
  all_inferred-sort (e ∷ es) =
      all_inferred-place e (sort_edges es)
      ∙ ap (λ b. if is_physical_evidence_edge e.type then false else b) (all_inferred-sort es)

  all_inferred-All : (es : List (TopologyEdge F)) → All IsInferred es → all_inferred es ≡ true
  unfolding all_inferred
  all_inferred-All [] h = refl
  all_inferred-All (e ∷ es) h = rw h.0 (all_inferred-All es h.1)

  all_inferred-lookup :
      (id : String) (d : TopologyEdge F) (m : Map (TopologyEdge F))
      → lookup id m ≡ some d
      → is_physical_evidence_edge d.type ≡ true
      → all_inferred (map_values m) ≡ false
  unfolding all_inferred lookup map_values
  all_inferred-lookup id d [] h p = absurd (ground arith)
  all_inferred-lookup id d ((k, e) ∷ m) h p = elim (Bool-cases (str_eq k id)) [
    | inl same ↦ rw (is_some e d (rw same at h), p) refl
    | inr other ↦
        if_case (λ b. b ≡ false) (is_physical_evidence_edge e.type) refl
          (all_inferred-lookup id d m (rw other at h) p)
  ]
    where
      is_some : (a b : TopologyEdge F) → some a ≡ some b → a.type ≡ b.type
      is_some a b q = cc

  -- A physical edge under an identifier.
  abbrev Holds : String → Graph F → Type 0
  Holds id g =
      (d : TopologyEdge F) × ((lookup id g.edges ≡ some d)
        × (is_physical_evidence_edge d.type ≡ true))

  stronger-Holds :
      (old : TopologyEdge F) (e : TopologyEdge F)
      → is_physical_evidence_edge old.type ≡ true
      → is_physical_evidence_edge e.type ≡ true
      → (d : TopologyEdge F) × ((stronger (some old) e ≡ some d)
          × (is_physical_evidence_edge d.type ≡ true))
  stronger-Holds old e p q = elim (Bool-cases (le e.confidence old.confidence)) [
    | inl kept ↦ (old, (rw kept refl, p))
    | inr beaten ↦ (e, (rw beaten refl, q))
  ]

  -- The graphs whose edges are named, with a physical edge under an identifier.
  abbrev Physical : String → Graph F → Type 0
  Physical id g = IsKept IsNamed g.edges × Holds id g

  kept_id :
      (g : Graph F) (id : String) (d : TopologyEdge F)
      → IsKept IsNamed g.edges
      → lookup id g.edges ≡ some d
      → (id ≡ d.id) × IsNamed d
  kept_id g id d k q = Each-lookup (λ j e. (j ≡ e.id) × IsNamed e) id g.edges {v = d} k.1 q

  -- An edge under the identifier of a physical one is physical.
  same_kind :
      (d e : TopologyEdge F)
      → e.id ≡ d.id
      → IsNamed d
      → IsNamed e
      → is_physical_evidence_edge d.type ≡ true
      → is_physical_evidence_edge e.type ≡ true
  same_kind d e q nd ne p = sym ne ∙ ap ends_in_p q ∙ nd ∙ p

  add_edge-Physical :
      (id : String) (g : Graph F) (e : TopologyEdge F)
      → IsNamed e
      → Physical id g
      → Physical id (add_edge g e).0
  add_edge-Physical id g e n (k, (d, (q, p))) = (
    add_edge-IsKept IsNamed g e (λ j. n) k,
    elim (Bool-cases (is_offer g.device_ids id e)) [
      | inl holds ↦
          let same = offer_same g.device_ids id e holds in
          let own = kept_id g id d k q in
          let at_own = ap (λ j. lookup j g.edges) same ∙ q in
          rw (lookup-add_edge, holds, at_own)
            (stronger-Holds d e p (same_kind d e (same ∙ own.0) own.1 n p))
      | inr fails ↦ rw (lookup-add_edge, fails) (d, (q, p))
    ],
  )

  -- A physical edge that joins known devices leaves a physical edge under its identifier.
  add_edge-first :
      (g : Graph F) (e : TopologyEdge F)
      → IsNamed e
      → is_physical_evidence_edge e.type ≡ true
      → joins g.device_ids e ≡ true
      → IsKept IsNamed g.edges
      → Physical e.id (add_edge g e).0
  unfolding is_offer
  add_edge-first g e n p j k = (
    add_edge-IsKept IsNamed g e (λ h. n) k,
    elim (Option-cases (lookup e.id g.edges)) [
      | inl empty ↦ rw (lookup-add_edge, j, eq_refl, empty) (e, (refl, p))
      | inr (d, q) ↦
          let own = kept_id g e.id d k q in
          rw (lookup-add_edge, j, eq_refl, q)
            (stronger-Holds d e (same_kind e d (sym own.0) n own.1 p) p)
    ],
  )

  neighbor_edges-IsNamed : (ns : List (Neighbor F)) → All IsNamed (neighbor_edges ns)
  unfolding neighbor_edges
  neighbor_edges-IsNamed [] = tt
  neighbor_edges-IsNamed (n ∷ ns) =
      let rest = neighbor_edges-IsNamed ns in
      if_case (All IsNamed) (not (is_physical_evidence_edge n.kind)) rest
        (if_case (All IsNamed) (length n.evidence_ids == 0) rest (neighbor_edge-IsNamed n, rest))

  neighbor_edge-type :
      (n : Neighbor F)
      → is_physical_evidence_edge (neighbor_edge n).type ≡ is_physical_evidence_edge n.kind
  unfolding neighbor_edge new_edge
  neighbor_edge-type n = refl

  neighbor_edges-Physical :
      (ids : List String) (g : Graph F) (ns : List (Neighbor F))
      → g.device_ids ≡ ids
      → IsKept IsNamed g.edges
      → has_proven_link ids ns ≡ true
      → (id : String) × Physical id (add_edges g (neighbor_edges ns))
  unfolding has_proven_link neighbor_edges add_edges is_proven
  neighbor_edges-Physical ids g [] d k h = clash false refl h
  neighbor_edges-Physical ids g (n ∷ ns) d k h =
      let e = neighbor_edge n in
      elim (Bool-cases (is_physical_evidence_edge n.kind)) [
        | inr other ↦ rw other (neighbor_edges-Physical ids g ns d k (rw other at h))
        | inl p ↦ elim (Bool-cases (length n.evidence_ids == 0)) [
          | inl b ↦ rw (p, b) (neighbor_edges-Physical ids g ns d k (rw (p, b) at h))
          | inr c ↦ elim (Bool-cases (joins ids e)) [
            | inl j ↦
                rw (p, c)
                  (
                    e.id,
                    add_edges-keep (Physical e.id) IsNamed (add_edge g e).0 (neighbor_edges ns)
                        (add_edge-Physical e.id) (neighbor_edges-IsNamed ns)
                        (add_edge-first g e (neighbor_edge-IsNamed n) (neighbor_edge-type n ∙ p)
                          (rw d j) k),
                  )
            | inr m ↦
                rw (p, c)
                  (neighbor_edges-Physical ids (add_edge g e).0 ns (add_edge-device_ids g e ∙ d)
                    (add_edge-IsKept IsNamed g e (λ j. neighbor_edge-IsNamed n) k)
                    (rw (p, c, m) at h))
          ]
        ]
      ]

  -- A topology is marked as resting on inference alone just where no neighbour of the input that
  -- names evidence of a physical kind links two known devices.
  pub build-inferred_only :
      (in_ : BuildInput F)
      → (build in_).inferred_only ≡ not (has_proven_link (device_ids in_) in_.neighbors)
  unfolding build new_graph
  build-inferred_only in_ =
      let ids = device_ids in_ in
      elim (Bool-cases (has_proven_link ids in_.neighbors)) [
        | inl holds ↦
            let (id, first) =
              neighbor_edges-Physical ids (new_graph ids) in_.neighbors refl (tt, tt) holds in
            let (k, (d, (q, p))) =
              build_graph-keep (Physical id) in_ (λ g e o h. add_edge-Physical id g e o.0 h)
                first in
            rw holds (
              sorted_inferred (build_graph in_)
              ∙ all_inferred-lookup id d (build_graph in_).edges q p)
        | inr fails ↦
            let k =
              build_graph-keep (λ (g : Graph F). IsKept IsInferred g.edges) in_
                (λ g e o h. add_edge-IsKept IsInferred g e (λ j. o.1) h)
                (add_edges-IsKept IsInferred ids (new_graph ids) (neighbor_edges in_.neighbors) refl
                  (neighbor_edges-IsInferred ids in_.neighbors fails) (tt, tt)).1 in
            rw fails (
              all_inferred-All (sorted_edges (build_graph in_))
                (sorted_edges-All IsInferred (build_graph in_) k))
      ]
    where
      sorted_inferred :
          (g : Graph F) → all_inferred (sorted_edges g) ≡ all_inferred (map_values g.edges)
      sorted_inferred g = unfold sorted_edges in all_inferred-sort (map_values g.edges)
