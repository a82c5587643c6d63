-- ===== src/Topology/Graph/Order.antt =====
-- The order in which `Edges` lists a graph.
use mathlib.Core.List.{Perm}
use mathlib.Core.List.Perm
use tmap.Base.{
  Bool, true, false, ◌||◌, List, [], ◌∷◌, All, All-map, ◌≡◌, inl, inr, if_case, Bool-cases, arith,
}
use tmap.Base.Map.{map_values}
use tmap.Base.Float.{Float64, Ordered, le}
use tmap.Topology.Types.{TopologyEdge}
use tmap.Topology.Graph.{Graph, comes_before, place, sort_edges, sorted_edges}
use tmap.Topology.Graph.Sound.{place-All}

module _ {F : Type 0} ⦃f : Float64 F⦄ where
  abbrev pub IsAtMost : TopologyEdge F → TopologyEdge F → Type 0
  IsAtMost d e = le e.confidence d.confidence ≡ true

  -- The confidence does not rise along the list.
  abbrev pub IsFalling : List (TopologyEdge F) → Type 0
  IsFalling [] = Unit
  IsFalling (e ∷ es) = All (IsAtMost e) es × IsFalling es

  place-Perm : (e : TopologyEdge F) (ds : List (TopologyEdge F)) → Perm (place e ds) (e ∷ ds)
  unfolding place
  place-Perm e [] = Perm.rfl
  place-Perm e (d ∷ ds) =
      if_case (λ r. Perm r (e ∷ d ∷ ds)) (comes_before d e)
        (Perm.trans (Perm.cons d (place-Perm e ds)) (Perm.swap e d ds)) Perm.rfl

  sort_edges-Perm : (es : List (TopologyEdge F)) → Perm (sort_edges es) es
  unfolding sort_edges
  sort_edges-Perm [] = Perm.rfl
  sort_edges-Perm (e ∷ es) =
      Perm.trans (place-Perm e (sort_edges es)) (Perm.cons e (sort_edges-Perm es))

module _ {F : Type 0} ⦃f : Float64 F⦄ (o : Ordered F) where
  -- The test of the sort agrees with the confidence.
  comes_before-le :
      (d e : TopologyEdge F)
      → (comes_before d e ≡ true → IsAtMost d e) × (comes_before d e ≡ false → IsAtMost e d)
  unfolding comes_before
  comes_before-le d e = elim (Bool-cases (f.eq d.confidence e.confidence)) [
    | inl same ↦ (
      (λ h. right (f.lt e.confidence d.confidence) _ (o.eq_sym d.confidence e.confidence same)),
      (λ h. right (f.lt d.confidence e.confidence) _ same),
    )
    | inr differ ↦ (
      (λ h. left _ (f.eq e.confidence d.confidence) (rw differ at h)),
      (λ h. o.le_of_not_lt e.confidence d.confidence (rw differ at h)),
    )
  ]
    where
      right : (a b : Bool) → b ≡ true → (a || b) ≡ true
      right a b h = ground arith

      left : (a b : Bool) → a ≡ true → (a || b) ≡ true
      left a b h = ground arith

  place-IsFalling :
      (e : TopologyEdge F) (ds : List (TopologyEdge F)) → IsFalling ds → IsFalling (place e ds)
  unfolding place
  place-IsFalling e [] h = (tt, tt)
  place-IsFalling e (d ∷ ds) h = elim (Bool-cases (comes_before d e)) [
    | inl first ↦
        rw first (
          place-All (IsAtMost d) e ds ((comes_before-le d e).0 first) h.0,
          place-IsFalling e ds h.1,
        )
    | inr last ↦
        let up = (comes_before-le d e).1 last in
        rw last (
          (
            up,
            All-map (IsAtMost d) (IsAtMost e) ds
                (λ x q. o.le_trans x.confidence d.confidence e.confidence q up) h.0,
          ),
          h,
        )
  ]

  sort_edges-IsFalling : (es : List (TopologyEdge F)) → IsFalling (sort_edges es)
  unfolding sort_edges
  sort_edges-IsFalling [] = tt
  sort_edges-IsFalling (e ∷ es) = place-IsFalling e (sort_edges es) (sort_edges-IsFalling es)

  -- The list of a graph holds each of its edges once, and puts none before a more confident one.
  pub sorted_edges-IsFalling :
      (g : Graph F) → Perm (sorted_edges g) (map_values g.edges) × IsFalling (sorted_edges g)
  unfolding sorted_edges
  sorted_edges-IsFalling g =
      (sort_edges-Perm (map_values g.edges), sort_edges-IsFalling (map_values g.edges))
