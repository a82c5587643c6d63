-- ===== src/Topology/Graph/Sound.antt =====
-- What holds of every edge of a graph and of its sorted list.
use tmap.Base.{
  true, none, List, [], ◌∷◌, String, str_eq, if_case, All, ◌≡◌, ◌≢◌, refl, sym, ◌∙◌, subst, inl,
  inr, Bool-cases, clash, arith,
}
use text.Mathlib.TextEquality.{eq_iff}
use tmap.Base.Map.{Map, lookup, Keyed, Each, insert-Keyed, Each-insert, map_values}
use tmap.Base.Float.{Float64}
use tmap.Topology.Types.{TopologyEdge}
use tmap.Topology.Graph.{
  Graph, keeps, add_edge, add_edges, comes_before, place, sort_edges, sorted_edges,
}
use tmap.Topology.Graph.Best.{joins, add_edge-flat, add_edge-device_ids}

module _ {F : Type 0} where
  abbrev pub Apart : TopologyEdge F → TopologyEdge F → Type 0
  Apart d e = d.id ≢ e.id

  -- No two edges share an identifier.
  abbrev pub IsApart : List (TopologyEdge F) → Type 0
  IsApart [] = Unit
  IsApart (e ∷ es) = All (Apart e) es × IsApart es

  -- One edge under its own identifier, with a predicate of each.
  abbrev pub IsKept : (TopologyEdge F → Type 0) → Map (TopologyEdge F) → Type 0
  IsKept P m = Keyed m × Each (λ k e. (k ≡ e.id) × P e) m

  pub map_values-All :
      (P : TopologyEdge F → Type 0) (m : Map (TopologyEdge F))
      → Each (λ k e. (k ≡ e.id) × P e) m
      → All P (map_values m)
  unfolding map_values
  map_values-All P [] h = tt
  map_values-All P ((k, e) ∷ m) h = (h.0.1, map_values-All P m h.1)

  absent-All :
      (P : TopologyEdge F → Type 0) (d : TopologyEdge F) (m : Map (TopologyEdge F))
      → Each (λ k e. (k ≡ e.id) × P e) m
      → lookup d.id m ≡ none
      → All (Apart d) (map_values m)
  unfolding map_values lookup
  absent-All P d [] h q = tt
  absent-All P d ((k, e) ∷ m) h q = elim (Bool-cases (str_eq k d.id)) [
    | inl same ↦ absurd (ground (arith, q, same))
    | inr other ↦ (
      (λ p. clash (str_eq k d.id) other ((eq_iff k d.id).1 (h.0.0 ∙ sym p))),
      absent-All P d m h.1 (sym (rw other refl) ∙ q),
    )
  ]

  map_values-IsApart :
      (P : TopologyEdge F → Type 0) (m : Map (TopologyEdge F)) → IsKept P m → IsApart (map_values m)
  unfolding map_values
  map_values-IsApart P [] h = tt
  map_values-IsApart P ((k, e) ∷ m) h = (
    absent-All P e m h.1.1 (subst (λ j. lookup j m ≡ none) h.1.0.0 h.0.0),
    map_values-IsApart P m (h.0.1, h.1.1),
  )

module _ {F : Type 0} ⦃f : Float64 F⦄ where
  pub add_edge-IsKept :
      (P : TopologyEdge F → Type 0) (g : Graph F) (e : TopologyEdge F)
      → (joins g.device_ids e ≡ true → P e)
      → IsKept P g.edges
      → IsKept P (add_edge g e).0.edges
  add_edge-IsKept P g e p h = elim (Bool-cases (joins g.device_ids e)) [
    | inl j ↦
        rw (add_edge-flat, j)
          (if_case (λ (x : Graph F). IsKept P x.edges) (keeps (lookup e.id g.edges) e) h
            (insert-Keyed e.id e g.edges h.0, Each-insert _ e.id e g.edges (refl, p j) h.1))
    | inr n ↦ rw (add_edge-flat, n) h
  ]

  pub add_edges-IsKept :
      (P : TopologyEdge F → Type 0) (ids : List String) (g : Graph F) (es : List (TopologyEdge F))
      → g.device_ids ≡ ids
      → All (λ e. joins ids e ≡ true → P e) es
      → IsKept P g.edges
      → ((add_edges g es).device_ids ≡ ids) × IsKept P (add_edges g es).edges
  unfolding add_edges
  add_edges-IsKept P ids g [] d a h = (d, h)
  add_edges-IsKept P ids g (e ∷ es) d a h =
      add_edges-IsKept P ids (add_edge g e).0 es (add_edge-device_ids g e ∙ d) a.1
        (add_edge-IsKept P g e (subst (λ l. joins l e ≡ true → P e) (sym d) a.0) h)

  pub place-All :
      (P : TopologyEdge F → Type 0) (e : TopologyEdge F) (ds : List (TopologyEdge F))
      → P e
      → All P ds
      → All P (place e ds)
  unfolding place
  place-All P e [] p h = (p, tt)
  place-All P e (d ∷ ds) p h =
      if_case (All P) (comes_before d e) (h.0, place-All P e ds p h.1) (p, h)

  place-IsApart :
      (e : TopologyEdge F) (ds : List (TopologyEdge F))
      → All (Apart e) ds
      → IsApart ds
      → IsApart (place e ds)
  unfolding place
  place-IsApart e [] a h = (tt, tt)
  place-IsApart e (d ∷ ds) a h =
      if_case IsApart (comes_before d e)
        (place-All (Apart d) e ds (λ q. a.0 (sym q)) h.0, place-IsApart e ds a.1 h.1) (a, h)

  sort_edges-All :
      (P : TopologyEdge F → Type 0) (es : List (TopologyEdge F)) → All P es → All P (sort_edges es)
  unfolding sort_edges
  sort_edges-All P [] h = tt
  sort_edges-All P (e ∷ es) h = place-All P e (sort_edges es) h.0 (sort_edges-All P es h.1)

  sort_edges-IsApart : (es : List (TopologyEdge F)) → IsApart es → IsApart (sort_edges es)
  unfolding sort_edges
  sort_edges-IsApart [] h = tt
  sort_edges-IsApart (e ∷ es) h =
      place-IsApart e (sort_edges es) (sort_edges-All (Apart e) es h.0) (sort_edges-IsApart es h.1)

  pub sorted_edges-All :
      (P : TopologyEdge F → Type 0) (g : Graph F) → IsKept P g.edges → All P (sorted_edges g)
  unfolding sorted_edges
  sorted_edges-All P g h = sort_edges-All P (map_values g.edges) (map_values-All P g.edges h.1)

  pub sorted_edges-IsApart :
      (P : TopologyEdge F → Type 0) (g : Graph F) → IsKept P g.edges → IsApart (sorted_edges g)
  unfolding sorted_edges
  sorted_edges-IsApart P g h =
      sort_edges-IsApart (map_values g.edges) (map_values-IsApart P g.edges h)
