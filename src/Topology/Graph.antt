-- ===== src/Topology/Graph.antt =====
-- agent/internal/topology/graph.go: the edges between known devices, one for each identifier.
pub mod Best
pub mod Sound
pub mod Order
use Prim.Native.String.{compare as compare_text}
use text.Mathlib.Text.{is_lt}
use tmap.Base.{
  Bool, true, false, ◌||◌, not, Option, none, some, List, [], ◌∷◌, String, str_eq, member,
  if◌then◌else◌,
}
use tmap.Base.Map.{Map, lookup, insert, map_values}
use tmap.Base.Float.{Float64, le}
use tmap.Topology.Types.{TopologyEdge}

pub record Graph (F : Type 0) : Type 0 where
  pub device_ids : List String
  pub edges : Map (TopologyEdge F)

module _ {F : Type 0} where
  unfoldable pub new_graph : List String → Graph F
  new_graph ids = record { device_ids = ids; edges = [] }

  unfoldable pub has_device : Graph F → String → Bool
  has_device g id = member id g.device_ids

module _ {F : Type 0} ⦃f : Float64 F⦄ where
  -- Whether the edge that is stored under the identifier keeps its place.
  unfoldable pub keeps : Option (TopologyEdge F) → TopologyEdge F → Bool
  keeps none e = false
  keeps (some existing) e = le e.confidence existing.confidence

  -- The graph after the call, and whether the edge was stored.
  unfoldable pub add_edge : Graph F → TopologyEdge F → Graph F × Bool
  unfolding has_device keeps
  add_edge g e =
      if str_eq e.source e.target
      then (g, false)
      else if not (has_device g e.source) || not (has_device g e.target)
      then (g, false)
      else if keeps (lookup e.id g.edges) e
      then (g, false)
      else (record g { edges = insert e.id e g.edges }, true)

  unfoldable pub add_edges : Graph F → List (TopologyEdge F) → Graph F
  unfolding add_edge
  add_edges g [] = g
  add_edges g (e ∷ es) = add_edges (add_edge g e).0 es

  -- The comparison of the sort: confidence downwards, then type, source and target.
  unfoldable pub comes_before : TopologyEdge F → TopologyEdge F → Bool
  comes_before a b =
      if not (f.eq a.confidence b.confidence)
      then f.lt b.confidence a.confidence
      else if not (str_eq a.type b.type)
      then is_lt (compare_text a.type b.type)
      else if not (str_eq a.source b.source)
      then is_lt (compare_text a.source b.source)
      else is_lt (compare_text a.target b.target)

  unfoldable pub place : TopologyEdge F → List (TopologyEdge F) → List (TopologyEdge F)
  unfolding comes_before
  place e [] = e ∷ []
  place e (d ∷ ds) = let rest = place e ds in if comes_before d e then d ∷ rest else e ∷ d ∷ ds

  unfoldable pub sort_edges : List (TopologyEdge F) → List (TopologyEdge F)
  unfolding place
  sort_edges [] = []
  sort_edges (e ∷ es) = place e (sort_edges es)

  -- `Edges`
  unfoldable pub sorted_edges : Graph F → List (TopologyEdge F)
  unfolding sort_edges
  sorted_edges g = sort_edges (map_values g.edges)
