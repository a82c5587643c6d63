-- ===== src/Scoring/Board.antt =====
-- agent/internal/scoring/score.go: the board of the scores. A score that is missing reads as 0, as
-- in a Go map.
pub mod Laws
pub mod Points
use tmap.Base.Map.{Map, lookup, insert}
use tmap.Base.{none, some, List, [], ◌∷◌, ◌++◌, String, if◌then◌else◌}
use tmap.Base.Float.{Float64}

pub record Board (F : Type 0) : Type 0 where
  pub scores : Map F
  pub fired : List String

module _ {F : Type 0} ⦃f : Float64 F⦄ where
  unfoldable pub new_board : Board F
  new_board = record { scores = []; fired = [] }

  -- `scores[t]`
  unfoldable pub score : String → Map F → F
  unfolding lookup
  score t m = elim (lookup t m) [ none ↦ f.lit 0 1 | some v ↦ v ]

  -- `scores[t] += v`
  unfoldable pub raise_score : String → F → Map F → Map F
  unfolding score insert
  raise_score t v m = insert t (f.add (score t m) v) m

  unfoldable pub add_deltas : Map F → Map F → Map F
  unfolding raise_score
  add_deltas [] m = m
  add_deltas ((t, v) ∷ deltas) m = add_deltas deltas (raise_score t v m)

  -- `Board.Add`
  unfoldable pub add : Map F → Board F → Board F
  unfolding add_deltas
  add deltas b = record { scores = add_deltas deltas b.scores; fired = b.fired }

  unfoldable pub add_hint_list : List String → F → Map F → Map F
  unfolding raise_score
  add_hint_list [] weight m = m
  add_hint_list (h ∷ hints) weight m = add_hint_list hints weight (raise_score h weight m)

  -- `Board.AddHints`
  unfoldable pub add_hints : List String → F → Board F → Board F
  unfolding add_hint_list
  add_hints hints weight b = record {
    scores = add_hint_list hints weight b.scores;
    fired = b.fired;
  }

  -- `Board.MarkFired`
  unfoldable pub mark_fired : String → Board F → Board F
  mark_fired id b = record { scores = b.scores; fired = b.fired ++ (id ∷ []) }

  -- The two clamps of a score, the upper one first.
  unfoldable pub clamp : F → F
  clamp v =
      let n = f.div v (f.lit 100 1) in
      let top = if f.lt (f.lit 1 1) n then f.lit 1 1 else n in
      if f.lt top (f.lit 0 1) then f.lit 0 1 else top

  -- `Board.Normalize`
  unfoldable pub normalize : Map F → Map F
  unfolding clamp
  normalize [] = []
  normalize ((t, v) ∷ m) = (t, clamp v) ∷ normalize m
