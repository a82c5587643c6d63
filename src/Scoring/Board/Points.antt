-- ===== src/Scoring/Board/Points.antt =====
-- What the operations of agent/internal/scoring/score.go do to the score of one type.
use tmap.Base.{
  ◌≡◌, refl, Option, none, some, List, [], ◌∷◌, ◌++◌, String, str_eq, if◌then◌else◌, arith,
}
use text.Mathlib.TextEquality.{eq_iff}
use tmap.Base.Map.{Map, lookup, lookup-insert}
use tmap.Base.Float.{Float64}
use tmap.Scoring.Board.{score, raise_score, add_deltas, add_hint_list}

module _ {F : Type 0} ⦃f : Float64 F⦄ where
  -- The deltas of a type.
  unfoldable pub deltas_at : String → Map F → List F
  deltas_at t [] = []
  deltas_at t ((k, v) ∷ deltas) =
      let rest = deltas_at t deltas in if str_eq k t then v ∷ rest else rest

  -- The weight, once for each time that a type is hinted at.
  unfoldable pub weights_at : String → List String → F → List F
  weights_at t [] w = []
  weights_at t (h ∷ hints) w =
      let rest = weights_at t hints w in if str_eq h t then w ∷ rest else rest

  abbrev pub value : Option F → F
  value none = f.lit 0 1
  value (some v) = v

  -- A score to which points are added one after the other; with none it stays as it is.
  unfoldable pub grow : Option F → List F → Option F
  grow o [] = o
  grow o (p ∷ ps) = grow (some (f.add (value o) p)) ps

  pub grow-append : (o : Option F) (ps qs : List F) → grow o (ps ++ qs) ≡ grow (grow o ps) qs
  unfolding grow
  grow-append o [] qs = refl
  grow-append o (p ∷ ps) qs = grow-append (some (f.add (value o) p)) ps qs

  score_value : (k : String) (m : Map F) → score k m ≡ value (lookup k m)
  unfolding score
  score_value k m = by_case (lookup k m)
    where
      by_case : (o : Option F) → (elim o [ none ↦ f.lit 0 1 | some v ↦ v ]) ≡ value o
      by_case none = refl
      by_case (some v) = refl

  lookup-raise_score :
      (t k : String) (v : F) (m : Map F)
      → lookup t (raise_score k v m)
        ≡ (if str_eq k t then some (f.add (value (lookup k m)) v) else lookup t m)
  unfolding raise_score
  lookup-raise_score t k v m = rw (← score_value k m) (lookup-insert k t (f.add (score k m) v) m)

  pub lookup-add_deltas :
      (t : String) (deltas m : Map F)
      → lookup t (add_deltas deltas m) ≡ grow (lookup t m) (deltas_at t deltas)
  unfolding add_deltas deltas_at grow
  lookup-add_deltas t [] m = refl
  lookup-add_deltas t ((k, v) ∷ deltas) m = ground (
    arith,
    eq_iff k t,
    lookup-raise_score t k v m,
    lookup-add_deltas t deltas (raise_score k v m),
  )

  pub lookup-add_hint_list :
      (t : String) (hints : List String) (w : F) (m : Map F)
      → lookup t (add_hint_list hints w m) ≡ grow (lookup t m) (weights_at t hints w)
  unfolding add_hint_list weights_at grow
  lookup-add_hint_list t [] w m = refl
  lookup-add_hint_list t (h ∷ hints) w m = ground (
    arith,
    eq_iff h t,
    lookup-raise_score t h w m,
    lookup-add_hint_list t hints w (raise_score h w m),
  )
