-- ===== src/Scoring/Board/Laws.antt =====
-- The scale of the scores of agent/internal/scoring/score.go.
use tmap.Base.{
  ◌≡◌, refl, true, Option, none, some, [], ◌∷◌, String, if◌then◌else◌, Bool-cases, if_case, inl,
  inr, arith,
}
use tmap.Base.Map.{Map, Each, lookup}
use tmap.Base.Float.{Float64, Ordered, le}
use tmap.Scoring.Board.{clamp, normalize}

module _ {F : Type 0} ⦃f : Float64 F⦄ where
  -- The score of a type on the scale.
  abbrev pub scaled : Option F → Option F
  scaled none = none
  scaled (some v) = some (clamp v)

  pub lookup-normalize : (t : String) (m : Map F) → lookup t (normalize m) ≡ scaled (lookup t m)
  unfolding lookup normalize
  lookup-normalize t [] = refl
  lookup-normalize t ((k, v) ∷ m) = ground (arith, lookup-normalize t m)

  -- The scale of a score.
  abbrev pub InUnit : String → F → Type 0
  InUnit t v = (le (f.lit 0 1) v ≡ true) × (le v (f.lit 1 1) ≡ true)

module _ {F : Type 0} ⦃f : Float64 F⦄ (o : Ordered F) where
  zero_one : le (f.lit 0 1) (f.lit 1 1) ≡ true
  zero_one =
      o.le_trans (f.lit 0 1) (f.lit 100 100) (f.lit 1 1) (o.zero_hundredths 100)
        (o.hundredths_one 100 (omega arith))

  floor : (n : F) → le (f.lit 0 1) (if f.lt n (f.lit 0 1) then f.lit 0 1 else n) ≡ true
  floor n = elim (Bool-cases (f.lt n (f.lit 0 1))) [
    | inl below ↦ rw (below) (o.le_refl (f.lit 0 1))
    | inr inside ↦ rw (inside) (o.le_of_not_lt n (f.lit 0 1) inside)
  ]

  ceiling : (n : F) → le (if f.lt (f.lit 1 1) n then f.lit 1 1 else n) (f.lit 1 1) ≡ true
  ceiling n = elim (Bool-cases (f.lt (f.lit 1 1) n)) [
    | inl above ↦ rw (above) (o.le_refl (f.lit 1 1))
    | inr inside ↦ rw (inside) (o.le_of_not_lt (f.lit 1 1) n inside)
  ]

  clamp-InUnit : (t : String) (v : F) → InUnit t (clamp v)
  unfolding clamp
  clamp-InUnit t v = (
    floor (if f.lt (f.lit 1 1) (f.div v (f.lit 100 1)) then f.lit 1 1 else f.div v (f.lit 100 1)),
    if_case (λ c. le c (f.lit 1 1) ≡ true) (f.lt _ (f.lit 0 1)) zero_one
        (ceiling (f.div v (f.lit 100 1))),
  )

  -- On the scale every score is between 0 and 1, whatever its points, where no number is NaN.
  pub normalize-InUnit : (m : Map F) → Each InUnit (normalize m)
  unfolding normalize
  normalize-InUnit [] = tt
  normalize-InUnit ((t, v) ∷ m) = (clamp-InUnit t v, normalize-InUnit m)
