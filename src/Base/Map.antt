-- ===== src/Base/Map.antt =====
-- Go maps keyed by strings, as association lists with distinct keys. The order of the list is the
-- order in which a `range` happens to visit the map.
use tmap.Base.{
  suc, ◌≤◌, ◌≡◌, refl, Option, none, some, List, [], ◌∷◌, String, str_eq, if◌then◌else◌, arith,
  length,
}
use text.Mathlib.TextPositions.{eq_refl}
use text.Mathlib.TextEquality.{eq_iff}

abbrev pub Map : Type 0 → Type 0
Map V = List (String × V)

module _ {V : Type 0} where
  unfoldable pub lookup : String → Map V → Option V
  lookup k [] = none
  lookup k ((j, v) ∷ m) = if str_eq j k then some v else lookup k m

  -- `m[k] = v`
  unfoldable pub insert : String → V → Map V → Map V
  insert k v [] = (k, v) ∷ []
  insert k v ((j, w) ∷ m) = if str_eq j k then (k, v) ∷ m else (j, w) ∷ insert k v m

  -- `delete(m, k)`
  unfoldable pub delete : String → Map V → Map V
  delete k [] = []
  delete k ((j, w) ∷ m) = if str_eq j k then delete k m else (j, w) ∷ delete k m

  -- The values, in the order of a `range`.
  unfoldable pub map_values : Map V → List V
  map_values [] = []
  map_values ((k, v) ∷ m) = v ∷ map_values m

  -- The keys are distinct.
  abbrev pub Keyed : Map V → Type 0
  Keyed [] = Unit
  Keyed ((k, v) ∷ m) = (lookup k m ≡ none) × Keyed m

  pub lookup-insert :
      (put get : String) (new : V) (rest : Map V)
      → lookup get (insert put new rest) ≡ (if str_eq put get then some new else lookup get rest)
  unfolding lookup insert
  lookup-insert put get new [] = refl
  lookup-insert put get new ((key, old) ∷ rest) =
      ground (arith, eq_iff put get, eq_iff key put, eq_iff key get, lookup-insert put get new rest)

  pub lookup-insert_self : (k : String) (v : V) (m : Map V) → lookup k (insert k v m) ≡ some v
  lookup-insert_self k v m = simp (lookup-insert, eq_refl)

  pub lookup-delete :
      (k j : String) (m : Map V) → lookup j (delete k m) ≡ (if str_eq k j then none else lookup j m)
  unfolding lookup delete
  lookup-delete k j [] = ground arith
  lookup-delete k j ((i, w) ∷ m) =
      ground (arith, eq_iff k j, eq_iff i k, eq_iff i j, lookup-delete k j m)

  pub insert-Keyed : (k : String) (v : V) (m : Map V) → Keyed m → Keyed (insert k v m)
  unfolding insert
  insert-Keyed k v [] h = (unfold lookup in refl, tt)
  insert-Keyed k v ((i, w) ∷ m) h =
      ground (arith, eq_iff i k, eq_iff k i, insert-Keyed k v m, lookup-insert k i v m)

  pub delete-Keyed : (k : String) (m : Map V) → Keyed m → Keyed (delete k m)
  unfolding delete
  delete-Keyed k [] h = tt
  delete-Keyed k ((i, w) ∷ m) h = ground (arith, eq_iff k i, delete-Keyed k m, lookup-delete k i m)

  pub length-insert :
      (k : String) (v : V) (m : Map V)
      → length (insert k v m) ≡ (elim (lookup k m) [ none ↦ suc (length m) | some w ↦ length m ])
  unfolding lookup insert
  length-insert k v [] = refl
  length-insert k v ((i, w) ∷ m) = ground (arith, length-insert k v m)

  pub length-delete-le : (k : String) (m : Map V) → length (delete k m) ≤ length m
  unfolding delete
  length-delete-le k [] = omega arith
  length-delete-le k ((i, w) ∷ m) = ground (arith, length-delete-le k m)

  -- A predicate of every key with its value.
  abbrev pub Each : (String → V → Type 0) → Map V → Type 0
  Each P [] = Unit
  Each P ((k, v) ∷ m) = P k v × Each P m

  pub Each-lookup :
      (P : String → V → Type 0) (k : String) (m : Map V) {v : V}
      → Each P m
      → lookup k m ≡ some v
      → P k v
  unfolding lookup
  Each-lookup P k [] h e = cc
  Each-lookup P k ((i, w) ∷ m) {v} h e = ground (arith, eq_iff i k, Each-lookup P k m {v = v} h.1)

  pub Each-insert :
      (P : String → V → Type 0) (k : String) (v : V) (m : Map V)
      → P k v
      → Each P m
      → Each P (insert k v m)
  unfolding insert
  Each-insert P k v [] p h = (p, tt)
  Each-insert P k v ((i, w) ∷ m) p h = ground (arith, Each-insert P k v m p h.1)

  pub Each-delete :
      (P : String → V → Type 0) (k : String) (m : Map V) → Each P m → Each P (delete k m)
  unfolding delete
  Each-delete P k [] h = tt
  Each-delete P k ((i, w) ∷ m) h = ground (arith, Each-delete P k m h.1)
