-- ===== src/Base/Sets.antt =====
-- Lists of texts as sets.
use text.Mathlib.TextEquality.{eq_iff}
use tmap.Base.{◌≡◌, refl, false, ◌||◌, List, [], ◌∷◌, ◌++◌, String, member, arith}

-- No text stands twice.
abbrev pub IsUnique : List String → Type 0
IsUnique [] = Unit
IsUnique (s ∷ ss) = (member s ss ≡ false) × IsUnique ss

pub member-append :
    (k : String) (xs ys : List String) → member k (xs ++ ys) ≡ (member k xs || member k ys)
unfolding member
member-append k [] ys = refl
member-append k (x ∷ xs) ys = ground (arith, member-append k xs ys)

pub IsUnique-append :
    (xs : List String) (k : String) → member k xs ≡ false → IsUnique xs → IsUnique (xs ++ (k ∷ []))
unfolding member
IsUnique-append [] k h u = (refl, tt)
IsUnique-append (x ∷ xs) k h u =
    ground (arith, eq_iff x k, eq_iff k x, member-append x xs (k ∷ []), IsUnique-append xs k)
