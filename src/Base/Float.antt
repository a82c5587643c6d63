-- ===== src/Base/Float.antt =====
-- What the code does with a `float64`: constants, two comparisons, equality, and the four
-- operations of a running average and of a rate.
use tmap.Base.{ℕ, ◌≤◌, ◌<◌, ◌≡◌, refl, Bool, true, false, ◌||◌}

pub record Float64 (F : Type 0) : Type 0 where
  -- The literal n / d.
  pub lit : ℕ → ℕ → F
  pub lt : F → F → Bool
  pub eq : F → F → Bool
  pub add : F → F → F
  pub sub : F → F → F
  pub mul : F → F → F
  pub div : F → F → F

-- `a <= b`. The documented comparison of two numbers neither of which is NaN.
abbrev pub le : {F : Type 0} ⦃f : Float64 F⦄ → F → F → Bool
le ⦃f⦄ a b = f.lt a b || f.eq a b

-- What IEEE 754 says of the comparison of numbers none of which is NaN, and of the rounding of the
-- constants in [0, 1] with two decimals.
pub record Ordered (F : Type 0) ⦃f : Float64 F⦄ : Type 0 where
  pub le_refl : (a : F) → le a a ≡ true
  pub le_trans : (a b c : F) → le a b ≡ true → le b c ≡ true → le a c ≡ true
  pub le_of_not_lt : (a b : F) → f.lt a b ≡ false → le b a ≡ true
  pub eq_sym : (a b : F) → f.eq a b ≡ true → f.eq b a ≡ true
  pub not_lt_of_le : (a b : F) → le a b ≡ true → f.lt b a ≡ false
  pub hundredths : (n m : ℕ) → n ≤ m → le (f.lit n 100) (f.lit m 100) ≡ true
  pub lt_hundredths : (n m : ℕ) → n < m → f.lt (f.lit n 100) (f.lit m 100) ≡ true
  pub zero_hundredths : (n : ℕ) → le (f.lit 0 1) (f.lit n 100) ≡ true
  pub hundredths_one : (n : ℕ) → n ≤ 100 → le (f.lit n 100) (f.lit 1 1) ≡ true

module _ {F : Type 0} ⦃f : Float64 F⦄ (o : Ordered F) where
  pub le_of_not_le : (a b : F) → le a b ≡ false → le b a ≡ true
  le_of_not_le a b h = o.le_of_not_lt a b (no_left (f.lt a b) (f.eq a b) h)
    where
      no_left : (p q : Bool) → (p || q) ≡ false → p ≡ false
      no_left false q h = refl
      no_left true q h = h
