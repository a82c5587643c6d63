-- ===== src/Base/Decimal.antt =====
-- Numbers in decimal.
use Prim.Native.Char.{code}
use Prim.Native.String.{String, char_at, ◌++◌}
use Prim.Native.Nat.{ℕ, zero, suc, ◌+◌, ◌-◌, ◌*◌, ◌/◌, ◌%◌, ◌<◌, ◌≤◌}
use mathlib.Core.Path.{◌≡◌, refl, sym, ap, ◌∙◌}
use mathlib.Core.Logic.{inl, inr}
use mathlib.Core.Bool.{true, false}
use text.Mathlib.TextLemmas.{nil-append, cons-append}
use native.Mathlib.Omega.{arith}
use tmap.Base.Tests.{
  ltb, ◌==◌, if◌then◌else◌, Bool-cases, passes_under, passes_under_lem, tests, ==_iff,
}

-- A number above its own digits is enough fuel.
unfoldable pub decimal : ℕ → ℕ → String
decimal zero n = ""
decimal (suc fuel) n =
    let last = String.◌∷◌ (char_at "0123456789" (n % 10)) "" in
    let front = decimal fuel (n / 10) in if ltb n 10 then last else front ++ last

-- `%d` of a number that is not negative.
unfoldable pub decimal_text : ℕ → String
decimal_text n = decimal (suc n) n

-- The number that the digits denote after those read so far.
unfoldable read_digits : ℕ → String → ℕ
read_digits acc String.[] = acc
read_digits acc (String.◌∷◌ c s) = read_digits (acc * 10 + (code c - b'0')) s

read_digits-append :
    (acc : ℕ) (s t : String) → read_digits acc (s ++ t) ≡ read_digits (read_digits acc s) t
unfolding read_digits
read_digits-append acc String.[] t = ap (read_digits acc) (nil-append t)
read_digits-append acc (String.◌∷◌ c s) t =
    ap (read_digits acc) (cons-append c s t) ∙ read_digits-append (acc * 10 + (code c - b'0')) s t

digit_values : passes_under (λ k. code (char_at "0123456789" k) - b'0' == k) 10 ≡ true
unfolding passes_under
digit_values = refl

digit_value : (d : ℕ) → d < 10 → code (char_at "0123456789" d) - b'0' ≡ d
digit_value d h =
    (==_iff (code (char_at "0123456789" d) - b'0') d).0
      (passes_under_lem (λ k. code (char_at "0123456789" k) - b'0' == k) 10 h digit_values)

read_digits-last :
    (acc n : ℕ)
    → read_digits acc (String.◌∷◌ (char_at "0123456789" (n % 10)) "") ≡ acc * 10 + n % 10
unfolding read_digits
read_digits-last acc n = ap (λ d. acc * 10 + d) (digit_value (n % 10) (omega arith))

decimal-value : (fuel n : ℕ) → n < fuel → read_digits 0 (decimal fuel n) ≡ n
unfolding decimal
decimal-value zero n h = absurd (omega (arith, h))
decimal-value (suc fuel) n h = elim (Bool-cases (ltb n 10)) [
  | inl short ↦ rw (short, read_digits-last) (omega (tests, short))
  | inr long ↦
      rw
        (
          long,
          read_digits-append,
          decimal-value fuel (n / 10) (omega (arith, h, above n long)),
          read_digits-last,
        )
        (omega arith)
]
  where
    above : (m : ℕ) → ltb m 10 ≡ false → 10 ≤ m
    above m q = ground arith

-- Numbers are told apart by their texts.
pub decimal_text-injective : (n m : ℕ) → decimal_text n ≡ decimal_text m → n ≡ m
unfolding decimal_text
decimal_text-injective n m h =
    sym (decimal-value (suc n) n (omega arith))
    ∙ ap (read_digits 0) h
    ∙ decimal-value (suc m) m (omega arith)
