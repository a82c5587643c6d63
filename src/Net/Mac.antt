-- ===== src/Net/Mac.antt =====
-- `net.ParseMAC`, as the test whether it succeeds: 6, 8 or 20 bytes in hexadecimal, in groups of one
-- byte after `:` or `-`, or of two bytes after `.`.
use tmap.Base.{
  ℕ, suc, ◌*◌, Bool, true, false, ◌&&◌, ◌||◌, Option, none, some, List, [], ◌∷◌, String,
  if◌then◌else◌, leb, ◌==◌, trim_space, codes, refl, ◌≡◌,
}
use mathlib.Core.Option

is_hex : ℕ → Bool
is_hex c = (leb b'0' c && leb c b'9') || (leb b'a' c && leb c b'f') || (leb b'A' c && leb c b'F')

-- The number of groups of two digits, where the text consists of such groups.
pairs : ℕ → List ℕ → Option ℕ
unfolding is_hex
pairs sep [] = none
pairs sep (a ∷ []) = none
pairs sep (a ∷ b ∷ []) = if is_hex a && is_hex b then some 1 else none
pairs sep (a ∷ b ∷ s ∷ rest) =
    let more = Option.map (λ n. suc n) (pairs sep rest) in
    if is_hex a && is_hex b && s == sep then more else none

-- The same for groups of four digits.
quads : List ℕ → Option ℕ
unfolding is_hex
quads (a ∷ b ∷ c ∷ d ∷ []) = if is_hex a && is_hex b && is_hex c && is_hex d then some 1 else none
quads (a ∷ b ∷ c ∷ d ∷ s ∷ rest) =
    let more = Option.map (λ n. suc n) (quads rest) in
    if is_hex a && is_hex b && is_hex c && is_hex d && s == b'.' then more else none
quads _ = none

is_length : Option ℕ → Bool
is_length none = false
is_length (some n) = n == 6 || n == 8 || n == 20

pub parses_mac : List ℕ → Bool
unfolding pairs quads is_length
parses_mac s =
    is_length (pairs b':' s)
    || is_length (pairs b'-' s)
    || is_length (Option.map (λ n. 2 * n) (quads s))

-- `looksLikeMAC`
unfoldable pub looks_like_mac : String → Bool
unfolding parses_mac trim_space codes
looks_like_mac v = parses_mac (codes (trim_space v))

colons : looks_like_mac " a4:83:e7:00:01:02" ≡ true
unfolding looks_like_mac
colons = refl

dots : looks_like_mac "a483.e700.0102" ≡ true
unfolding looks_like_mac
dots = refl

not_a_mac : looks_like_mac "iphone.local.lan1" ≡ false
unfolding looks_like_mac
not_a_mac = refl
