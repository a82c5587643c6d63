-- ===== src/Base/Text.antt =====
-- Go strings. They are compared whole, searched, trimmed and put into lower case; case and white
-- space are those of ASCII, which is what host names, addresses and evidence tags are made of.
use Prim.Native.Nat.{ℕ, ◌-◌}
use Prim.Native.Char.{Char, code}
use Prim.Native.String.{String, char_at, slice, len}
use text.Mathlib.Text.{◌==◌ as ◌same◌, find?, starts_with}
use mathlib.Core.Bool.{Bool, true, false, ◌&&◌, ◌||◌}
use mathlib.Core.Option.{none, some}
use mathlib.Core.List.{List, [], ◌∷◌}
use tmap.Base.Tests.{leb, ◌==◌, if◌then◌else◌}

abbrev pub str_eq : String → String → Bool
str_eq s t = s same t

abbrev pub is_empty : String → Bool
is_empty s = str_eq s ""

unfoldable pub lower_char : Char → Char
lower_char c =
    if leb b'A' (code c) && leb (code c) b'Z'
    then char_at "abcdefghijklmnopqrstuvwxyz" (code c - b'A')
    else c

unfoldable pub to_lower : String → String
unfolding lower_char
to_lower String.[] = ""
to_lower (String.◌∷◌ c s) = String.◌∷◌ (lower_char c) (to_lower s)

abbrev is_space : Char → Bool
is_space c = (leb 9 (code c) && leb (code c) 13) || code c == 32

unfoldable pub trim_left : (Char → Bool) → String → String
trim_left drop String.[] = ""
trim_left drop (String.◌∷◌ c s) =
    let rest = trim_left drop s in if drop c then rest else String.◌∷◌ c s

-- A tail of dropped characters alone is empty.
unfoldable pub trim_right : (Char → Bool) → String → String
trim_right drop String.[] = ""
trim_right drop (String.◌∷◌ c s) =
    let rest = trim_right drop s in if drop c && is_empty rest then "" else String.◌∷◌ c rest

-- `strings.TrimSpace`
unfoldable pub trim_space : String → String
unfolding trim_left trim_right
trim_space s = trim_right is_space (trim_left is_space s)

unfoldable pub contains : String → String → Bool
contains s t = elim (find? s t) [ none ↦ false | some i ↦ true ]

unfoldable pub contains_any : String → List String → Bool
unfolding contains
contains_any s [] = false
contains_any s (t ∷ ts) = contains s t || contains_any s ts

-- `slices.Contains`, and membership in a Go set.
unfoldable pub member : String → List String → Bool
member k [] = false
member k (j ∷ js) = str_eq j k || member k js

-- `strings.TrimPrefix`
unfoldable pub trim_prefix : String → String → String
trim_prefix s p = if starts_with s p then slice s (len p) (len s) else s

-- `strings.HasSuffix`
unfoldable pub ends_with : String → String → Bool
ends_with s t = leb (len t) (len s) && str_eq (slice s (len s - len t) (len s)) t

-- The text before the first occurrence of `sep`, or all of it.
unfoldable pub before : String → String → String
before s sep = elim (find? s sep) [ none ↦ s | some i ↦ slice s 0 i ]

-- The code points of a text: its bytes, if it is ASCII.
unfoldable pub codes : String → List ℕ
codes String.[] = []
codes (String.◌∷◌ c s) = code c ∷ codes s
