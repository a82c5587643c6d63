-- ===== src/Net/Ipv4.antt =====
-- IPv4 addresses: the text of an address, and its reading (`net.IP.String`, `netip.ParseAddr`). An
-- address is its number, the first byte highest.
pub mod RoundTrip
use Prim.Native.Char.{Char}
use Prim.Native.String.{char_at}
use tmap.Base.{
  ℕ, suc, ◌+◌, ◌-◌, ◌*◌, ◌/◌, ◌%◌, Bool, true, false, ◌&&◌, ◌||◌, Option, none, some, List, [], ◌∷◌,
  String, ◌<>◌, if◌then◌else◌, leb, ltb, ◌==◌, codes,
}

digit : ℕ → String
digit d = String.◌∷◌ (char_at "0123456789" d) ""

unfoldable pub byte_text : ℕ → String
unfolding digit
byte_text b =
    if ltb b 10
    then digit b
    else if ltb b 100
    then digit (b / 10) <> digit (b % 10)
    else digit (b / 100) <> (digit (b / 10 % 10) <> digit (b % 10))

-- The four bytes of an address in decimal.
unfoldable pub format_ipv4 : ℕ → String
format_ipv4 v =
    byte_text (v / 16777216 % 256)
    <> ("."
        <> (byte_text (v / 65536 % 256)
            <> ("." <> (byte_text (v / 256 % 256) <> ("." <> byte_text (v % 256))))))

abbrev pub is_digit : ℕ → Bool
is_digit c = leb b'0' c && leb c b'9'

abbrev pub is_end : List ℕ → Bool
is_end [] = true
is_end (d ∷ r) = false

-- The loop over the bytes of the text: the field that is read, its value so far, its number of
-- digits, and the fields before it.
pub scan : List ℕ → ℕ → ℕ → ℕ → ℕ → Option ℕ
scan [] pos val len acc = if pos == 3 then some (acc * 256 + val) else none
scan (c ∷ s) pos val len acc =
    let more = scan s pos (val * 10 + (c - b'0')) (suc len) acc in
    let next = scan s (suc pos) 0 0 (acc * 256 + val) in
    if is_digit c
    then (if (len == 1 && val == 0) || ltb 255 (val * 10 + (c - b'0')) then none else more)
    else if c == b'.'
    then (if len == 0 || is_end s || pos == 3 then none else next)
    else none

unfoldable pub parse_ipv4 : List ℕ → Option ℕ
unfolding scan
parse_ipv4 s = scan s 0 0 0 0
