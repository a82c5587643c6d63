-- ===== src/Net/Ipv4/RoundTrip.antt =====
-- An address is read back from its text.
use Prim.Native.Char.{code}
use Prim.Native.String.{char_at}
use Prim.Native.String.append
use tmap.Base.{
  ℕ, suc, ◌≤◌, ◌+◌, ◌-◌, ◌*◌, ◌/◌, ◌%◌, ◌^◌, ◌<◌, ◌≡◌, refl, sym, ap, ◌∙◌, true, false, ◌&&◌, some,
  List, [], ◌∷◌, ◌++◌, String, ◌<>◌, if◌then◌else◌, ltb, ◌==◌, ==_iff, codes, arith, passes_under,
  passes_under_lem, Bool-cases, inl, inr,
}
use mathlib.Core.List.{append-nil}
use tmap.Net.Ipv4.{is_end, is_digit, digit, byte_text, format_ipv4, scan, parse_ipv4}

codes-append : (s t : String) → codes (s <> t) ≡ codes s ++ codes t
unfolding codes
codes-append String.[] t = ap codes (append.nil t)
codes-append (String.◌∷◌ c s) t =
    ap codes (append.cons c s t) ∙ ap (◌∷◌ (code c)) (codes-append s t)

digit_table : passes_under (λ d. code (char_at "0123456789" d) == d + b'0') 10 ≡ true
unfolding passes_under
digit_table = refl

codes-digit : (d : ℕ) → d < 10 → codes (digit d) ≡ (d + b'0') ∷ []
unfolding codes digit
codes-digit d h = ap (λ (n : ℕ). n ∷ []) ((==_iff _ _).0 (passes_under_lem _ 10 h digit_table))

-- The bytes of a field.
abbrev byte_codes : ℕ → List ℕ
byte_codes b =
    if ltb b 10
    then (b + b'0') ∷ []
    else if ltb b 100
    then (b / 10 + b'0') ∷ (b % 10 + b'0') ∷ []
    else (b / 100 + b'0') ∷ (b / 10 % 10 + b'0') ∷ (b % 10 + b'0') ∷ []

codes-byte_text : (b : ℕ) → b < 256 → codes (byte_text b) ≡ byte_codes b
unfolding byte_text
codes-byte_text b h = ground (
  arith,
  codes-digit b,
  codes-digit (b / 10),
  codes-digit (b % 10),
  codes-digit (b / 100),
  codes-digit (b / 10 % 10),
  codes-append (digit (b / 10)) (digit (b % 10)),
  codes-append (digit (b / 100)) (digit (b / 10 % 10) <> digit (b % 10)),
  codes-append (digit (b / 10 % 10)) (digit (b % 10)),
)

digit_lem : (d : ℕ) → d < 10 → is_digit (d + b'0') ≡ true
digit_lem d h = ground arith

ltb_lem : (n : ℕ) → n < 256 → ltb 255 n ≡ false
ltb_lem n h = ground arith

-- One more digit of a field, which then has the value `v`.
scan-digit :
    (d : ℕ) (s : List ℕ) (pos val len acc v : ℕ)
    → d < 10
    → (len == 1 && val == 0) ≡ false
    → val * 10 + d ≡ v
    → v < 256
    → scan ((d + b'0') ∷ s) pos val len acc ≡ scan s pos v (suc len) acc
unfolding scan
scan-digit d s pos val len acc v h z q m =
    let e : d + b'0' - b'0' ≡ d = omega arith in rw (e, z, digit_lem d h, q, ltb_lem v m) refl

abbrev width : ℕ → ℕ
width b = if ltb b 10 then 1 else if ltb b 100 then 2 else 3

scan_one :
    (b : ℕ) (s : List ℕ) (pos acc : ℕ)
    → b < 10
    → scan ((b + b'0') ∷ s) pos 0 0 acc ≡ scan s pos b 1 acc
scan_one b s pos acc h = scan-digit b s pos 0 0 acc b h refl (omega arith) (omega arith)

scan_two :
    (b : ℕ) (s : List ℕ) (pos acc : ℕ)
    → 10 ≤ b
    → b < 100
    → scan ((b / 10 + b'0') ∷ (b % 10 + b'0') ∷ s) pos 0 0 acc ≡ scan s pos b 2 acc
scan_two b s pos acc l h =
    scan-digit (b / 10) _ pos 0 0 acc (b / 10) (omega arith) refl (omega arith) (omega arith)
    ∙ scan-digit (b % 10) s pos (b / 10) 1 acc b (omega arith) (ground arith) (omega arith)
        (omega arith)

scan_three :
    (b : ℕ) (s : List ℕ) (pos acc : ℕ)
    → 100 ≤ b
    → b < 256
    → scan ((b / 100 + b'0') ∷ (b / 10 % 10 + b'0') ∷ (b % 10 + b'0') ∷ s) pos 0 0 acc
      ≡ scan s pos b 3 acc
scan_three b s pos acc l h =
    scan-digit (b / 100) _ pos 0 0 acc (b / 100) (omega arith) refl (omega arith) (omega arith)
    ∙ (scan-digit (b / 10 % 10) _ pos (b / 100) 1 acc (b / 10) (omega arith) (ground arith)
          (omega arith) (omega arith)
        ∙ scan-digit (b % 10) s pos (b / 10) 2 acc b (omega arith) (ground arith) (omega arith)
            (omega arith))

-- A field is read up to what follows it.
scan-byte_codes :
    (b : ℕ) (s : List ℕ) (pos acc : ℕ)
    → b < 256
    → scan (byte_codes b ++ s) pos 0 0 acc ≡ scan s pos b (width b) acc
scan-byte_codes b s pos acc h = elim (Bool-cases (ltb b 10)) [
  | inl small ↦ rw small (scan_one b s pos acc (ground arith))
  | inr e ↦ elim (Bool-cases (ltb b 100)) [
    | inl small ↦ rw (e, small) (scan_two b s pos acc (ground arith) (ground arith))
    | inr large ↦ rw (e, large) (scan_three b s pos acc (ground arith) h)
  ]
]

-- A field that is not the last is read up to the field after its dot.
scan_dot :
    (s : List ℕ) (pos val len acc : ℕ)
    → is_end s ≡ false
    → 0 < len
    → pos < 3
    → scan (b'.' ∷ s) pos val len acc ≡ scan s (suc pos) 0 0 (acc * 256 + val)
unfolding scan
scan_dot s pos val len acc e l p =
    let l' : (len == 0) ≡ false = ground arith in
    let p' : (pos == 3) ≡ false = ground arith in rw (e, l', p') refl

is_end-byte_codes : (b : ℕ) (s : List ℕ) → is_end (byte_codes b ++ s) ≡ false
is_end-byte_codes b s = ground arith

scan-field :
    (b : ℕ) (s : List ℕ) (pos acc : ℕ)
    → b < 256
    → is_end s ≡ false
    → pos < 3
    → scan (byte_codes b ++ b'.' ∷ s) pos 0 0 acc ≡ scan s (suc pos) 0 0 (acc * 256 + b)
scan-field b s pos acc h e p =
    scan-byte_codes b (b'.' ∷ s) pos acc h ∙ scan_dot s pos b (width b) acc e (ground arith) p

scan_last : (b acc : ℕ) → b < 256 → scan (byte_codes b ++ []) 3 0 0 acc ≡ some (acc * 256 + b)
unfolding scan
scan_last b acc h = scan-byte_codes b [] 3 acc h

-- Four fields are read into the address that they make up.
scan_fields :
    (a b c d : ℕ)
    → a < 256
    → b < 256
    → c < 256
    → d < 256
    → parse_ipv4 (
        byte_codes a
        ++ (b'.' ∷ (byte_codes b ++ (b'.' ∷ (byte_codes c ++ (b'.' ∷ (byte_codes d ++ [])))))))
      ≡ some (((a * 256 + b) * 256 + c) * 256 + d)
unfolding parse_ipv4
scan_fields a b c d p q r s =
    scan-field a _ 0 0 p (is_end-byte_codes b _) (omega arith)
    ∙ (scan-field b _ 1 (0 * 256 + a) q (is_end-byte_codes c _) (omega arith)
        ∙ (scan-field c _ 2 _ r (is_end-byte_codes d []) (omega arith)
            ∙ (scan_last d _ s ∙ ap some (omega arith))))

codes-field :
    (b : ℕ) (t : String)
    → b < 256
    → codes (byte_text b <> ("." <> t)) ≡ byte_codes b ++ (b'.' ∷ codes t)
codes-field b t h =
    codes-append (byte_text b) ("." <> t)
    ∙ (ap (λ (r : List ℕ). r ++ codes ("." <> t)) (codes-byte_text b h)
        ∙ ap (λ (r : List ℕ). byte_codes b ++ r) (codes-append "." t ∙ unfold codes in refl))

codes-format_ipv4 :
    (v : ℕ)
    → codes (format_ipv4 v)
      ≡ byte_codes (v / 16777216 % 256)
        ++ (b'.'
            ∷ (byte_codes (v / 65536 % 256)
                ++ (b'.' ∷ (byte_codes (v / 256 % 256) ++ (b'.' ∷ (byte_codes (v % 256) ++ []))))))
unfolding format_ipv4
codes-format_ipv4 v =
    codes-field _ _ (omega arith)
    ∙ ap (λ (r : List ℕ). byte_codes (v / 16777216 % 256) ++ (b'.' ∷ r))
        (codes-field _ _ (omega arith)
          ∙ ap (λ (r : List ℕ). byte_codes (v / 65536 % 256) ++ (b'.' ∷ r))
              (codes-field _ _ (omega arith)
                ∙ ap (λ (r : List ℕ). byte_codes (v / 256 % 256) ++ (b'.' ∷ r))
                    (codes-byte_text (v % 256) (omega arith) ∙ sym (append-nil _))))

-- The text of a 32-bit address is read back as the address.
pub parse-format_ipv4 : (v : ℕ) → v < 2 ^ 32 → parse_ipv4 (codes (format_ipv4 v)) ≡ some v
parse-format_ipv4 v h =
    ap parse_ipv4 (codes-format_ipv4 v)
    ∙ (scan_fields (v / 16777216 % 256) (v / 65536 % 256) (v / 256 % 256) (v % 256) (omega arith)
          (omega arith) (omega arith) (omega arith)
        ∙ ap some (omega arith))
