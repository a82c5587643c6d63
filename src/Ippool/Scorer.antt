-- ===== src/Ippool/Scorer.antt =====
-- `liveMobileScorer` of apps/desktop/ippool/mobile_fingerprint.go: its state, the evidence that is
-- added to it, the rule for DNS categories, and the classification that it ends with. A time is its
-- text in UTC, the empty text where it is zero; every impact is positive, so the scores are natural
-- numbers.
pub mod Verdict
pub mod Dns
use Prim.Native.Char.{Char, code}
use Prim.Native.String.{char_at}
use tmap.Base.{
  ℕ, zero, suc, ◌+◌, ◌/◌, ◌%◌, Bool, true, false, ◌&&◌, ◌||◌, not, Option, none, some, List, [],
  ◌∷◌, ◌++◌, String, ◌<>◌, str_eq, is_empty, to_lower, trim_space, member, if◌then◌else◌, ltb, leb,
  ◌==◌, length,
}
use tmap.Base.Int.{pos}
use tmap.Base.Decimal.{decimal}
use tmap.Base.Map.{Map, lookup, insert}
use tmap.Base.Float.{Float64}
use tmap.Ippool.Types.{MobileEvidenceItem, MobileConflictItem}
use tmap.Ippool.Mobile.{append_unique}

pub record Scorer : Type 0 where
  pub now : String
  pub seq : ℕ
  pub ios_score : ℕ
  pub ipad_score : ℕ
  pub android_score : ℕ
  pub evidence : List MobileEvidenceItem
  pub conflicts : List MobileConflictItem
  pub warnings : List String
  pub ids_by_os : Map (List String)
  pub strong_by_os : Map ℕ
  pub cats_by_os : Map (List String)
  pub random_mac : Bool

unfoldable pub new_scorer : String → Scorer
new_scorer now = record {
  now = now;
  seq = 0;
  ios_score = 0;
  ipad_score = 0;
  android_score = 0;
  evidence = [];
  conflicts = [];
  warnings = [];
  ids_by_os = [];
  strong_by_os = [];
  cats_by_os = [];
  random_mac = false;
}

abbrev pub ios_os : String
ios_os = "ios"

abbrev pub ipados_os : String
ipados_os = "ipados"

abbrev pub android_os : String
android_os = "android"

-- The zero values where a map has no entry.
abbrev pub list_or_nil : Option (List String) → List String
list_or_nil none = []
list_or_nil (some xs) = xs

abbrev pub number_or_zero : Option ℕ → ℕ
number_or_zero none = 0
number_or_zero (some n) = n

-- `cats[category] = true`
abbrev pub with_key : String → List String → List String
with_key k s = if member k s then s else s ++ (k ∷ [])

unfoldable pub track : Scorer → String → String → String → String → Scorer
unfolding member
track s os category strength id = record s {
  cats_by_os = insert os (with_key category (list_or_nil (lookup os s.cats_by_os))) s.cats_by_os;
  strong_by_os =
      if str_eq strength "strong"
      then insert os (suc (number_or_zero (lookup os s.strong_by_os))) s.strong_by_os
      else s.strong_by_os;
  ids_by_os = insert os (append_unique (list_or_nil (lookup os s.ids_by_os)) id) s.ids_by_os;
}

-- `%02d`
two_digits : ℕ → String
unfolding decimal
two_digits n = if ltb n 10 then "0" <> decimal 1 n else decimal n n

-- `strings.ReplaceAll(text, "_", "-")`
dashed : String → String
dashed String.[] = ""
dashed (String.◌∷◌ c s) = String.◌∷◌ (if code c == b'_' then char_at "-" 0 else c) (dashed s)

unfoldable pub evidence_id : String → String → ℕ → String
unfolding two_digits dashed
evidence_id os type seq = "mobile-" <> os <> "-" <> dashed type <> "-" <> two_digits seq

-- `addEvidence`: the id, and the new state.
unfoldable pub add_evidence_item :
    Scorer → String → String → String → ℕ → String → String → String → String → String × Scorer
unfolding trim_space
add_evidence_item s os type value impact strength source ts explanation =
    let id = evidence_id os type (suc s.seq) in
    let item : MobileEvidenceItem = record {
      id = id;
      type = type;
      value = trim_space value;
      os_hint = os;
      confidence_impact = pos impact;
      strength = strength;
      source = if is_empty (trim_space source) then "mobile_fingerprint" else trim_space source;
      timestamp = if is_empty ts then s.now else ts;
      explanation = explanation;
    } in
    (
      id,
      track (record s { seq = suc s.seq; evidence = s.evidence ++ (item ∷ []) }) os type strength
          id,
    )

unfoldable pub add_ios : Scorer → String → String → ℕ → String → String → String → String → Scorer
add_ios s type value impact strength source ts explanation =
    (add_evidence_item (record s { ios_score = s.ios_score + impact }) ios_os type value impact
      strength source ts explanation).1

unfoldable pub add_ipad : Scorer → String → String → ℕ → String → String → String → String → Scorer
add_ipad s type value impact strength source ts explanation =
    (add_evidence_item (record s { ipad_score = s.ipad_score + impact }) ipados_os type value impact
      strength source ts explanation).1

unfoldable pub add_apple : Scorer → String → String → ℕ → String → String → String → String → Scorer
add_apple s type value impact strength source ts explanation =
    let scored = record s {
      ios_score = s.ios_score + impact;
      ipad_score = s.ipad_score + impact;
    } in
    let added = add_evidence_item scored ios_os type value impact strength source ts explanation in
    track added.1 ipados_os type strength added.0

unfoldable pub add_android :
    Scorer → String → String → ℕ → String → String → String → String → Scorer
add_android s type value impact strength source ts explanation =
    (add_evidence_item (record s { android_score = s.android_score + impact }) android_os type value
      impact strength source ts explanation).1

abbrev pub warn_scorer : Scorer → String → Scorer
warn_scorer s message = record s { warnings = append_unique s.warnings message }

abbrev pub dns_warning : String
dns_warning =
    "Passive DNS metadata is reduced to matched OS-related domain hints; raw browsing history and packet payloads are not stored."

-- `scoreDNSCategory`
unfoldable pub score_dns_category : Scorer → String → String → String → Scorer
unfolding to_lower trim_space
score_dns_category s value source ts =
    let category = to_lower (trim_space value) in
    let apple =
      add_apple s "dns_query" "apple_service_domain_seen" 20 "weak" source ts
        "Only matched Apple OS-related domain hints are stored; DNS evidence alone cannot confirm iOS/iPadOS." in
    let android =
      add_android s "dns_query" "android_google_service_domain_seen" 20 "weak" source ts
        "Only matched Android/Google service domain hints are stored; DNS evidence alone cannot confirm Android." in
    if str_eq category "apple_service_domain_seen"
    then warn_scorer apple dns_warning
    else if str_eq category "android_google_service_domain_seen"
    then warn_scorer android dns_warning
    else s
