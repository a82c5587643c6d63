-- ===== src/Ippool/Mobile.antt =====
-- How a mobile fingerprint reaches a pool entry: `mobileFingerprintChanged`, `applyLiveMobileHints`
-- and the hints, from apps/desktop/ippool/mobile_fingerprint.go.
use tmap.Base.{
  Bool, ◌||◌, not, Option, none, some, List, [], ◌∷◌, ◌++◌, String, ◌<>◌, str_eq, is_empty,
  to_lower, trim_space, contains_any, ends_with, if◌then◌else◌, ◌==◌, length, member,
}
use Prim.Native.String.{len, slice}
use Prim.Native.Nat.{◌-◌}
use tmap.Base.Int.{eqb_ℤ}
use tmap.Base.Float.{Float64}
use tmap.Ippool.Types.{MobileEvidenceItem, MobileFingerprint, DevicePoolEntry}

-- `liveMobileOSHint`
unfoldable pub os_hint_of : String → String
unfolding member
os_hint_of c =
    if member c ("confirmed_ios" ∷ "probable_ios" ∷ "possible_ios" ∷ [])
    then "ios"
    else if member c ("confirmed_ipados" ∷ "probable_ipados" ∷ "possible_ipados" ∷ [])
    then "ipados"
    else if member c ("confirmed_android" ∷ "probable_android" ∷ "possible_android" ∷ [])
    then "android"
    else "unknown"

-- `liveMobileDeviceTypeHint`, for the one name that the registry hands over.
unfoldable pub device_type_hint_of : String → String → String
unfolding os_hint_of to_lower contains_any
device_type_hint_of classification hostname =
    let os = os_hint_of classification in
    if str_eq os "ios"
    then "phone"
    else if str_eq os "ipados"
    then "tablet"
    else if str_eq os "android"
    then (if contains_any (to_lower hostname)
          ("tablet" ∷ " tab" ∷ "-tab" ∷ "pad" ∷ "lenovo tab" ∷ [])
        then "tablet"
        else "phone")
    else "unknown"

-- `strings.TrimSuffix(text, ".")`
without_dot : String → String
unfolding ends_with
without_dot s = if ends_with s "." then slice s 0 (len s - 1) else s

-- `appendUnique`
unfoldable pub append_unique : List String → String → List String
unfolding trim_space member
append_unique values value =
    let v = trim_space value in if is_empty v || member v values then values else values ++ v ∷ []

-- The text of one item in the summary.
item_text : MobileEvidenceItem → String
unfolding trim_space
item_text item = trim_space (
    if is_empty item.explanation
    then trim_space (item.type <> " " <> item.value)
    else item.explanation)

-- The loop of `liveMobileEvidenceSummary`, which stops at three texts.
summarize : List MobileEvidenceItem → List String → List String
unfolding append_unique without_dot item_text
summarize [] out = out
summarize (item ∷ items) out =
    let text = item_text item in
    let grown = append_unique out (without_dot text) in
    let skip = summarize items out in
    let more = summarize items grown in
    if is_empty text then skip else if length grown == 3 then grown else more

module _ {F : Type 0} ⦃f : Float64 F⦄ where
  unfoldable pub mobile_fingerprint_changed :
      Option (MobileFingerprint F) → MobileFingerprint F → Bool
  mobile_fingerprint_changed none next =
      not (str_eq next.classification "unknown_device")
      || not (length next.evidence == 0)
      || not (length next.warnings == 0)
  mobile_fingerprint_changed (some prev) next =
      not (str_eq prev.classification next.classification)
      || not (eqb_ℤ prev.ios_score next.ios_score)
      || not (eqb_ℤ prev.ipad_score next.ipad_score)
      || not (eqb_ℤ prev.android_score next.android_score)
      || not (f.eq prev.confidence next.confidence)
      || not (length prev.evidence == length next.evidence)
      || not (length prev.conflicts == length next.conflicts)
      || not (length prev.warnings == length next.warnings)

  unfoldable pub apply_mobile_hints : DevicePoolEntry F → MobileFingerprint F → DevicePoolEntry F
  unfolding os_hint_of device_type_hint_of summarize
  apply_mobile_hints e fp = record e {
    mobile_fingerprint = some fp;
    os_hint = os_hint_of fp.classification;
    os_confidence = fp.confidence;
    device_type_hint = device_type_hint_of fp.classification e.hostname;
    os_evidence_summary = summarize fp.evidence [];
  }
