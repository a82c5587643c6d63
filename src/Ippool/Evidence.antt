-- ===== src/Ippool/Evidence.antt =====
-- The evidence of a pool entry: `sanitizeEvidenceForRegistry`, `mergeEvidence` and the tests they use,
-- from apps/desktop/ippool/mobile_fingerprint.go.
pub mod Merge
use Prim.Native.Char.{Char, code}
use tmap.Base.{
  ℕ, Bool, true, false, ◌&&◌, ◌||◌, not, Option, none, some, List, [], ◌∷◌, String, ◌<>◌, str_eq,
  is_empty, to_lower, trim_space, trim_left, trim_right, trim_prefix, ends_with, before, contains,
  contains_any, if◌then◌else◌, ltb, ◌==◌,
}
use tmap.Base.Float.{Float64, le}
use tmap.Ippool.Types.{EvidenceItem, confirmed, inferred, weak}

unfoldable pub evidence_rank : String → ℕ
evidence_rank s = if str_eq s confirmed then 3 else if str_eq s inferred then 2 else 1

unfoldable pub is_passive_dns_metadata : String → Bool
unfolding contains contains_any
is_passive_dns_metadata v =
    if contains_any v ("mdns" ∷ "dns-sd" ∷ "bonjour" ∷ []) then false else contains v "dns"

abbrev apple_dns_hints : List String
apple_dns_hints =
    "apple.com" ∷ "icloud.com" ∷ "mzstatic.com" ∷ "itunes.apple.com" ∷ "push.apple.com"
    ∷ "aaplimg.com" ∷ "captive.apple.com" ∷ []

abbrev android_dns_hints : List String
android_dns_hints =
    "android.clients.google.com" ∷ "clients3.google.com" ∷ "gstatic.com" ∷ "googleapis.com"
    ∷ "mtalk.google.com" ∷ "gvt1.com" ∷ "play.googleapis.com" ∷ "connectivitycheck.gstatic.com"
    ∷ "android.googleapis.com" ∷ []

is_dot_or_blank : Char → Bool
is_dot_or_blank c = code c == b'.' || code c == b' '

normalize_domain : String → String
unfolding to_lower trim_space trim_prefix before trim_left trim_right is_dot_or_blank
normalize_domain raw =
    let bare = trim_prefix (trim_prefix (to_lower (trim_space raw)) "http://") "https://" in
    trim_right is_dot_or_blank (trim_left is_dot_or_blank (before (before bare "/") ":"))

matched_domain : String → List String → String
unfolding ends_with
matched_domain domain [] = ""
matched_domain domain (hint ∷ hints) =
    if str_eq domain hint || ends_with domain ("." <> hint)
    then hint
    else matched_domain domain hints

unfoldable pub privacy_safe_dns_category : String → String
unfolding normalize_domain matched_domain to_lower trim_space
privacy_safe_dns_category raw =
    let text = to_lower (trim_space raw) in
    let domain = normalize_domain raw in
    if str_eq text "apple_service_domain_seen" || str_eq text "android_google_service_domain_seen"
    then text
    else if is_empty domain
    then ""
    else if not (is_empty (matched_domain domain apple_dns_hints))
    then "apple_service_domain_seen"
    else if not (is_empty (matched_domain domain android_dns_hints))
    then "android_google_service_domain_seen"
    else ""

module _ {F : Type 0} ⦃f : Float64 F⦄ where
  -- The item with its fields trimmed and filled in.
  fill_item : EvidenceItem F → EvidenceItem F
  unfolding trim_space
  fill_item item = record item {
    type = if is_empty (trim_space item.type) then "metadata" else trim_space item.type;
    source = if is_empty (trim_space item.source) then "discovery" else trim_space item.source;
    value = trim_space item.value;
    strength = if is_empty item.strength then weak else item.strength;
  }

  -- A DNS observation keeps its category alone.
  as_dns_query : EvidenceItem F → String → EvidenceItem F
  as_dns_query item category = record item {
    type = "dns_query";
    value = category;
    source = "passive_dns_metadata";
    confidence_impact =
        if le item.confidence_impact (f.lit 0 1) then f.lit 15 100 else item.confidence_impact;
    strength = if is_empty item.strength then weak else item.strength;
  }

  -- `none` where the source answers `false`: the item is not stored.
  unfoldable pub sanitize_evidence : EvidenceItem F → Option (EvidenceItem F)
  unfolding fill_item as_dns_query
  sanitize_evidence raw =
      let item = fill_item raw in
      let lower = to_lower (item.type <> " " <> item.source) in
      let category = privacy_safe_dns_category item.value in
      let keep = λ (stored : EvidenceItem F).
        if not (is_empty stored.value) || contains lower "service" || contains lower "port"
        then some stored
        else none in
      if is_passive_dns_metadata lower
      then (if is_empty category then none else keep (as_dns_query item category))
      else keep item

  unfoldable pub meaningful_mobile_evidence : EvidenceItem F → Bool
  unfolding to_lower contains_any
  meaningful_mobile_evidence item = contains_any (to_lower (item.type <> " " <> item.source)) (
      "hostname" ∷ "dhcp" ∷ "netbios" ∷ "llmnr" ∷ "arp" ∷ "mac" ∷ "oui" ∷ "vendor" ∷ "mdns"
      ∷ "bonjour" ∷ "dns-sd" ∷ "dns" ∷ "user_agent" ∷ "http" ∷ "service" ∷ "port" ∷ "passive" ∷ [])

  unfoldable pub evidence_merge_key : EvidenceItem F → String
  evidence_merge_key item =
      to_lower
        (trim_space item.type <> "|" <> trim_space item.source <> "|" <> trim_space item.value)

  -- The test by which a new item replaces an old one of its key.
  unfoldable pub is_stronger : EvidenceItem F → EvidenceItem F → Bool
  is_stronger item old =
      ltb (evidence_rank old.strength) (evidence_rank item.strength)
      || (evidence_rank item.strength == evidence_rank old.strength
          && f.lt old.confidence_impact item.confidence_impact)

  unfoldable pub merge_evidence :
      List (EvidenceItem F) → EvidenceItem F → List (EvidenceItem F) × Bool
  unfolding is_stronger
  merge_evidence [] item = (item ∷ [], true)
  merge_evidence (old ∷ rest) item =
      let merged = merge_evidence rest item in
      if not (str_eq (evidence_merge_key old) (evidence_merge_key item))
      then (old ∷ merged.0, merged.1)
      else if is_stronger item old
      then (item ∷ rest, true)
      else (old ∷ rest, false)
