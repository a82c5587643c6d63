-- ===== src/Tests/Scorer.antt =====
-- The scorer of mobile fingerprints at concrete evidence.
use tmap.Base.{◌≡◌, ◌↔◌, ◌⊎◌, ◌≤◌, refl, true, false, List, [], ◌∷◌, String, length, member}
use tmap.Base.Map.{lookup, insert}
use tmap.Ippool.Scorer.{Scorer, new_scorer, number_or_zero, add_ios, add_evidence_item, track}
use tmap.Ippool.Scorer.Verdict.{
  classification, detect_conflicts, best_of, only_dns, only_category, confirmed_class, is_confirmed,
  is_probable,
}
use tmap.Ippool.Scorer.Verdict.Rules.{confirmed_needs, conflict_iff}
use tmap.Ippool.Scorer.Dns.{score_queries, dns_alone}

abbrev morning : String
morning = "2024-05-01T08:00:00Z"

-- Two strong pieces of evidence of an iPhone.
abbrev phone : Scorer
phone =
    add_ios
      (add_ios (new_scorer morning) "hostname" "Annas-iPhone" 45 "strong" "dhcp" morning
        "Hostname explicitly contains iPhone.")
      "mdns" "Annas-iPhone.local" 45 "strong" "mdns" morning
      "mDNS metadata explicitly contains iPhone."

phone_confirmed : is_confirmed (classification phone) ≡ true
unfolding classification add_ios add_evidence_item track new_scorer lookup insert best_of
    only_category confirmed_class member
phone_confirmed = refl

confirmed_needs_example :
    (length phone.conflicts ≡ 0)
    × (80 ≤ (best_of phone).1)
    × (2 ≤ number_or_zero (lookup (best_of phone).0 phone.strong_by_os))
    × (only_dns phone (best_of phone).0 ≡ false)
    × (phone.ios_score ≤ (best_of phone).1)
    × (phone.ipad_score ≤ (best_of phone).1)
    × (phone.android_score ≤ (best_of phone).1)
confirmed_needs_example = confirmed_needs phone phone_confirmed

-- A phone with as many points of each family.
abbrev both : Scorer
both = record (new_scorer morning) { ios_score = 45; android_score = 45 }

conflict_iff_example :
    (classification (detect_conflicts both) ≡ "conflicting_mobile_os_evidence")
    ↔ ((35 ≤ both.android_score) × ((35 ≤ both.ios_score) ⊎ (35 ≤ both.ipad_score)))
unfolding new_scorer
conflict_iff_example = conflict_iff both refl

abbrev queries : List (String × String × String)
queries =
    ("apple_service_domain_seen", "dns", morning)
    ∷ ("android_google_service_domain_seen", "dns", "")
    ∷ ("apple_service_domain_seen", "dns", morning)
    ∷ []

dns_alone_example :
    (is_confirmed (classification (detect_conflicts (score_queries (new_scorer morning) queries)))
      ≡ false)
    × (is_probable (classification (detect_conflicts (score_queries (new_scorer morning) queries)))
        ≡ false)
dns_alone_example = dns_alone morning queries
