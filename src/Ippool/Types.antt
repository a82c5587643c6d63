-- ===== src/Ippool/Types.antt =====
-- apps/desktop/ippool/types.go, and the outcome of a probe from reachability_probe.go. `F` is the
-- type of `float64`; a field that Go leaves out when it is a nil pointer is an `Option`.
use tmap.Base.{ℕ, Bool, Option, List, String}
use tmap.Base.Int.{ℤ}

pub data DeviceStatus : Type 0 where
  candidate active recently_seen stale unreachable : DeviceStatus

pub data Source : Type 0 where
  seed gateway arp route dns candidates passive : Source

-- `string(source)`.
abbrev pub source_text : Source → String
source_text seed = "seed"
source_text gateway = "gateway"
source_text arp = "arp"
source_text route = "route"
source_text dns = "dns"
source_text candidates = "candidate"
source_text passive = "passive_packet"

-- `EvidenceStrength` stays a text: the callers of `AddDeviceEvidence` may hand over any.
abbrev pub confirmed : String
confirmed = "confirmed"

abbrev pub inferred : String
inferred = "inferred"

abbrev pub weak : String
weak = "weak"

pub record EvidenceItem (F : Type 0) : Type 0 where
  pub type : String
  pub source : String
  pub value : String
  pub timestamp : String
  pub confidence_impact : F
  pub strength : String

pub record MobileEvidenceItem : Type 0 where
  pub id : String
  pub type : String
  pub value : String
  pub os_hint : String
  pub confidence_impact : ℤ
  pub strength : String
  pub source : String
  pub timestamp : String
  pub explanation : String

pub record MobileConflictItem : Type 0 where
  pub reason : String
  pub ios_evidence_ids : List String
  pub android_evidence_ids : List String
  pub severity : String
  pub resolution_hint : String

pub record MobileFingerprint (F : Type 0) : Type 0 where
  pub classification : String
  pub ios_score : ℤ
  pub android_score : ℤ
  pub ipad_score : ℤ
  pub confidence : F
  pub evidence : List MobileEvidenceItem
  pub conflicts : List MobileConflictItem
  pub warnings : List String
  pub last_updated_at : String
  pub why_this_classification : String
  pub why_not_certain : String

-- The two counters start at 0 and only grow, by one for each probe of the device.
pub record DevicePoolEntry (F : Type 0) : Type 0 where
  pub id : String
  pub ip : String
  pub mac : String
  pub hostname : String
  pub vendor : String
  pub first_seen : String
  pub last_seen : String
  pub last_probe_at : String
  pub status : DeviceStatus
  pub response_count : ℕ
  pub failure_count : ℕ
  pub avg_latency_ms : Option F
  pub ttl : Option ℤ
  pub source : Source
  pub evidence : List (EvidenceItem F)
  pub mobile_fingerprint : Option (MobileFingerprint F)
  pub device_type_hint : String
  pub os_hint : String
  pub os_confidence : F
  pub os_evidence_summary : List String

-- The clock as it is read: the Unix time in milliseconds, and the text that `ts` makes of it.
pub record Instant : Type 0 where
  pub unix_milli : ℕ
  pub rfc3339 : String

pub record ProbeOutcome (F : Type 0) : Type 0 where
  pub ip : String
  pub reachable : Bool
  pub latency_ms : F
  pub ttl : ℤ
  pub loss_pct : F
  pub method : String
  pub err : String

pub record ProbeResultPayload (F : Type 0) : Type 0 where
  pub ip : String
  pub reachable : Bool
  pub latency_ms : F
  pub ttl : ℤ
  pub method : String
  pub timestamp : ℕ
