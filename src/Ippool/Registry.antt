-- ===== src/Ippool/Registry.antt =====
-- The rest of `DevicePool` in apps/desktop/ippool/device_pool.go: evidence and mobile fingerprints of
-- the entries, the views of the pool, and its clearing. The fingerprint of an entry is a parameter.
pub mod Sound
pub mod History
pub mod Size
pub mod Clearing
pub mod Views
pub mod Order
pub mod Answered
use tmap.Base.{
  ℕ, suc, ◌+◌, ◌-◌, Bool, true, false, ◌&&◌, ◌||◌, not, Option, none, some, List, [], ◌∷◌, ◌++◌,
  String, ◌<>◌, is_empty, to_lower, contains, contains_any, if◌then◌else◌, ◌==◌, length,
}
use mathlib.Core.List.{reverse}
use tmap.Base.Map.{Map, lookup, insert, delete}
use tmap.Base.Float.{Float64}
use tmap.Net.Mac.{looks_like_mac}
use tmap.Ippool.Types.{
  DeviceStatus, candidate, active, recently_seen, stale, unreachable, EvidenceItem,
  MobileFingerprint, DevicePoolEntry, Instant,
}
use tmap.Ippool.Evidence.{sanitize_evidence, merge_evidence, meaningful_mobile_evidence}
use tmap.Ippool.Mobile.{mobile_fingerprint_changed, apply_mobile_hints}
use tmap.Ippool.Candidates.{ip_less}
use tmap.Ippool.Pool.{DevicePool}

-- The test by which `ClearStale` removes an entry.
abbrev pub is_gone : DeviceStatus → Bool
is_gone stale = true
is_gone unreachable = true
is_gone _ = false

abbrev pub is_active : DeviceStatus → Bool
is_active active = true
is_active _ = false

abbrev pub is_recently_seen : DeviceStatus → Bool
is_recently_seen recently_seen = true
is_recently_seen _ = false

abbrev pub is_stale : DeviceStatus → Bool
is_stale stale = true
is_stale _ = false

abbrev pub is_candidate : DeviceStatus → Bool
is_candidate candidate = true
is_candidate _ = false

-- The statuses of the devices that `topologyDevices` shows: those that have answered.
abbrev pub is_shown : DeviceStatus → Bool
is_shown active = true
is_shown recently_seen = true
is_shown stale = true
is_shown _ = false

module _ {F : Type 0} ⦃f : Float64 F⦄ where
  -- `applyEvidenceIdentity`: an observed name, address or vendor fills an empty field.
  unfoldable pub apply_identity : DevicePoolEntry F → EvidenceItem F → DevicePoolEntry F
  unfolding to_lower contains contains_any
  apply_identity e item =
      let lower = to_lower (item.type <> " " <> item.source) in
      if contains_any lower ("hostname" ∷ "dhcp" ∷ "netbios" ∷ "llmnr" ∷ [])
      then (if is_empty e.hostname then record e { hostname = item.value } else e)
      else if contains lower "mac" || contains lower "arp"
      then (if is_empty e.mac && looks_like_mac item.value
          then record e { mac = item.value }
          else e)
      else if contains lower "oui" || contains lower "vendor"
      then (if is_empty e.vendor && not (looks_like_mac item.value)
          then record e { vendor = item.value }
          else e)
      else e

  module _ (fingerprint : DevicePoolEntry F → Instant → MobileFingerprint F) where
    -- `rescoreMobileLocked`
    unfoldable pub rescore : DevicePoolEntry F → Instant → DevicePoolEntry F × Bool
    rescore e now =
        let fp = fingerprint e now in
        if mobile_fingerprint_changed e.mobile_fingerprint fp
        then (apply_mobile_hints e fp, true)
        else (e, false)

    -- The item as it is stored, with the time of its arrival if it has none.
    abbrev pub stamped : EvidenceItem F → Instant → EvidenceItem F
    stamped item now =
        if is_empty item.timestamp then record item { timestamp = now.rfc3339 } else item

    -- The entry after an item that passed the sanitizer, whether the evidence changed, and whether the
    -- fingerprint did.
    unfoldable pub absorb :
        DevicePoolEntry F → EvidenceItem F → Instant → DevicePoolEntry F × Bool × Bool
    absorb e item now =
        let merged = merge_evidence e.evidence item in
        let e1 = record e { evidence = merged.0 } in
        let e2 = if merged.1 then apply_identity e1 item else e1 in
        let scored = rescore e2 now in
        if merged.1 && meaningful_mobile_evidence item
        then (scored.0, merged.1, scored.1)
        else (e2, merged.1, false)

    -- `AddEvidence`. `none` is the zero entry, of an address that the pool does not hold.
    unfoldable pub add_evidence :
        DevicePool F
        → Instant
        → String
        → EvidenceItem F
        → DevicePool F × Option (DevicePoolEntry F) × Bool × Bool
    add_evidence p now ip item = elim (lookup ip p.entries) [
      | none ↦ (p, none, false, false)
      | some e ↦ elim (sanitize_evidence (stamped item now)) [
        | none ↦ (p, some e, false, false)
        | some clean ↦
            let out = absorb e clean now in
            (record p { entries = insert ip out.0 p.entries }, some out.0, out.1, out.2)
      ]
    ]

    -- The entries after a new score of each, and those whose fingerprint changed.
    unfoldable pub rescore_all :
        Map (DevicePoolEntry F) → Instant → Map (DevicePoolEntry F) × List (DevicePoolEntry F)
    rescore_all [] now = ([], [])
    rescore_all ((k, e) ∷ m) now =
        let rest = rescore_all m now in
        let out = rescore e now in ((k, out.0) ∷ rest.0, if out.1 then out.0 ∷ rest.1 else rest.1)

  -- The inner loop of `sortByIP`: the entries before the new one are the sorted prefix, the last of
  -- them first, and the new one moves left while it is less than its neighbour.
  unfoldable pub shift_left :
      DevicePoolEntry F → List (DevicePoolEntry F) → List (DevicePoolEntry F)
  shift_left e [] = e ∷ []
  shift_left e (d ∷ before) =
      let moved = shift_left e before in if ip_less e.ip d.ip then d ∷ moved else e ∷ d ∷ before

  unfoldable pub sort_from :
      List (DevicePoolEntry F) → List (DevicePoolEntry F) → List (DevicePoolEntry F)
  unfolding shift_left
  sort_from before [] = before
  sort_from before (e ∷ es) = sort_from (shift_left e before) es

  unfoldable pub sort_by_ip : List (DevicePoolEntry F) → List (DevicePoolEntry F)
  unfolding sort_from
  sort_by_ip es = reverse (sort_from [] es)

  abbrev pub values : Map (DevicePoolEntry F) → List (DevicePoolEntry F)
  values [] = []
  values ((k, e) ∷ m) = e ∷ values m

  unfoldable pub snapshot : DevicePool F → List (DevicePoolEntry F)
  unfolding sort_by_ip
  snapshot p = sort_by_ip (values p.entries)

  -- `RefreshMobileFingerprints`
  unfoldable pub refresh_fingerprints :
      (DevicePoolEntry F → Instant → MobileFingerprint F)
      → DevicePool F
      → Instant
      → DevicePool F × List (DevicePoolEntry F)
  refresh_fingerprints fingerprint p now =
      let out = rescore_all fingerprint p.entries now in
      (record p { entries = out.0 }, sort_by_ip out.1)

  -- `IPsByStatus`, with the set of statuses as its test.
  unfoldable pub ips_by_status : (DeviceStatus → Bool) → Map (DevicePoolEntry F) → List String
  ips_by_status want [] = []
  ips_by_status want ((ip, e) ∷ m) =
      let rest = ips_by_status want m in if want e.status then ip ∷ rest else rest

  unfoldable pub count_status : (DeviceStatus → Bool) → Map (DevicePoolEntry F) → ℕ
  count_status want [] = 0
  count_status want ((ip, e) ∷ m) =
      let rest = count_status want m in if want e.status then suc rest else rest

  -- `Counts`: the active, recently seen, stale and candidate entries.
  unfoldable pub counts : DevicePool F → ℕ × ℕ × ℕ × ℕ
  unfolding count_status
  counts p = (
    count_status is_active p.entries,
    count_status is_recently_seen p.entries,
    count_status is_stale p.entries,
    count_status is_candidate p.entries,
  )

  -- The loop of `ClearStale` over the entries that the map held at its start.
  unfoldable pub clear_loop : Map (DevicePoolEntry F) → DevicePool F → ℕ → DevicePool F × ℕ
  clear_loop [] p removed = (p, removed)
  clear_loop ((ip, e) ∷ m) p removed =
      let kept = clear_loop m p removed in
      let rest =
        clear_loop m
          (record p {
            entries = delete ip p.entries;
            consecutive_fail = delete ip p.consecutive_fail;
          })
          (suc removed) in
      if is_gone e.status then rest else kept

  unfoldable pub clear_stale : DevicePool F → DevicePool F × ℕ
  clear_stale p = clear_loop p.entries p 0
