-- ===== src/Ippool/Pool.antt =====
-- `DevicePool` of apps/desktop/ippool/device_pool.go. A method holds the pool's lock from end to end,
-- so each is one step; a pointer to an entry that it returns is the entry as it then stands.
pub mod Streak
use tmap.Base.{
  ℕ, suc, ◌+◌, ◌-◌, Bool, true, false, ◌&&◌, ◌||◌, not, Option, none, some, List, [], ◌∷◌, String,
  ◌<>◌, is_empty, to_lower, contains, contains_any, if◌then◌else◌, ◌==◌, length,
}
use tmap.Base.Int.{ℤ, pos, ltb_ℤ, leb_ℤ}
use tmap.Base.Map.{Map, lookup, insert, delete}
use tmap.Base.Float.{Float64}
use tmap.Net.Mac.{looks_like_mac}
use tmap.Ippool.Types.{
  DeviceStatus, candidate, active, recently_seen, stale, unreachable, Source, EvidenceItem,
  MobileFingerprint, DevicePoolEntry, Instant,
}
use tmap.Ippool.Config.{Config, normalized}

pub record DevicePool (F : Type 0) : Type 0 where
  pub entries : Map (DevicePoolEntry F)
  pub consecutive_fail : Map ℕ
  pub cfg : Config F

-- The zero value where the map has no entry.
abbrev pub count_or_zero : Option ℕ → ℕ
count_or_zero none = 0
count_or_zero (some n) = n

module _ {F : Type 0} ⦃f : Float64 F⦄ where
  unfoldable pub new_device_pool : Config F → DevicePool F
  new_device_pool cfg = record { entries = []; consecutive_fail = []; cfg = normalized cfg }

  -- A new entry: what the composite literal sets, and the zero values.
  unfoldable pub new_entry : String → Source → String → DevicePoolEntry F
  new_entry ip source now = record {
    id = "ip-" <> ip;
    ip = ip;
    mac = "";
    hostname = "";
    vendor = "";
    first_seen = now;
    last_seen = "";
    last_probe_at = "";
    status = candidate;
    response_count = 0;
    failure_count = 0;
    avg_latency_ms = none;
    ttl = none;
    source = source;
    evidence = [];
    mobile_fingerprint = none;
    device_type_hint = "";
    os_hint = "";
    os_confidence = f.lit 0 1;
    os_evidence_summary = [];
  }

  -- `EnsureCandidate`: the entry, where there is one, and whether it is new.
  unfoldable pub ensure_candidate :
      DevicePool F → Instant → String → Source → DevicePool F × Option (DevicePoolEntry F) × Bool
  ensure_candidate p now ip source = elim (lookup ip p.entries) [
    | some e ↦ (p, some e, false)
    | none ↦
        let e = new_entry ip source now.rfc3339 in
        if leb_ℤ p.cfg.max_pool_size (pos (length p.entries))
        then (p, none, false)
        else (record p { entries = insert ip e p.entries }, some e, true)
  ]

  -- The running average over `n` responses, of which `latency` is the last.
  unfoldable pub average : Option F → F → ℕ → F
  average none latency n = latency
  average (some a) latency n = f.div (f.add (f.mul a (f.lit (n - 1) 1)) latency) (f.lit n 1)

  -- The entry after one more response.
  unfoldable pub respond : DevicePoolEntry F → Instant → F → ℤ → DevicePoolEntry F
  respond e now latency ttl = record e {
    response_count = suc e.response_count;
    last_seen = now.rfc3339;
    last_probe_at = now.rfc3339;
    status = active;
    avg_latency_ms =
        if f.lt (f.lit 0 1) latency
        then some (average e.avg_latency_ms latency (suc e.response_count))
        else e.avg_latency_ms;
    ttl = if ltb_ℤ (pos 0) ttl then some ttl else e.ttl;
  }

  abbrev pub entry_or_new : Option (DevicePoolEntry F) → DevicePoolEntry F → DevicePoolEntry F
  entry_or_new none e = e
  entry_or_new (some e) _ = e

  -- `RecordSuccess`: the entry, and whether this is its first response.
  unfoldable pub record_success :
      DevicePool F → Instant → String → F → ℤ → Source → DevicePool F × DevicePoolEntry F × Bool
  record_success p now ip latency ttl source =
      let e = entry_or_new (lookup ip p.entries) (new_entry ip source now.rfc3339) in
      let e' = respond e now latency ttl in
      (
        record p {
          entries = insert ip e' p.entries;
          consecutive_fail = insert ip 0 p.consecutive_fail;
        },
        e',
        e.response_count == 0,
      )

  -- The `switch` of `RecordFailure`, with the number of failures in a row: the new status, and whether
  -- it just became stale.
  unfoldable pub after_failure : Config F → DeviceStatus → ℕ → DeviceStatus × Bool
  after_failure cfg active fails =
      if leb_ℤ cfg.recently_after (pos fails) then (recently_seen, false) else (active, false)
  after_failure cfg recently_seen fails =
      if leb_ℤ cfg.stale_after (pos fails) then (stale, true) else (recently_seen, false)
  after_failure cfg candidate fails =
      if leb_ℤ cfg.candidate_fail_max (pos fails) then (unreachable, false) else (candidate, false)
  after_failure cfg stale fails = (stale, false)
  after_failure cfg unreachable fails = (unreachable, false)

  unfoldable pub fail : Config F → DevicePoolEntry F → Instant → ℕ → DevicePoolEntry F
  unfolding after_failure
  fail cfg e now fails = record e {
    failure_count = suc e.failure_count;
    last_probe_at = now.rfc3339;
    status = (after_failure cfg e.status fails).0;
  }

  -- `RecordFailure`: the entry, and whether it just became stale.
  unfoldable pub record_failure :
      DevicePool F → Instant → String → DevicePool F × Option (DevicePoolEntry F) × Bool
  record_failure p now ip = elim (lookup ip p.entries) [
    | none ↦ (p, none, false)
    | some e ↦
        let fails = suc (count_or_zero (lookup ip p.consecutive_fail)) in
        let e' = fail p.cfg e now fails in
        (
          record p {
            entries = insert ip e' p.entries;
            consecutive_fail = insert ip fails p.consecutive_fail;
          },
          some e',
          (after_failure p.cfg e.status fails).1,
        )
  ]

  unfoldable pub get : DevicePool F → String → Option (DevicePoolEntry F)
  get p ip = lookup ip p.entries
