-- ===== src/Ippool/Manager/Steps.antt =====
-- The goroutines of `Manager` in apps/desktop/ippool/manager.go, and the steps of the whole: each
-- action is one tick, one message or one call, and a run is any sequence of them.
pub mod Scope
pub mod Safety
pub mod Core
pub mod Kept
pub mod Queue
pub mod Restart
pub mod Drained
use tmap.Base.{
  ℕ, suc, Bool, ◌&&◌, ◌||◌, true, false, Option, none, some, List, [], ◌∷◌, ◌++◌, String, is_empty,
  member, if◌then◌else◌, ltb, length, ◌>>=◌,
}
use tmap.Base.Float.{Float64}
use tmap.Ippool.Types.{
  DeviceStatus, candidates, passive, confirmed, EvidenceItem, DevicePoolEntry, MobileFingerprint,
  Instant, ProbeOutcome, ProbeResultPayload,
}
use tmap.Ippool.Pool.{ensure_candidate, record_success, record_failure}
use tmap.Ippool.Registry.{add_evidence, refresh_fingerprints, is_stale, is_active, is_recently_seen}
use tmap.Ippool.Manager.{
  Manager, device_found, device_updated, device_stale, probe_results, status_changed, emit,
  manager_snapshot, emit_topology, emit_fingerprint, seconds, refresh_due,
}
use tmap.Ippool.Manager.Handlers.{
  drop_key, expand_subnet, set_paused, stop, feed, retest, clear, add_seed, start,
}

pub data Action (F : Type 0) : Type 0 where
  starts : List String → Bool → Action F
  stops : Action F
  pauses : Bool → Action F
  adds_seed : String → Action F
  feeds : Action F
  retests_active retests_stale : Action F
  takes : Action F
  answers : ProbeOutcome F → Action F
  flushes : Action F
  clears : Action F
  observes : String → EvidenceItem F → Action F

-- The statuses of the first `retestLoop`.
abbrev pub is_retested : DeviceStatus → Bool
is_retested s = is_active s || is_recently_seen s

module _ {F : Type 0} ⦃f : Float64 F⦄ where
  -- What `consume` does to the counters and to the batch before it looks at the outcome.
  unfoldable pub note_outcome : Manager F → Instant → ProbeOutcome F → Manager F
  unfolding drop_key
  note_outcome m now out =
      let payload : ProbeResultPayload F = record {
        ip = out.ip;
        reachable = out.reachable;
        latency_ms = out.latency_ms;
        ttl = out.ttl;
        method = out.method;
        timestamp = now.unix_milli;
      } in
      record m {
        inflight = drop_key out.ip m.inflight;
        working = drop_key out.ip m.working;
        last_probe_at = now.unix_milli;
        probe_window = suc m.probe_window;
        pending_probe =
            if ltb (length m.pending_probe) 200
            then m.pending_probe ++ (payload ∷ [])
            else m.pending_probe;
      }

  abbrev pub report_failure : Manager F → Option (DevicePoolEntry F) → Bool → Manager F
  report_failure m none became_stale = m
  report_failure m (some e) became_stale =
      let m1 = emit m (device_updated e) in if became_stale then emit m1 (device_stale e) else m1

  -- An outcome of an unreachable address.
  unfoldable pub consume_failure : Manager F → Instant → String → Manager F
  consume_failure m now ip =
      let out = record_failure m.pool now ip in
      report_failure (record m { pool = out.0 }) out.1 out.2

  abbrev pub known_or : Option (DevicePoolEntry F) → DevicePoolEntry F → DevicePoolEntry F
  known_or none e = e
  known_or (some e) _ = e

  abbrev pub ping_item : ProbeOutcome F → Instant → EvidenceItem F
  ping_item out now = record {
    type = "ping_response";
    source = out.method;
    value = out.ip;
    timestamp = now.rfc3339;
    confidence_impact = f.lit 4 10;
    strength = confirmed;
  }

  abbrev pub take_next : Manager F → List String → Manager F
  take_next m [] = m
  take_next m (ip ∷ rest) = record m { task_ch = rest; working = m.working ++ (ip ∷ []) }

  -- The scheduler takes the oldest address of the channel.
  unfoldable pub take : Manager F → Manager F
  take m = take_next m m.task_ch

  abbrev pub report_evidence :
      Manager F → Instant → Option (DevicePoolEntry F) → Bool → Bool → Manager F × Bool
  report_evidence m now none changed mobile_changed = (m, false)
  report_evidence m now (some e) changed mobile_changed =
      let m1 = if mobile_changed then emit_fingerprint m now e else m in
      if changed then (emit_topology (emit m1 (device_updated e)) now, true) else (m, false)

  module _ (fingerprint : DevicePoolEntry F → Instant → MobileFingerprint F) where
    -- The end of `consume` on a success: the fingerprint's event, where it changed, and the device's.
    unfoldable pub report : Manager F → Instant → DevicePoolEntry F → Bool → Manager F
    report m now e changed =
        emit (if changed then emit_fingerprint m now e else m) (device_updated e)

    -- An outcome of an address that answered.
    unfoldable pub consume_success : Manager F → Instant → ProbeOutcome F → Option (Manager F)
    unfolding report expand_subnet
    consume_success m now out =
        let hit = record_success m.pool now out.ip out.latency_ms out.ttl candidates in
        let seen = add_evidence fingerprint hit.0 now out.ip (ping_item out now) in
        let entry = known_or seen.1 hit.1 in
        let m1 = record m { pool = seen.0 } in
        if hit.2
        then (do
          m2 ← expand_subnet (emit m1 (device_found entry)) out.ip false
          some (report m2 now entry seen.3))
        else some (report m1 now entry seen.3)

    -- One outcome in `consume`.
    unfoldable pub consume : Manager F → Instant → ProbeOutcome F → Option (Manager F)
    unfolding note_outcome consume_success consume_failure
    consume m now out =
        let m1 = note_outcome m now out in
        if out.reachable then consume_success m1 now out else some (consume_failure m1 now out.ip)

    unfoldable pub report_all : Manager F → Instant → List (DevicePoolEntry F) → Manager F
    report_all m now [] = m
    report_all m now (e ∷ es) =
        report_all (emit (emit_fingerprint m now e) (device_updated e)) now es

    -- `refreshMobileFingerprintsIfDue`
    unfoldable pub refresh_if_due : Manager F → Instant → Manager F
    unfolding report_all
    refresh_if_due m now =
        let out = refresh_fingerprints fingerprint m.pool now in
        let m1 = record m { last_mobile_refresh = some now.unix_milli; pool = out.0 } in
        if refresh_due m now then report_all m1 now out.1 else m

    -- `flush`, with the configured interval.
    unfoldable pub flush : Manager F → Instant → Manager F
    unfolding refresh_if_due
    flush m now =
        let m1 = record m {
          pending_probe = [];
          probe_window = 0;
          probes_per_sec = f.div (f.lit m.probe_window 1) (seconds m.cfg.batch_interval);
        } in
        let m2 =
          if ltb 0 (length m.pending_probe) then emit m1 (probe_results m.pending_probe) else m1 in
        let m3 = emit_topology (refresh_if_due m2 now) now in
        emit m3 (status_changed (manager_snapshot m3))

    -- `AddDeviceEvidence`, and whether the entry changed.
    unfoldable pub add_device_evidence :
        Manager F → Instant → String → EvidenceItem F → Manager F × Bool
    add_device_evidence m now ip item =
        let kept = (ensure_candidate m.pool now ip passive).0 in
        let out = add_evidence fingerprint kept now ip item in
        report_evidence (record m { pool = out.0 }) now out.1 out.2 out.3

    -- One action. While the manager is stopped its goroutines do nothing, but that the batch loop
    -- flushes once more; the scheduler answers only for an address that it took; a call may come at
    -- any time.
    unfoldable pub act : Manager F → Instant → Action F → Option (Manager F)
    unfolding take consume flush start stop set_paused add_seed feed retest clear
        add_device_evidence member
    act m now (starts seeds confirm) = start fingerprint m now seeds confirm
    act m now stops = some (stop m)
    act m now (pauses p) = some (set_paused m p)
    act m now (adds_seed ip) = do r ← add_seed fingerprint m now ip; some r.0
    act m now feeds = some (if m.running then feed m now else m)
    act m now retests_active = some (if m.running then retest m is_retested else m)
    act m now retests_stale = some (if m.running then retest m is_stale else m)
    act m now takes = some (if m.running then take m else m)
    act m now (answers out) =
        if m.running && member out.ip m.working then consume m now out else some m
    act m now flushes = some (flush m now)
    act m now clears = some (clear m now).0
    act m now (observes ip item) = some (add_device_evidence m now ip item).0

    unfoldable pub run : Manager F → List (Instant × Action F) → Option (Manager F)
    unfolding act
    run m [] = some m
    run m ((now, a) ∷ rest) = do m' ← act m now a; run m' rest
