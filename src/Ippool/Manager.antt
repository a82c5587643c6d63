-- ===== src/Ippool/Manager.antt =====
-- The state of `Manager` in apps/desktop/ippool/manager.go, and what it reports of it. `task_ch` is
-- what the channel holds, oldest first, and `opened` is whether there is one, which `Start` makes;
-- `working` are the addresses that the scheduler took from the channel and whose outcome is not
-- consumed yet; `log` are the emitted events, the newest first.
pub mod Handlers
pub mod Steps
use tmap.Base.{
  ℕ, ◌-◌, ◌*◌, ◌/◌, ◌%◌, Bool, true, false, ◌||◌, Option, none, some, List, [], ◌∷◌, ◌++◌, String,
  is_empty, if◌then◌else◌, length,
}
use tmap.Base.Int.{ℤ, pos, pos_part, leb_ℤ}
use tmap.Base.Float.{Float64}
use tmap.Ippool.Types.{
  DeviceStatus, active, recently_seen, stale, candidate, unreachable, Source, DevicePoolEntry,
  MobileFingerprint, Instant, ProbeResultPayload,
}
use tmap.Ippool.Config.{Config, normalized, millisecond, second}
use tmap.Ippool.Guard.{ScopeGuard, Message, new_scope_guard}
use tmap.Ippool.Pool.{DevicePool, new_device_pool}
use tmap.Ippool.Registry.{is_shown, snapshot, counts}

pub record StatusSnapshot (F : Type 0) : Type 0 where
  pub running : Bool
  pub seeds : List String
  pub active_count : ℕ
  pub recently_count : ℕ
  pub stale_count : ℕ
  pub candidate_count : ℕ
  pub candidate_queue : ℕ
  pub subnets : List String
  pub last_probe_at : ℕ
  pub probes_per_sec : F
  pub concurrency : ℤ
  pub warnings : List Message

-- The events by their payloads. The events that go out in pairs, `device:updated` and the topology,
-- are one here.
pub data Event (F : Type 0) : Type 0 where
  started stopped status_changed : StatusSnapshot F → Event F
  seed_added : String → Source → Event F
  candidate_added : String → Event F
  warned : Message → Event F
  device_found device_updated device_stale : DevicePoolEntry F → Event F
  fingerprint_updated : DevicePoolEntry F → MobileFingerprint F → String → Event F
  probe_results : List (ProbeResultPayload F) → Event F
  topology_updated : List (DevicePoolEntry F) → ℕ → Event F

pub record Manager (F : Type 0) : Type 0 where
  pub cfg : Config F
  pub guard : ScopeGuard
  pub running : Bool
  pub paused : Bool
  pub seeds : List String
  pub subnets : List String
  pub expanded : List String
  pub warnings : List Message
  pub pool : DevicePool F
  pub opened : Bool
  pub task_ch : List String
  pub working : List String
  pub inflight : List String
  pub backlog : List String
  pub pending_probe : List (ProbeResultPayload F)
  pub last_probe_at : ℕ
  pub probe_window : ℕ
  pub probes_per_sec : F
  pub last_mobile_refresh : Option ℕ
  pub log : List (Event F)

abbrev pub task_queue_size : ℕ
task_queue_size = 512

module _ {F : Type 0} ⦃f : Float64 F⦄ where
  -- `New`
  unfoldable pub new_manager : Config F → Manager F
  new_manager given =
      let cfg = normalized given in
      record {
        cfg = cfg;
        guard = new_scope_guard cfg;
        running = false;
        paused = false;
        seeds = [];
        subnets = [];
        expanded = [];
        warnings = [];
        pool = new_device_pool cfg;
        opened = false;
        task_ch = [];
        working = [];
        inflight = [];
        backlog = [];
        pending_probe = [];
        last_probe_at = 0;
        probe_window = 0;
        probes_per_sec = f.lit 0 1;
        last_mobile_refresh = none;
        log = [];
      }

  abbrev pub emit : Manager F → Event F → Manager F
  emit m e = record m { log = e ∷ m.log }

  -- `warn`
  abbrev pub warn : Manager F → Message → Manager F
  warn m msg = emit (record m { warnings = m.warnings ++ (msg ∷ []) }) (warned msg)

  -- `Snapshot`
  unfoldable pub manager_snapshot : Manager F → StatusSnapshot F
  manager_snapshot m =
      let n = counts m.pool in
      record {
        running = m.running;
        seeds = m.seeds;
        active_count = n.0;
        recently_count = n.1;
        stale_count = n.2;
        candidate_count = n.3;
        candidate_queue = length m.backlog;
        subnets = m.subnets;
        last_probe_at = m.last_probe_at;
        probes_per_sec = m.probes_per_sec;
        concurrency = m.cfg.max_concurrency;
        warnings = m.warnings;
      }

  -- The loop of `topologyDevices`.
  unfoldable pub shown : List (DevicePoolEntry F) → List (DevicePoolEntry F)
  shown [] = []
  shown (e ∷ es) = let rest = shown es in if is_shown e.status then e ∷ rest else rest

  unfoldable pub topology_devices : Manager F → List (DevicePoolEntry F)
  unfolding shown
  topology_devices m = shown (snapshot m.pool)

  unfoldable pub emit_topology : Manager F → Instant → Manager F
  emit_topology m now = emit m (topology_updated (topology_devices m) now.unix_milli)

  abbrev pub emit_scored :
      Manager F → Instant → DevicePoolEntry F → Option (MobileFingerprint F) → Manager F
  emit_scored m now e none = m
  emit_scored m now e (some fp) = emit m (
      fingerprint_updated e fp
        (if is_empty fp.last_updated_at then now.rfc3339 else fp.last_updated_at))

  -- `emitMobileFingerprintUpdated`, the time of whose event is that of the call if it has none.
  unfoldable pub emit_fingerprint : Manager F → Instant → DevicePoolEntry F → Manager F
  emit_fingerprint m now e = emit_scored m now e e.mobile_fingerprint

  -- `Duration.Seconds`
  unfoldable pub seconds : ℤ → F
  seconds d =
      f.add (f.lit (pos_part d / second) 1) (f.div (f.lit (pos_part d % second) 1) (f.lit second 1))

  -- Whether the fingerprints are to be scored again.
  unfoldable pub refresh_due : Manager F → Instant → Bool
  refresh_due m now = elim m.last_mobile_refresh [
    | none ↦ true
    | some last ↦ leb_ℤ m.cfg.mobile_refresh_interval (pos ((now.unix_milli - last) * millisecond))
  ]
