-- ===== src/Ippool/Manager/Handlers.antt =====
-- The methods of `Manager` in apps/desktop/ippool/manager.go. `none` stands for a call that ends
-- the process, by the panic or the endless recursion of the candidate generator.
use tmap.Base.{
  ℕ, Bool, true, false, ◌||◌, ◌&&◌, not, Option, none, some, List, [], ◌∷◌, ◌++◌, String, str_eq,
  is_empty, member, if◌then◌else◌, ltb, length, ◌>>=◌,
}
use tmap.Base.Int.{pos}
use tmap.Base.Float.{Float64}
use tmap.Ippool.Types.{
  DeviceStatus, Source, seed, candidates, source_text, inferred, EvidenceItem, DevicePoolEntry,
  MobileFingerprint, Instant,
}
use tmap.Ippool.Guard.{
  Message, silent, rejected_seed, rejected_target, CidrDecision, allow_ip, allow_cidr,
}
use tmap.Ippool.Candidates.{subnet_of, Outcome, returned, panicked, running, generate_from_seed}
use tmap.Ippool.Pool.{ensure_candidate}
use tmap.Ippool.Registry.{add_evidence, ips_by_status, clear_stale}
use tmap.Ippool.Manager.{
  Manager, started, stopped, status_changed, seed_added, candidate_added, warned, task_queue_size,
  emit, warn, manager_snapshot, emit_topology,
}

-- Sets of strings: `s[k] = true` and `delete(s, k)`.
abbrev pub add_key : String → List String → List String
add_key k s = if member k s then s else k ∷ s

unfoldable pub drop_key : String → List String → List String
drop_key k [] = []
drop_key k (j ∷ s) = let rest = drop_key k s in if str_eq j k then rest else j ∷ rest

-- The generator calls itself at most once where it returns.
abbrev pub generator_fuel : ℕ
generator_fuel = 2

-- The warning of a decision, where it has one.
abbrev pub note : Message → List Message → List Message
note silent ws = ws
note msg ws = ws ++ (msg ∷ [])

module _ {F : Type 0} ⦃f : Float64 F⦄ where
  abbrev pub emit_warning : Manager F → Message → Manager F
  emit_warning m silent = m
  emit_warning m msg = emit m (warned msg)

  -- `enqueue`. The mark is taken back at once where the queue is full, or
  -- where there is none yet: a send on a nil channel is never ready.
  unfoldable pub enqueue : Manager F → String → Manager F
  unfolding member drop_key
  enqueue m ip =
      if member ip m.inflight
      then m
      else if m.opened && ltb (length m.task_ch) task_queue_size
      then record m { inflight = ip ∷ m.inflight; task_ch = m.task_ch ++ (ip ∷ []) }
      else record m { inflight = drop_key ip (ip ∷ m.inflight) }

  -- The end of `expandSubnet`, with the candidates.
  abbrev pub queue_hosts : Manager F → Outcome → Option (Manager F)
  queue_hosts m (returned hosts) = some (record m { backlog = m.backlog ++ hosts })
  queue_hosts m panicked = none
  queue_hosts m running = none

  -- `expandSubnet`, once the guard has decided on a network that is not expanded.
  unfoldable pub expand_net : Manager F → String → String → CidrDecision → Option (Manager F)
  expand_net m ip cidr dec =
      let m1 = record m { warnings = note dec.warning m.warnings } in
      let refused = record m1 { warnings = m1.warnings ++ (dec.reason ∷ []) } in
      let m2 = record m1 { expanded = cidr ∷ m.expanded; subnets = add_key cidr m.subnets } in
      let m3 = emit_warning m2 dec.warning in
      if not dec.allowed
      then some (emit refused (warned dec.reason))
      else queue_hosts m3 (generate_from_seed generator_fuel m.guard ip cidr (pos 0))

  unfoldable pub expand_subnet : Manager F → String → Bool → Option (Manager F)
  unfolding expand_net member
  expand_subnet m ip confirm =
      let cidr = subnet_of ip m.cfg.max_auto_prefix in
      if m.paused || is_empty cidr || member cidr m.expanded
      then some m
      else expand_net m ip cidr (allow_cidr m.guard cidr confirm)

  -- `SetPaused`
  unfoldable pub set_paused : Manager F → Bool → Manager F
  set_paused m p = record m { paused = p }

  unfoldable pub stop : Manager F → Manager F
  stop m =
      let halted = record m { running = false } in
      if m.running then emit halted (stopped (manager_snapshot halted)) else m

  -- The oldest candidate of the backlog goes into the pool and to the queue.
  abbrev pub feed_next : Manager F → Instant → List String → Manager F
  feed_next m now [] = m
  feed_next m now (ip ∷ rest) =
      let kept = ensure_candidate m.pool now ip candidates in
      let m1 = record m { backlog = rest; pool = kept.0 } in
      enqueue (if kept.2 then emit m1 (candidate_added ip) else m1) ip

  -- A tick of `feedCandidates`.
  unfoldable pub feed : Manager F → Instant → Manager F
  unfolding enqueue
  feed m now = if m.paused then m else feed_next m now m.backlog

  unfoldable pub enqueue_all : Manager F → List String → Manager F
  unfolding enqueue
  enqueue_all m [] = m
  enqueue_all m (ip ∷ ips) = enqueue_all (enqueue m ip) ips

  -- A tick of `retestLoop`.
  unfoldable pub retest : Manager F → (DeviceStatus → Bool) → Manager F
  unfolding enqueue_all
  retest m want = enqueue_all m (ips_by_status want m.pool.entries)

  -- `ClearStale`
  unfoldable pub clear : Manager F → Instant → Manager F × ℕ
  clear m now =
      let out = clear_stale m.pool in
      let m1 = record m { pool = out.0 } in
      let m2 = emit_topology m1 now in
      if ltb 0 out.1 then (emit m2 (status_changed (manager_snapshot m2)), out.1) else (m1, out.1)

  module _ (fingerprint : DevicePoolEntry F → Instant → MobileFingerprint F) where
    abbrev pub seed_item : String → Source → Instant → EvidenceItem F
    seed_item ip source now = record {
      type = "gateway_seed";
      source = source_text source;
      value = ip;
      timestamp = now.rfc3339;
      confidence_impact = f.lit 2 10;
      strength = inferred;
    }

    -- `addSeedLocked`
    unfoldable pub add_seed_locked :
        Manager F → Instant → String → Source → Bool → Option (Manager F)
    unfolding expand_subnet enqueue member
    add_seed_locked m now ip source confirm =
        let ok = allow_ip m.guard ip in
        let seeds = if member ip m.seeds then m.seeds else m.seeds ++ (ip ∷ []) in
        let kept = (ensure_candidate m.pool now ip source).0 in
        let pool = (add_evidence fingerprint kept now ip (seed_item ip source now)).0 in
        let m1 = emit (record m { seeds = seeds; pool = pool }) (seed_added ip source) in
        if ok.0
        then expand_subnet (enqueue m1 ip) ip confirm
        else some (warn m (rejected_target ip ok.1))

    -- `AddSeed`; the message is the error, and none where it is `silent`.
    unfoldable pub add_seed : Manager F → Instant → String → Option (Manager F × Message)
    unfolding add_seed_locked
    add_seed m now ip =
        let ok = allow_ip m.guard ip in
        if ok.0
        then (do m' ← add_seed_locked m now ip seed false; some (m', silent))
        else some (warn m (rejected_seed ip ok.1), ok.1)

    unfoldable pub add_seeds : Manager F → Instant → List String → Bool → Option (Manager F)
    unfolding add_seed_locked
    add_seeds m now [] confirm = some m
    add_seeds m now (ip ∷ ips) confirm = do
      m' ← add_seed_locked m now ip seed confirm
      add_seeds m' now ips confirm

    -- `Start`. Its channels are new, and so is the scheduler, which has taken nothing.
    unfoldable pub start : Manager F → Instant → List String → Bool → Option (Manager F)
    unfolding add_seeds
    start m now seeds confirm =
        let m1 = record m {
          running = true;
          paused = false;
          warnings = [];
          seeds = [];
          opened = true;
          task_ch = [];
          working = [];
          last_mobile_refresh = some now.unix_milli;
        } in
        if m.running
        then some m
        else add_seeds (emit m1 (started (manager_snapshot m1))) now seeds confirm
