-- ===== src/Ippool/Manager/Steps/Core.antt =====
-- What the methods of apps/desktop/ippool/manager.go do to the queue, the addresses at the
-- scheduler, the marks and the batch.
use tmap.Base.{
  arith, ℕ, ◌≡◌, refl, Bool, true, false, Option, none, some, List, [], ◌∷◌, ◌++◌, String, member,
  Bool-cases, inl, inr, if_case, Yields, yield, if◌then◌else◌, length, ltb, ◌||◌, ◌&&◌, is_empty,
}
use tmap.Base.Float.{Float64}
use tmap.Ippool.Types.{
  DeviceStatus, DevicePoolEntry, MobileFingerprint, Instant, ProbeResultPayload, ProbeOutcome,
  candidates,
}
use tmap.Ippool.Guard.{Message, silent, CidrDecision, allow_cidr}
use tmap.Ippool.Candidates.{Outcome, returned, panicked, running, subnet_of}
use tmap.Ippool.Pool.{ensure_candidate}
use tmap.Ippool.Registry.{ips_by_status, clear_stale}
use tmap.Ippool.Manager.{Manager, task_queue_size, emit_fingerprint, emit_scored, emit_topology}
use tmap.Ippool.Manager.Handlers.{
  drop_key, enqueue, enqueue_all, queue_hosts, expand_net, expand_subnet, emit_warning, stop, feed,
  feed_next, retest, clear,
}
use tmap.Ippool.Manager.Steps.{take, take_next, note_outcome}

-- The four fields.
pub record Core (F : Type 0) : Type 0 where
  pub task_ch : List String
  pub working : List String
  pub inflight : List String
  pub pending : List (ProbeResultPayload F)

abbrev pub core_of : {F : Type 0} → Manager F → Core F
core_of m = record {
  task_ch = m.task_ch;
  working = m.working;
  inflight = m.inflight;
  pending = m.pending_probe;
}

-- The six moves keep a property.
pub record IsKept {F : Type 0} (P : Core F → Type 0) : Type 0 where
  pub enqueues :
      (c : Core F) (ip : String)
      → member ip c.inflight ≡ false
      → ltb (length c.task_ch) task_queue_size ≡ true
      → P c
      → P (record c { task_ch = c.task_ch ++ (ip ∷ []); inflight = ip ∷ c.inflight })
  pub overflows :
      (c : Core F) (ip : String)
      → member ip c.inflight ≡ false
      → P c
      → P (record c { inflight = drop_key ip (ip ∷ c.inflight) })
  pub takes_one :
      (c : Core F) (ip : String) (rest : List String)
      → c.task_ch ≡ ip ∷ rest
      → P c
      → P (record c { task_ch = rest; working = c.working ++ (ip ∷ []) })
  pub finishes :
      (c : Core F) (ip : String) (payload : ProbeResultPayload F)
      → member ip c.working ≡ true
      → P c
      → P (record c {
        working = drop_key ip c.working;
        inflight = drop_key ip c.inflight;
        pending = if ltb (length c.pending) 200 then c.pending ++ (payload ∷ []) else c.pending;
      })
  pub resets : (c : Core F) → P c → P (record c { task_ch = []; working = [] })
  pub empties : (c : Core F) → P c → P (record c { pending = [] })

pub record Keeps {F : Type 0} (P : Core F → Type 0) (m : Manager F) : Type 0 where
  pub holds : P (core_of m)

module _ {F : Type 0} ⦃f : Float64 F⦄ (P : Core F → Type 0) (k : IsKept P) where
  pub enqueue-Keeps : (m : Manager F) (ip : String) → Keeps P m → Keeps P (enqueue m ip)
  unfolding enqueue
  enqueue-Keeps m ip s = elim (Bool-cases (member ip m.inflight)) [
    | inl e ↦ rw (e, enqueue) s
    | inr e ↦ elim (Bool-cases (m.opened && ltb (length m.task_ch) task_queue_size)) [
      | inl room ↦
          rw (e, room, enqueue)
            (record { holds = k.enqueues (core_of m) ip e (ground arith) s.holds })
      | inr full ↦ rw (e, full, enqueue) (record { holds = k.overflows (core_of m) ip e s.holds })
    ]
  ]

  pub enqueue_all-Keeps :
      (ips : List String) (m : Manager F) → Keeps P m → Keeps P (enqueue_all m ips)
  unfolding enqueue_all
  enqueue_all-Keeps [] m s = s
  enqueue_all-Keeps (ip ∷ ips) m s = enqueue_all-Keeps ips (enqueue m ip) (enqueue-Keeps m ip s)

  pub warning-Keeps : (m : Manager F) (w : Message) → Keeps P m → Keeps P (emit_warning m w)
  warning-Keeps m silent s = s
  warning-Keeps m w s = record { holds = s.holds }

  pub hosts-Keeps : (m : Manager F) (o : Outcome) → Keeps P m → Yields (Keeps P) (queue_hosts m o)
  unfolding Yields
  hosts-Keeps m (returned hosts) s = record { holds = s.holds }
  hosts-Keeps m panicked s = tt
  hosts-Keeps m running s = tt

  pub expand_net-Keeps :
      (m : Manager F) (ip cidr : String) (dec : CidrDecision)
      → Keeps P m
      → Yields (Keeps P) (expand_net m ip cidr dec)
  unfolding expand_net
  expand_net-Keeps m ip cidr dec s = elim (Bool-cases dec.allowed) [
    | inl e ↦
        rw (e, expand_net)
          (hosts-Keeps _ _ (warning-Keeps _ dec.warning (record { holds = s.holds })))
    | inr e ↦ rw (e, expand_net) (yield (Keeps P) (record { holds = s.holds }))
  ]

  pub expand-Keeps :
      (m : Manager F) (ip : String) (confirm : Bool)
      → Keeps P m
      → Yields (Keeps P) (expand_subnet m ip confirm)
  unfolding expand_subnet
  expand-Keeps m ip confirm s =
      let cidr = subnet_of ip m.cfg.max_auto_prefix in
      if_case (Yields (Keeps P)) (m.paused || is_empty cidr || member cidr m.expanded)
        (yield (Keeps P) s) (expand_net-Keeps m ip cidr (allow_cidr m.guard cidr confirm) s)

  pub scored-Keeps :
      (m : Manager F) (now : Instant) (e : DevicePoolEntry F) (o : Option (MobileFingerprint F))
      → Keeps P m
      → Keeps P (emit_scored m now e o)
  scored-Keeps m now e none s = s
  scored-Keeps m now e (some fp) s = record { holds = s.holds }

  pub fingerprint-Keeps :
      (m : Manager F) (now : Instant) (e : DevicePoolEntry F)
      → Keeps P m
      → Keeps P (emit_fingerprint m now e)
  unfolding emit_fingerprint
  fingerprint-Keeps m now e s = scored-Keeps m now e e.mobile_fingerprint s

  pub feed_next-Keeps :
      (m : Manager F) (now : Instant) (ips : List String)
      → Keeps P m
      → Keeps P (feed_next m now ips)
  feed_next-Keeps m now [] s = s
  feed_next-Keeps m now (ip ∷ rest) s = enqueue-Keeps _ ip (
      if_case (Keeps P) (ensure_candidate m.pool now ip candidates).2 (record { holds = s.holds })
        (record { holds = s.holds }))

  pub feed-Keeps : (m : Manager F) (now : Instant) → Keeps P m → Keeps P (feed m now)
  unfolding feed
  feed-Keeps m now s = if_case (Keeps P) m.paused s (feed_next-Keeps m now m.backlog s)

  pub retest-Keeps :
      (m : Manager F) (want : DeviceStatus → Bool) → Keeps P m → Keeps P (retest m want)
  unfolding retest
  retest-Keeps m want s = enqueue_all-Keeps (ips_by_status want m.pool.entries) m s

  pub take_next-Keeps :
      (m : Manager F) (ips : List String) → m.task_ch ≡ ips → Keeps P m → Keeps P (take_next m ips)
  take_next-Keeps m [] e s = s
  take_next-Keeps m (ip ∷ rest) e s = record { holds = k.takes_one (core_of m) ip rest e s.holds }

  pub take-Keeps : (m : Manager F) → Keeps P m → Keeps P (take m)
  unfolding take
  take-Keeps m s = take_next-Keeps m m.task_ch refl s

  pub stop-Keeps : (m : Manager F) → Keeps P m → Keeps P (stop m)
  unfolding stop
  stop-Keeps m s = if_case (Keeps P) m.running (record { holds = s.holds }) s

  pub clear-Keeps : (m : Manager F) (now : Instant) → Keeps P m → Keeps P (clear m now).0
  unfolding clear emit_topology
  clear-Keeps m now s =
      if_case {A = Manager F × ℕ} (λ r. Keeps P r.0) (ltb 0 (clear_stale m.pool).1)
        (record { holds = s.holds }) (record { holds = s.holds })

  pub note-Keeps :
      (m : Manager F) (now : Instant) (out : ProbeOutcome F)
      → member out.ip m.working ≡ true
      → Keeps P m
      → Keeps P (note_outcome m now out)
  unfolding note_outcome
  note-Keeps m now out e s = record { holds = k.finishes (core_of m) out.ip _ e s.holds }
