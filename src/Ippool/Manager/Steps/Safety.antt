-- ===== src/Ippool/Manager/Steps/Safety.antt =====
-- The scope of discovery, over any run of the manager.
use tmap.Base.{
  ◌++◌, if◌then◌else◌, refl, Bool, false, Option, none, some, List, [], ◌∷◌, String, member, arith,
  Bool-cases, inl, inr, if_case, Yields, Yields-bind, yield, length, ltb, ◌&&◌, subst,
}
use tmap.Base.Float.{Float64}
use tmap.Ippool.Types.{
  Source, DevicePoolEntry, MobileFingerprint, Instant, ProbeOutcome, EvidenceItem, seed, candidates,
  passive,
}
use tmap.Ippool.Config.{Config, normalized}
use tmap.Ippool.Guard.{ScopeGuard, Message, silent, allow_ip, new_scope_guard}
use tmap.Ippool.Pool.{DevicePool, new_device_pool, ensure_candidate, record_success, record_failure}
use tmap.Ippool.Registry.{refresh_fingerprints, add_evidence, is_stale}
use tmap.Ippool.Registry.Answered.{
  AllAnswered, ensure-AllAnswered, success-AllAnswered, failure-AllAnswered, evidence-AllAnswered,
  refresh-AllAnswered,
}
use tmap.Ippool.Manager.{
  seed_added, Manager, device_found, device_updated, seconds, refresh_due, probe_results,
  new_manager, emit, emit_fingerprint, emit_topology,
}
use tmap.Ippool.Manager.Handlers.{
  enqueue, expand_subnet, set_paused, seed_item, add_seed_locked, add_seed, add_seeds, start,
}
use tmap.Ippool.Manager.Steps.{
  Action, starts, stops, pauses, adds_seed, feeds, retests_active, retests_stale, takes, answers,
  flushes, clears, observes, report_failure, report_evidence, ping_item, known_or, act, run,
  consume, consume_success, consume_failure, note_outcome, flush, refresh_if_due, report,
  report_all, add_device_evidence, is_retested,
}
use tmap.Ippool.Manager.Steps.Scope.{
  IsInScope, IsScoped, drop-All, member-All, enqueue-IsScoped, expand-IsScoped,
  fingerprint-IsScoped, feed-IsScoped, retest-IsScoped, take-IsScoped, stop-IsScoped,
  clear-IsScoped,
}

module _ {F : Type 0} ⦃f : Float64 F⦄ (g : ScopeGuard) where
  note-IsScoped :
      (m : Manager F) (now : Instant) (out : ProbeOutcome F)
      → IsScoped g m
      → IsScoped g (note_outcome m now out)
  unfolding note_outcome
  note-IsScoped m now out s = record {
    holds = (
      s.holds.0,
      s.holds.1,
      drop-All (IsInScope g) out.ip m.working s.holds.2,
      s.holds.3,
      s.holds.4,
    );
  }

  failure-IsScoped :
      (m : Manager F) (o : Option (DevicePoolEntry F)) (b : Bool)
      → IsScoped g m
      → IsScoped g (report_failure m o b)
  failure-IsScoped m none b s = s
  failure-IsScoped m (some e) b s =
      if_case (IsScoped g) b (record { holds = s.holds }) (record { holds = s.holds })

  with_pool :
      (m : Manager F) (p : DevicePool F)
      → AllAnswered (IsInScope g) p
      → IsScoped g m
      → IsScoped g (record m { pool = p })
  with_pool m p h s = record { holds = (s.holds.0, s.holds.1, s.holds.2, s.holds.3, h) }

  evidence-IsScoped :
      (m : Manager F) (now : Instant) (o : Option (DevicePoolEntry F)) (c d : Bool)
      → IsScoped g m
      → IsScoped g (report_evidence m now o c d).0
  unfolding emit_topology
  evidence-IsScoped m now none c d s = s
  evidence-IsScoped m now (some e) c d s =
      let told = if_case (IsScoped g) d (fingerprint-IsScoped g m now e s) s in
      if_case {A = Manager F × Bool} (λ r. IsScoped g r.0) c (record { holds = told.holds }) s

  module _ (fingerprint : DevicePoolEntry F → Instant → MobileFingerprint F) where
    report-IsScoped :
        (m : Manager F) (now : Instant) (e : DevicePoolEntry F) (b : Bool)
        → IsScoped g m
        → IsScoped g (report fingerprint m now e b)
    unfolding report
    report-IsScoped m now e b s =
        let told = if_case (IsScoped g) b (fingerprint-IsScoped g m now e s) s in
        record { holds = told.holds }

    success-IsScoped :
        (m : Manager F) (now : Instant) (out : ProbeOutcome F)
        → IsInScope g out.ip
        → IsScoped g m
        → Yields (IsScoped g) (consume_success fingerprint m now out)
    unfolding consume_success
    success-IsScoped m now out q s =
        let hit = record_success m.pool now out.ip out.latency_ms out.ttl candidates in
        let seen = add_evidence fingerprint hit.0 now out.ip (ping_item out now) in
        let entry = known_or seen.1 hit.1 in
        let found : AllAnswered (IsInScope g) seen.0 =
          evidence-AllAnswered (IsInScope g) fingerprint hit.0 now out.ip _
            (success-AllAnswered (IsInScope g) m.pool now out.ip _ _ _ q s.holds.4) in
        let s1 = with_pool m seen.0 found s in
        elim (Bool-cases hit.2) [
          | inl e ↦
              rw (e, consume_success)
                (Yields-bind (IsScoped g) (IsScoped g)
                  (expand_subnet (emit (record m { pool = seen.0 }) (device_found entry)) out.ip
                    false)
                  (λ m2. some (report fingerprint m2 now entry seen.3))
                  (expand-IsScoped g _ out.ip false (record { holds = s1.holds }))
                  (λ m2 s2. yield (IsScoped g) (report-IsScoped m2 now entry seen.3 s2)))
          | inr e ↦
              rw (e, consume_success) (yield (IsScoped g) (report-IsScoped _ now entry seen.3 s1))
        ]

    consume-IsScoped :
        (m : Manager F) (now : Instant) (out : ProbeOutcome F)
        → IsInScope g out.ip
        → IsScoped g m
        → Yields (IsScoped g) (consume fingerprint m now out)
    unfolding consume consume_failure
    consume-IsScoped m now out q s =
        let m1 = note_outcome m now out in
        let s1 = note-IsScoped m now out s in
        let failed = record_failure m1.pool now out.ip in
        if_case (Yields (IsScoped g)) out.reachable (success-IsScoped m1 now out q s1) (
          yield (IsScoped g) (
            failure-IsScoped _ failed.1 failed.2 (
              with_pool m1 failed.0
                (failure-AllAnswered (IsInScope g) m1.pool now out.ip s1.holds.4) s1)))

    report_all-IsScoped :
        (es : List (DevicePoolEntry F)) (m : Manager F) (now : Instant)
        → IsScoped g m
        → IsScoped g (report_all fingerprint m now es)
    unfolding report_all
    report_all-IsScoped [] m now s = s
    report_all-IsScoped (e ∷ es) m now s =
        report_all-IsScoped es (emit (emit_fingerprint m now e) (device_updated e)) now
          (record { holds = (fingerprint-IsScoped g m now e s).holds })

    refresh-IsScoped :
        (m : Manager F) (now : Instant)
        → IsScoped g m
        → IsScoped g (refresh_if_due fingerprint m now)
    unfolding refresh_if_due
    refresh-IsScoped m now s =
        let out = refresh_fingerprints fingerprint m.pool now in
        let m1 = record m { last_mobile_refresh = some now.unix_milli; pool = out.0 } in
        let fresh = refresh-AllAnswered (IsInScope g) fingerprint m.pool now s.holds.4 in
        if_case (IsScoped g) (refresh_due m now)
          (report_all-IsScoped out.1 m1 now (record { holds = (with_pool m out.0 fresh s).holds }))
          s

    flush-IsScoped :
        (m : Manager F) (now : Instant) → IsScoped g m → IsScoped g (flush fingerprint m now)
    unfolding flush emit_topology
    flush-IsScoped m now s =
        let m1 = record m {
          pending_probe = [];
          probe_window = 0;
          probes_per_sec = f.div (f.lit m.probe_window 1) (seconds m.cfg.batch_interval);
        } in
        let s1 : IsScoped g m1 = record { holds = s.holds } in
        let sent =
          if_case (IsScoped g) (ltb 0 (length m.pending_probe))
            {x = emit m1 (probe_results m.pending_probe)} {y = m1} (record { holds = s.holds })
            s1 in
        record { holds = (refresh-IsScoped _ now sent).holds }

    observe-IsScoped :
        (m : Manager F) (now : Instant) (ip : String) (item : EvidenceItem F)
        → IsScoped g m
        → IsScoped g (add_device_evidence fingerprint m now ip item).0
    unfolding add_device_evidence
    observe-IsScoped m now ip item s =
        let kept = (ensure_candidate m.pool now ip passive).0 in
        let out = add_evidence fingerprint kept now ip item in
        let held =
          evidence-AllAnswered (IsInScope g) fingerprint kept now ip item
            (ensure-AllAnswered (IsInScope g) m.pool now ip passive s.holds.4) in
        evidence-IsScoped _ now out.1 out.2 out.3 (with_pool m out.0 held s)

    seed-IsScoped :
        (m : Manager F) (now : Instant) (ip : String) (source : Source) (confirm : Bool)
        → IsScoped g m
        → Yields (IsScoped g) (add_seed_locked fingerprint m now ip source confirm)
    unfolding add_seed_locked
    seed-IsScoped m now ip source confirm s = elim (Bool-cases (allow_ip m.guard ip).0) [
      | inl e ↦
          let kept = (ensure_candidate m.pool now ip source).0 in
          let held =
            evidence-AllAnswered (IsInScope g) fingerprint kept now ip
              (seed_item fingerprint ip source now)
              (ensure-AllAnswered (IsInScope g) m.pool now ip source s.holds.4) in
          let m1 =
            emit
              (record m {
                seeds = if member ip m.seeds then m.seeds else m.seeds ++ (ip ∷ []);
                pool =
                    (add_evidence fingerprint kept now ip (seed_item fingerprint ip source now)).0;
              })
              (seed_added ip source) in
          let in_scope = subst (λ guard. IsInScope guard ip) s.holds.0 e in
          rw (e, add_seed_locked)
            (expand-IsScoped g (enqueue m1 ip) ip confirm (
              enqueue-IsScoped g m1 ip in_scope
                (record { holds = (with_pool m m1.pool held s).holds })))
      | inr e ↦ rw (e, add_seed_locked) (yield (IsScoped g) (record { holds = s.holds }))
    ]

    seeds-IsScoped :
        (ips : List String) (m : Manager F) (now : Instant) (confirm : Bool)
        → IsScoped g m
        → Yields (IsScoped g) (add_seeds fingerprint m now ips confirm)
    unfolding add_seeds
    seeds-IsScoped [] m now confirm s = yield (IsScoped g) s
    seeds-IsScoped (ip ∷ ips) m now confirm s =
        Yields-bind (IsScoped g) (IsScoped g) (add_seed_locked fingerprint m now ip seed confirm)
          (λ m'. add_seeds fingerprint m' now ips confirm) (seed-IsScoped m now ip seed confirm s)
          (λ m' s'. seeds-IsScoped ips m' now confirm s')

    start-IsScoped :
        (m : Manager F) (now : Instant) (seeds : List String) (confirm : Bool)
        → IsScoped g m
        → Yields (IsScoped g) (start fingerprint m now seeds confirm)
    unfolding start
    start-IsScoped m now seeds confirm s =
        if_case {A = Option (Manager F)} (Yields (IsScoped g)) m.running (yield (IsScoped g) s) (
          seeds-IsScoped seeds _ now confirm
            (record { holds = (s.holds.0, tt, tt, s.holds.3, s.holds.4) }))

    abbrev OfPair : Manager F × Message → Type 0
    OfPair r = IsScoped g r.0

    add_seed-IsScoped :
        (m : Manager F) (now : Instant) (ip : String)
        → IsScoped g m
        → Yields OfPair (add_seed fingerprint m now ip)
    unfolding add_seed
    add_seed-IsScoped m now ip s =
        if_case {A = Option (Manager F × Message)} (Yields OfPair) (allow_ip m.guard ip).0
          (Yields-bind (IsScoped g) OfPair (add_seed_locked fingerprint m now ip seed false)
            (λ m'. some (m', silent)) (seed-IsScoped m now ip seed false s)
            (λ m' s'. yield OfPair s'))
          (yield OfPair (record { holds = s.holds }))

    act-IsScoped :
        (m : Manager F) (now : Instant) (a : Action F)
        → IsScoped g m
        → Yields (IsScoped g) (act fingerprint m now a)
    unfolding act
    act-IsScoped m now (starts seeds confirm) s = start-IsScoped m now seeds confirm s
    act-IsScoped m now stops s = yield (IsScoped g) (stop-IsScoped g m s)
    act-IsScoped m now (pauses p) s =
        unfold set_paused in yield (IsScoped g) (record { holds = s.holds })
    act-IsScoped m now (adds_seed ip) s =
        Yields-bind OfPair (IsScoped g) (add_seed fingerprint m now ip) (λ r. some r.0)
          (add_seed-IsScoped m now ip s) (λ r s'. yield (IsScoped g) s')
    act-IsScoped m now feeds s =
        yield (IsScoped g) (if_case (IsScoped g) m.running (feed-IsScoped g m now s) s)
    act-IsScoped m now retests_active s =
        yield (IsScoped g) (
          if_case (IsScoped g) m.running (retest-IsScoped g m is_retested (λ t h. ground arith) s)
            s)
    act-IsScoped m now retests_stale s =
        yield (IsScoped g)
          (if_case (IsScoped g) m.running (retest-IsScoped g m is_stale (λ t h. ground arith) s) s)
    act-IsScoped m now takes s =
        yield (IsScoped g) (if_case (IsScoped g) m.running (take-IsScoped g m s) s)
    act-IsScoped m now (answers out) s = elim (Bool-cases (m.running && member out.ip m.working)) [
      | inl e ↦
          rw (e, act)
            (consume-IsScoped m now out
              (member-All (IsInScope g) out.ip m.working (ground arith) s.holds.2) s)
      | inr e ↦ rw (e, act) (yield (IsScoped g) s)
    ]
    act-IsScoped m now flushes s = yield (IsScoped g) (flush-IsScoped m now s)
    act-IsScoped m now clears s = yield (IsScoped g) (clear-IsScoped g m now s)
    act-IsScoped m now (observes ip item) s = yield (IsScoped g) (observe-IsScoped m now ip item s)

    run_from-IsScoped :
        (script : List (Instant × Action F)) (m : Manager F)
        → IsScoped g m
        → Yields (IsScoped g) (run fingerprint m script)
    unfolding run
    run_from-IsScoped [] m s = yield (IsScoped g) s
    run_from-IsScoped ((now, a) ∷ rest) m s =
        Yields-bind (IsScoped g) (IsScoped g) (act fingerprint m now a)
          (λ m'. run fingerprint m' rest) (act-IsScoped m now a s)
          (λ m' s'. run_from-IsScoped rest m' s')

-- After any run of a new manager that ends in a state, every address in the queue, at the scheduler
-- or in the backlog, and that of every device in the pool that has answered, is one that the guard
-- of its configuration allows.
pub run-IsScoped :
    {F : Type 0} ⦃f : Float64 F⦄ (fingerprint : DevicePoolEntry F → Instant → MobileFingerprint F)
    (given : Config F) (script : List (Instant × Action F))
    → Yields
        (IsScoped (new_scope_guard (normalized given)))
        (run fingerprint (new_manager given) script)
unfolding new_manager new_device_pool
run-IsScoped fingerprint given script =
    run_from-IsScoped (new_scope_guard (normalized given)) fingerprint script (new_manager given)
      (record { holds = (refl, tt, tt, tt, tt) })
