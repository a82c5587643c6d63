-- ===== src/Ippool/Manager/Steps/Kept.antt =====
-- A property of the queue, the addresses at the scheduler, the marks and the batch of manager.go,
-- over the goroutines and the runs.
use tmap.Base.{
  ◌++◌, if◌then◌else◌, ◌≡◌, Bool, true, false, Option, none, some, List, [], ◌∷◌, String, member,
  arith, Bool-cases, inl, inr, if_case, Yields, Yields-bind, yield, length, ltb, ◌&&◌,
}
use tmap.Base.Float.{Float64}
use tmap.Ippool.Types.{
  Source, DevicePoolEntry, MobileFingerprint, Instant, ProbeOutcome, EvidenceItem, seed, candidates,
  passive,
}
use tmap.Ippool.Guard.{Message, silent, allow_ip}
use tmap.Ippool.Pool.{ensure_candidate, record_success, record_failure}
use tmap.Ippool.Registry.{refresh_fingerprints, add_evidence, is_stale}
use tmap.Ippool.Manager.{
  seed_added, Manager, device_found, device_updated, seconds, refresh_due, probe_results, emit,
  emit_fingerprint, emit_topology,
}
use tmap.Ippool.Manager.Handlers.{
  enqueue, seed_item, expand_subnet, set_paused, add_seed_locked, add_seed, add_seeds, start,
}
use tmap.Ippool.Manager.Steps.{
  Action, starts, stops, pauses, adds_seed, feeds, retests_active, retests_stale, takes, answers,
  flushes, clears, observes, report_failure, report_evidence, ping_item, known_or, act, run,
  consume, consume_success, consume_failure, note_outcome, flush, refresh_if_due, report,
  report_all, add_device_evidence, is_retested,
}
use tmap.Ippool.Manager.Steps.Core.{
  Core, IsKept, Keeps, core_of, enqueue-Keeps, expand-Keeps, fingerprint-Keeps, feed-Keeps,
  retest-Keeps, take-Keeps, stop-Keeps, clear-Keeps, note-Keeps,
}

module _ {F : Type 0} ⦃f : Float64 F⦄ (P : Core F → Type 0) (k : IsKept P) where
  failure-Keeps :
      (m : Manager F) (o : Option (DevicePoolEntry F)) (b : Bool)
      → Keeps P m
      → Keeps P (report_failure m o b)
  failure-Keeps m none b s = s
  failure-Keeps m (some e) b s =
      if_case (Keeps P) b (record { holds = s.holds }) (record { holds = s.holds })

  evidence-Keeps :
      (m : Manager F) (now : Instant) (o : Option (DevicePoolEntry F)) (c d : Bool)
      → Keeps P m
      → Keeps P (report_evidence m now o c d).0
  unfolding emit_topology
  evidence-Keeps m now none c d s = s
  evidence-Keeps m now (some e) c d s =
      let told = if_case (Keeps P) d (fingerprint-Keeps P k m now e s) s in
      if_case {A = Manager F × Bool} (λ r. Keeps P r.0) c (record { holds = told.holds }) s

  module _ (fingerprint : DevicePoolEntry F → Instant → MobileFingerprint F) where
    report-Keeps :
        (m : Manager F) (now : Instant) (e : DevicePoolEntry F) (b : Bool)
        → Keeps P m
        → Keeps P (report fingerprint m now e b)
    unfolding report
    report-Keeps m now e b s =
        let told = if_case (Keeps P) b (fingerprint-Keeps P k m now e s) s in
        record { holds = told.holds }

    success-Keeps :
        (m : Manager F) (now : Instant) (out : ProbeOutcome F)
        → Keeps P m
        → Yields (Keeps P) (consume_success fingerprint m now out)
    unfolding consume_success
    success-Keeps m now out s =
        let hit = record_success m.pool now out.ip out.latency_ms out.ttl candidates in
        let seen = add_evidence fingerprint hit.0 now out.ip (ping_item out now) in
        let entry = known_or seen.1 hit.1 in
        let s1 : Keeps P (record m { pool = seen.0 }) = record { holds = s.holds } in
        elim (Bool-cases hit.2) [
          | inl e ↦
              rw (e, consume_success)
                (Yields-bind (Keeps P) (Keeps P)
                  (expand_subnet (emit (record m { pool = seen.0 }) (device_found entry)) out.ip
                    false)
                  (λ m2. some (report fingerprint m2 now entry seen.3))
                  (expand-Keeps P k _ out.ip false (record { holds = s1.holds }))
                  (λ m2 s2. yield (Keeps P) (report-Keeps m2 now entry seen.3 s2)))
          | inr e ↦ rw (e, consume_success) (yield (Keeps P) (report-Keeps _ now entry seen.3 s1))
        ]

    consume-Keeps :
        (m : Manager F) (now : Instant) (out : ProbeOutcome F)
        → member out.ip m.working ≡ true
        → Keeps P m
        → Yields (Keeps P) (consume fingerprint m now out)
    unfolding consume consume_failure
    consume-Keeps m now out q s =
        let m1 = note_outcome m now out in
        let s1 = note-Keeps P k m now out q s in
        let failed = record_failure m1.pool now out.ip in
        if_case (Yields (Keeps P)) out.reachable (success-Keeps m1 now out s1) (
          yield (Keeps P) (
            failure-Keeps (record m1 { pool = failed.0 }) failed.1 failed.2
              (record { holds = s1.holds })))

    report_all-Keeps :
        (es : List (DevicePoolEntry F)) (m : Manager F) (now : Instant)
        → Keeps P m
        → Keeps P (report_all fingerprint m now es)
    unfolding report_all
    report_all-Keeps [] m now s = s
    report_all-Keeps (e ∷ es) m now s =
        report_all-Keeps es (emit (emit_fingerprint m now e) (device_updated e)) now
          (record { holds = (fingerprint-Keeps P k m now e s).holds })

    refresh-Keeps :
        (m : Manager F) (now : Instant) → Keeps P m → Keeps P (refresh_if_due fingerprint m now)
    unfolding refresh_if_due
    refresh-Keeps m now s =
        let out = refresh_fingerprints fingerprint m.pool now in
        let m1 = record m { last_mobile_refresh = some now.unix_milli; pool = out.0 } in
        if_case (Keeps P) (refresh_due m now)
          (report_all-Keeps out.1 m1 now (record { holds = s.holds })) s

    flush-Keeps : (m : Manager F) (now : Instant) → Keeps P m → Keeps P (flush fingerprint m now)
    unfolding flush emit_topology
    flush-Keeps m now s =
        let m1 = record m {
          pending_probe = [];
          probe_window = 0;
          probes_per_sec = f.div (f.lit m.probe_window 1) (seconds m.cfg.batch_interval);
        } in
        let s1 : Keeps P m1 = record { holds = k.empties (core_of m) s.holds } in
        let sent =
          if_case (Keeps P) (ltb 0 (length m.pending_probe))
            {x = emit m1 (probe_results m.pending_probe)} {y = m1} (record { holds = s1.holds })
            s1 in
        record { holds = (refresh-Keeps _ now sent).holds }

    observe-Keeps :
        (m : Manager F) (now : Instant) (ip : String) (item : EvidenceItem F)
        → Keeps P m
        → Keeps P (add_device_evidence fingerprint m now ip item).0
    unfolding add_device_evidence
    observe-Keeps m now ip item s =
        let kept = (ensure_candidate m.pool now ip passive).0 in
        let out = add_evidence fingerprint kept now ip item in
        evidence-Keeps (record m { pool = out.0 }) now out.1 out.2 out.3
          (record { holds = s.holds })

    seed-Keeps :
        (m : Manager F) (now : Instant) (ip : String) (source : Source) (confirm : Bool)
        → Keeps P m
        → Yields (Keeps P) (add_seed_locked fingerprint m now ip source confirm)
    unfolding add_seed_locked
    seed-Keeps m now ip source confirm s = elim (Bool-cases (allow_ip m.guard ip).0) [
      | inl e ↦
          let kept = (ensure_candidate m.pool now ip source).0 in
          let m1 =
            emit
              (record m {
                seeds = if member ip m.seeds then m.seeds else m.seeds ++ (ip ∷ []);
                pool =
                    (add_evidence fingerprint kept now ip (seed_item fingerprint ip source now)).0;
              })
              (seed_added ip source) in
          rw (e, add_seed_locked)
            (expand-Keeps P k (enqueue m1 ip) ip confirm
              (enqueue-Keeps P k m1 ip (record { holds = s.holds })))
      | inr e ↦ rw (e, add_seed_locked) (yield (Keeps P) (record { holds = s.holds }))
    ]

    seeds-Keeps :
        (ips : List String) (m : Manager F) (now : Instant) (confirm : Bool)
        → Keeps P m
        → Yields (Keeps P) (add_seeds fingerprint m now ips confirm)
    unfolding add_seeds
    seeds-Keeps [] m now confirm s = yield (Keeps P) s
    seeds-Keeps (ip ∷ ips) m now confirm s =
        Yields-bind (Keeps P) (Keeps P) (add_seed_locked fingerprint m now ip seed confirm)
          (λ m'. add_seeds fingerprint m' now ips confirm) (seed-Keeps m now ip seed confirm s)
          (λ m' s'. seeds-Keeps ips m' now confirm s')

    start-Keeps :
        (m : Manager F) (now : Instant) (seeds : List String) (confirm : Bool)
        → Keeps P m
        → Yields (Keeps P) (start fingerprint m now seeds confirm)
    unfolding start
    start-Keeps m now seeds confirm s =
        if_case {A = Option (Manager F)} (Yields (Keeps P)) m.running (yield (Keeps P) s)
          (seeds-Keeps seeds _ now confirm (record { holds = k.resets (core_of m) s.holds }))

    abbrev OfPair : Manager F × Message → Type 0
    OfPair r = Keeps P r.0

    add_seed-Keeps :
        (m : Manager F) (now : Instant) (ip : String)
        → Keeps P m
        → Yields OfPair (add_seed fingerprint m now ip)
    unfolding add_seed
    add_seed-Keeps m now ip s =
        if_case {A = Option (Manager F × Message)} (Yields OfPair) (allow_ip m.guard ip).0
          (Yields-bind (Keeps P) OfPair (add_seed_locked fingerprint m now ip seed false)
            (λ m'. some (m', silent)) (seed-Keeps m now ip seed false s) (λ m' s'. yield OfPair s'))
          (yield OfPair (record { holds = s.holds }))

    act-Keeps :
        (m : Manager F) (now : Instant) (a : Action F)
        → Keeps P m
        → Yields (Keeps P) (act fingerprint m now a)
    unfolding act
    act-Keeps m now (starts seeds confirm) s = start-Keeps m now seeds confirm s
    act-Keeps m now stops s = yield (Keeps P) (stop-Keeps P k m s)
    act-Keeps m now (pauses p) s = unfold set_paused in yield (Keeps P) (record { holds = s.holds })
    act-Keeps m now (adds_seed ip) s =
        Yields-bind OfPair (Keeps P) (add_seed fingerprint m now ip) (λ r. some r.0)
          (add_seed-Keeps m now ip s) (λ r s'. yield (Keeps P) s')
    act-Keeps m now feeds s =
        yield (Keeps P) (if_case (Keeps P) m.running (feed-Keeps P k m now s) s)
    act-Keeps m now retests_active s =
        yield (Keeps P) (if_case (Keeps P) m.running (retest-Keeps P k m is_retested s) s)
    act-Keeps m now retests_stale s =
        yield (Keeps P) (if_case (Keeps P) m.running (retest-Keeps P k m is_stale s) s)
    act-Keeps m now takes s = yield (Keeps P) (if_case (Keeps P) m.running (take-Keeps P k m s) s)
    act-Keeps m now (answers out) s = elim (Bool-cases (m.running && member out.ip m.working)) [
      | inl e ↦ rw (e, act) (consume-Keeps m now out (ground arith) s)
      | inr e ↦ rw (e, act) (yield (Keeps P) s)
    ]
    act-Keeps m now flushes s = yield (Keeps P) (flush-Keeps m now s)
    act-Keeps m now clears s = yield (Keeps P) (clear-Keeps P k m now s)
    act-Keeps m now (observes ip item) s = yield (Keeps P) (observe-Keeps m now ip item s)

    pub run_from-Keeps :
        (script : List (Instant × Action F)) (m : Manager F)
        → Keeps P m
        → Yields (Keeps P) (run fingerprint m script)
    unfolding run
    run_from-Keeps [] m s = yield (Keeps P) s
    run_from-Keeps ((now, a) ∷ rest) m s =
        Yields-bind (Keeps P) (Keeps P) (act fingerprint m now a) (λ m'. run fingerprint m' rest)
          (act-Keeps m now a s) (λ m' s'. run_from-Keeps rest m' s')
