-- ===== src/Ippool/Registry/History.antt =====
-- Any sequence of calls of the pool, and the invariant that they keep.
use tmap.Base.{List, [], ◌∷◌, String}
use tmap.Base.Int.{ℤ}
use tmap.Base.Float.{Float64}
use tmap.Ippool.Types.{Source, EvidenceItem, MobileFingerprint, DevicePoolEntry, Instant}
use tmap.Ippool.Config.{Config}
use tmap.Ippool.Pool.{DevicePool, new_device_pool, ensure_candidate, record_success, record_failure}
use tmap.Ippool.Registry.{add_evidence, refresh_fingerprints, clear_stale}
use tmap.Ippool.Registry.Sound.{
  IsValid, new-IsValid, ensure-IsValid, evidence-IsValid, refresh-IsValid, success-IsValid,
  failure-IsValid, clear_loop-IsValid,
}

pub data Call (F : Type 0) : Type 0 where
  ensures : String → Source → Call F
  succeeds : String → F → ℤ → Source → Call F
  fails : String → Call F
  observes : String → EvidenceItem F → Call F
  refreshes clears : Call F

module _ {F : Type 0} ⦃f : Float64 F⦄ where
  module _ (fingerprint : DevicePoolEntry F → Instant → MobileFingerprint F) where
    -- One call at a time.
    unfoldable pub step : DevicePool F → Instant × Call F → DevicePool F
    step p (now, ensures ip source) = (ensure_candidate p now ip source).0
    step p (now, succeeds ip latency ttl source) = (record_success p now ip latency ttl source).0
    step p (now, fails ip) = (record_failure p now ip).0
    step p (now, observes ip item) = (add_evidence fingerprint p now ip item).0
    step p (now, refreshes) = (refresh_fingerprints fingerprint p now).0
    step p (now, clears) = (clear_stale p).0

    unfoldable pub run : DevicePool F → List (Instant × Call F) → DevicePool F
    run p [] = p
    run p (c ∷ cs) = run (step p c) cs

    step-IsValid : (p : DevicePool F) (c : Instant × Call F) → IsValid p → IsValid (step p c)
    unfolding step clear_stale
    step-IsValid p (now, ensures ip source) v = ensure-IsValid p now ip source v
    step-IsValid p (now, succeeds ip latency ttl source) v =
        success-IsValid p now ip latency ttl source v
    step-IsValid p (now, fails ip) v = failure-IsValid p now ip v
    step-IsValid p (now, observes ip item) v = evidence-IsValid fingerprint p now ip item v
    step-IsValid p (now, refreshes) v = refresh-IsValid fingerprint p now v
    step-IsValid p (now, clears) v = clear_loop-IsValid p.entries p 0 v

    run_from-IsValid :
        (p : DevicePool F) (cs : List (Instant × Call F)) → IsValid p → IsValid (run p cs)
    unfolding run
    run_from-IsValid p [] v = v
    run_from-IsValid p (c ∷ cs) v = run_from-IsValid (step p c) cs (step-IsValid p c v)

    -- After any calls, in any order, the addresses of the pool are distinct, each entry has the
    -- address and the id of its key, and an entry is active, recently seen or stale exactly when
    -- its device has answered a probe; a candidate or an unreachable one never has.
    pub run-IsValid :
        (cfg : Config F) (cs : List (Instant × Call F)) → IsValid (run (new_device_pool cfg) cs)
    run-IsValid cfg cs = run_from-IsValid (new_device_pool cfg) cs (new-IsValid cfg)
