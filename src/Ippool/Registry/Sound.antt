-- ===== src/Ippool/Registry/Sound.antt =====
-- What every entry of the pool satisfies, and that each method keeps it.
use tmap.Base.{
  ℕ, ◌<◌, ◌≡◌, refl, Bool, Option, none, some, [], ◌∷◌, String, ◌<>◌, arith, Option-cases,
  Bool-cases, if_case, suc, length, inl, inr, if◌then◌else◌,
}
use tmap.Base.Int.{ℤ, pos, leb_ℤ}
use tmap.Base.Map.{
  Map, lookup, insert, Keyed, insert-Keyed, delete-Keyed, Each, Each-lookup, Each-insert,
  Each-delete,
}
use tmap.Base.Float.{Float64}
use tmap.Ippool.Types.{
  DeviceStatus, candidate, unreachable, Source, EvidenceItem, MobileFingerprint, DevicePoolEntry,
  Instant,
}
use tmap.Ippool.Config.{Config}
use tmap.Ippool.Evidence.{sanitize_evidence, merge_evidence}
use tmap.Ippool.Mobile.{apply_mobile_hints}
use tmap.Ippool.Pool.{
  DevicePool, new_device_pool, new_entry, respond, fail, entry_or_new, ensure_candidate,
  record_success, record_failure,
}
use tmap.Ippool.Registry.{
  stamped, is_gone, apply_identity, rescore, absorb, add_evidence, rescore_all,
  refresh_fingerprints, clear_loop,
}

-- A device has answered exactly when it is active, recently seen or stale.
abbrev pub HasAnswered : DeviceStatus → ℕ → Type 0
HasAnswered candidate n = n ≡ 0
HasAnswered unreachable n = n ≡ 0
HasAnswered _ n = 0 < n

abbrev pub IsSound : {F : Type 0} → String → DevicePoolEntry F → Type 0
IsSound k e = (e.ip ≡ k) × (e.id ≡ "ip-" <> k) × HasAnswered e.status e.response_count

pub record IsValid {F : Type 0} (p : DevicePool F) : Type 0 where
  pub keyed : Keyed p.entries
  pub sound : Each IsSound p.entries

module _ {F : Type 0} ⦃f : Float64 F⦄ where
  pub new-IsValid : (cfg : Config F) → IsValid (new_device_pool cfg)
  unfolding new_device_pool
  new-IsValid cfg = record { keyed = tt; sound = tt }

  put-IsValid :
      (p : DevicePool F) (k : String) (e : DevicePoolEntry F) (m : Map ℕ)
      → IsSound k e
      → IsValid p
      → IsValid (record p { entries = insert k e p.entries; consecutive_fail = m })
  put-IsValid p k e m s v = record {
    keyed = insert-Keyed k e p.entries v.keyed;
    sound = Each-insert IsSound k e p.entries s v.sound;
  }

  found-IsSound :
      (p : DevicePool F) (k : String) {e : DevicePoolEntry F}
      → IsValid p
      → lookup k p.entries ≡ some e
      → IsSound k e
  found-IsSound p k v h = Each-lookup IsSound k p.entries v.sound h

  pub ensure-IsValid :
      (p : DevicePool F) (now : Instant) (ip : String) (source : Source)
      → IsValid p
      → IsValid (ensure_candidate p now ip source).0
  unfolding ensure_candidate
  ensure-IsValid p now ip source v = elim (Option-cases (lookup ip p.entries)) [
    | inr (e, h) ↦ rw (h, ensure_candidate) v
    | inl h ↦ elim (Bool-cases (leb_ℤ p.cfg.max_pool_size (pos (length p.entries)))) [
      | inl full ↦ rw (h, full, ensure_candidate) v
      | inr room ↦
          rw (h, room, ensure_candidate)
            (put-IsValid p ip (new_entry ip source now.rfc3339) p.consecutive_fail
              (unfold new_entry in (refl, refl, refl)) v)
    ]
  ]

  respond-IsSound :
      (k : String) (e : DevicePoolEntry F) (now : Instant) (latency : F) (ttl : ℤ)
      → IsSound k e
      → IsSound k (respond e now latency ttl)
  unfolding respond
  respond-IsSound k e now latency ttl s = (s.0, s.1, omega arith)

  fail-IsSound :
      (k : String) (cfg : Config F) (e : DevicePoolEntry F) (now : Instant) (n : ℕ)
      → IsSound k e
      → IsSound k (fail cfg e now n)
  unfolding fail
  fail-IsSound k cfg e now n s = ground arith

  identity-IsSound :
      (k : String) (e : DevicePoolEntry F) (item : EvidenceItem F)
      → IsSound k e
      → IsSound k (apply_identity e item)
  unfolding apply_identity
  identity-IsSound k e item s = ground arith

  module _ (fingerprint : DevicePoolEntry F → Instant → MobileFingerprint F) where
    rescore-IsSound :
        (k : String) (e : DevicePoolEntry F) (now : Instant)
        → IsSound k e
        → IsSound k (rescore fingerprint e now).0
    unfolding rescore apply_mobile_hints
    rescore-IsSound k e now s = ground arith

    absorb-IsSound :
        (k : String) (e : DevicePoolEntry F) (item : EvidenceItem F) (now : Instant)
        → IsSound k e
        → IsSound k (absorb fingerprint e item now).0
    unfolding absorb
    absorb-IsSound k e item now s =
        let merged = merge_evidence e.evidence item in
        let e1 = record e { evidence = merged.0 } in
        let known : IsSound k (if merged.1 then apply_identity e1 item else e1) =
          if_case (IsSound k) merged.1 (identity-IsSound k e1 item s) s in
        if_case {A = DevicePoolEntry F × Bool × Bool} (λ r. IsSound k r.0) _
          (rescore-IsSound k _ now known) known

    pub evidence-IsValid :
        (p : DevicePool F) (now : Instant) (ip : String) (item : EvidenceItem F)
        → IsValid p
        → IsValid (add_evidence fingerprint p now ip item).0
    unfolding add_evidence
    evidence-IsValid p now ip item v = elim (Option-cases (lookup ip p.entries)) [
      | inl h ↦ rw (h, add_evidence) v
      | inr (e, h) ↦ elim (Option-cases (sanitize_evidence (stamped fingerprint item now))) [
        | inl r ↦ rw (h, r, add_evidence) v
        | inr (clean, r) ↦
            rw (h, r, add_evidence)
              (put-IsValid p ip _ p.consecutive_fail
                (absorb-IsSound ip e clean now (found-IsSound p ip v h)) v)
      ]
    ]

    rescore_all-lookup :
        (m : Map (DevicePoolEntry F)) (now : Instant) (k : String)
        → lookup k m ≡ none
        → lookup k (rescore_all fingerprint m now).0 ≡ none
    unfolding rescore_all lookup
    rescore_all-lookup [] now k h = refl
    rescore_all-lookup ((j, e) ∷ m) now k h = ground (arith, rescore_all-lookup m now k)

    rescore_all-Keyed :
        (m : Map (DevicePoolEntry F)) (now : Instant)
        → Keyed m
        → Keyed (rescore_all fingerprint m now).0
    unfolding rescore_all
    rescore_all-Keyed [] now h = tt
    rescore_all-Keyed ((j, e) ∷ m) now h =
        (rescore_all-lookup m now j h.0, rescore_all-Keyed m now h.1)

    rescore_all-Each :
        (m : Map (DevicePoolEntry F)) (now : Instant)
        → Each IsSound m
        → Each IsSound (rescore_all fingerprint m now).0
    unfolding rescore_all
    rescore_all-Each [] now h = tt
    rescore_all-Each ((j, e) ∷ m) now h = (rescore-IsSound j e now h.0, rescore_all-Each m now h.1)

    pub refresh-IsValid :
        (p : DevicePool F) (now : Instant)
        → IsValid p
        → IsValid (refresh_fingerprints fingerprint p now).0
    unfolding refresh_fingerprints
    refresh-IsValid p now v = record {
      keyed = rescore_all-Keyed p.entries now v.keyed;
      sound = rescore_all-Each p.entries now v.sound;
    }

  pub success-IsValid :
      (p : DevicePool F) (now : Instant) (ip : String) (latency : F) (ttl : ℤ) (source : Source)
      → IsValid p
      → IsValid (record_success p now ip latency ttl source).0
  unfolding record_success
  success-IsValid p now ip latency ttl source v =
      put-IsValid p ip _ _ (respond-IsSound ip _ now latency ttl (base (lookup ip p.entries) refl))
        v
    where
      base :
          (o : Option (DevicePoolEntry F))
          → lookup ip p.entries ≡ o
          → IsSound ip (entry_or_new o (new_entry ip source now.rfc3339))
      base none h = unfold new_entry in (refl, refl, refl)
      base (some e) h = found-IsSound p ip v h

  pub failure-IsValid :
      (p : DevicePool F) (now : Instant) (ip : String)
      → IsValid p
      → IsValid (record_failure p now ip).0
  unfolding record_failure
  failure-IsValid p now ip v = elim (Option-cases (lookup ip p.entries)) [
    | inl h ↦ rw (h, record_failure) v
    | inr (e, h) ↦
        rw (h, record_failure)
          (put-IsValid p ip _ _ (fail-IsSound ip p.cfg e now _ (found-IsSound p ip v h)) v)
  ]

  pub clear_loop-IsValid :
      (m : Map (DevicePoolEntry F)) (p : DevicePool F) (n : ℕ)
      → IsValid p
      → IsValid (clear_loop m p n).0
  unfolding clear_loop
  clear_loop-IsValid [] p n v = v
  clear_loop-IsValid ((ip, e) ∷ m) p n v =
      if_case {A = DevicePool F × ℕ} (λ r. IsValid r.0) (is_gone e.status)
        (clear_loop-IsValid m _ (suc n) (record {
          keyed = delete-Keyed ip p.entries v.keyed;
          sound = Each-delete IsSound ip p.entries v.sound;
        }))
        (clear_loop-IsValid m p n v)
