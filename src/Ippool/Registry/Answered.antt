-- ===== src/Ippool/Registry/Answered.antt =====
-- The devices of the pool that have answered, and a property of their addresses that each method
-- keeps.
use tmap.Base.{
  ℕ, suc, ◌≡◌, refl, sym, ap, ◌∙◌, Bool, true, [], ◌∷◌, String, arith, Option-cases, Bool-cases,
  if_case, inl, inr, length, if◌then◌else◌, All,
}
use tmap.Base.Int.{ℤ, pos, leb_ℤ}
use tmap.Base.Map.{Map, lookup, Each, Each-lookup, Each-insert, Each-delete}
use tmap.Base.Float.{Float64}
use tmap.Ippool.Types.{
  DeviceStatus, Source, EvidenceItem, MobileFingerprint, DevicePoolEntry, Instant,
}
use tmap.Ippool.Config.{Config}
use tmap.Ippool.Evidence.{sanitize_evidence, merge_evidence}
use tmap.Ippool.Pool.{
  DevicePool, new_entry, fail, after_failure, ensure_candidate, record_success, record_failure,
}
use tmap.Ippool.Mobile.{apply_mobile_hints}
use tmap.Ippool.Registry.{
  is_shown, is_gone, stamped, apply_identity, rescore, absorb, add_evidence, rescore_all,
  ips_by_status, refresh_fingerprints, clear_loop,
}

module _ {F : Type 0} (Q : String → Type 0) where
  -- The address of an entry whose device has answered satisfies `Q`.
  abbrev pub Answered : String → DevicePoolEntry F → Type 0
  Answered k e = is_shown e.status ≡ true → Q k

  abbrev pub AllAnswered : DevicePool F → Type 0
  AllAnswered p = Each Answered p.entries

  module _ ⦃f : Float64 F⦄ where
    pub ensure-AllAnswered :
        (p : DevicePool F) (now : Instant) (ip : String) (source : Source)
        → AllAnswered p
        → AllAnswered (ensure_candidate p now ip source).0
    unfolding ensure_candidate
    ensure-AllAnswered p now ip source h = elim (Option-cases (lookup ip p.entries)) [
      | inr (e, q) ↦ rw (q, ensure_candidate) h
      | inl q ↦ elim (Bool-cases (leb_ℤ p.cfg.max_pool_size (pos (length p.entries)))) [
        | inl full ↦ rw (q, full, ensure_candidate) h
        | inr room ↦
            rw (q, room, ensure_candidate)
              (Each-insert Answered ip _ p.entries (unfold new_entry in λ c. cc) h)
      ]
    ]

    pub success-AllAnswered :
        (p : DevicePool F) (now : Instant) (ip : String) (latency : F) (ttl : ℤ) (source : Source)
        → Q ip
        → AllAnswered p
        → AllAnswered (record_success p now ip latency ttl source).0
    unfolding record_success
    success-AllAnswered p now ip latency ttl source q h =
        Each-insert Answered ip _ p.entries (λ s. q) h

    -- A failure makes no device shown that was not.
    fail_shown :
        (cfg : Config F) (e : DevicePoolEntry F) (now : Instant) (n : ℕ)
        → is_shown (fail cfg e now n).status ≡ true
        → is_shown e.status ≡ true
    unfolding fail after_failure
    fail_shown cfg e now n h = ground arith

    pub failure-AllAnswered :
        (p : DevicePool F) (now : Instant) (ip : String)
        → AllAnswered p
        → AllAnswered (record_failure p now ip).0
    unfolding record_failure
    failure-AllAnswered p now ip h = elim (Option-cases (lookup ip p.entries)) [
      | inl q ↦ rw (q, record_failure) h
      | inr (e, q) ↦
          rw (q, record_failure)
            (Each-insert Answered ip _ p.entries
              (λ s. Each-lookup Answered ip p.entries h q (fail_shown p.cfg e now _ s)) h)
    ]

    pub clear_loop-AllAnswered :
        (m : Map (DevicePoolEntry F)) (p : DevicePool F) (n : ℕ)
        → AllAnswered p
        → AllAnswered (clear_loop m p n).0
    unfolding clear_loop
    clear_loop-AllAnswered [] p n h = h
    clear_loop-AllAnswered ((ip, e) ∷ m) p n h =
        if_case {A = DevicePool F × ℕ} (λ r. AllAnswered r.0) (is_gone e.status)
          (clear_loop-AllAnswered m _ (suc n) (Each-delete Answered ip p.entries h))
          (clear_loop-AllAnswered m p n h)

    identity-status :
        (e : DevicePoolEntry F) (item : EvidenceItem F) → (apply_identity e item).status ≡ e.status
    unfolding apply_identity
    identity-status e item = ground arith

    module _ (fingerprint : DevicePoolEntry F → Instant → MobileFingerprint F) where
      rescore-status :
          (e : DevicePoolEntry F) (now : Instant) → (rescore fingerprint e now).0.status ≡ e.status
      unfolding rescore apply_mobile_hints
      rescore-status e now = ground arith

      absorb-status :
          (e : DevicePoolEntry F) (item : EvidenceItem F) (now : Instant)
          → (absorb fingerprint e item now).0.status ≡ e.status
      unfolding absorb
      absorb-status e item now =
          let merged = merge_evidence e.evidence item in
          let e1 = record e { evidence = merged.0 } in
          let known : ((if merged.1 then apply_identity e1 item else e1).status ≡ e.status) =
            if_case (λ (r : DevicePoolEntry F). r.status ≡ e.status) merged.1
              (identity-status e1 item) refl in
          if_case {A = DevicePoolEntry F × Bool × Bool} (λ r. r.0.status ≡ e.status) _
            (rescore-status _ now ∙ known) known

      pub evidence-AllAnswered :
          (p : DevicePool F) (now : Instant) (ip : String) (item : EvidenceItem F)
          → AllAnswered p
          → AllAnswered (add_evidence fingerprint p now ip item).0
      unfolding add_evidence
      evidence-AllAnswered p now ip item h = elim (Option-cases (lookup ip p.entries)) [
        | inl q ↦ rw (q, add_evidence) h
        | inr (e, q) ↦ elim (Option-cases (sanitize_evidence (stamped fingerprint item now))) [
          | inl r ↦ rw (q, r, add_evidence) h
          | inr (clean, r) ↦
              rw (q, r, add_evidence)
                (Each-insert Answered ip _ p.entries
                  (λ s.
                    Each-lookup Answered ip p.entries h q
                      (ap is_shown (sym (absorb-status e clean now)) ∙ s))
                  h)
        ]
      ]

      rescore_all-Each :
          (m : Map (DevicePoolEntry F)) (now : Instant)
          → Each Answered m
          → Each Answered (rescore_all fingerprint m now).0
      unfolding rescore_all
      rescore_all-Each [] now h = tt
      rescore_all-Each ((j, e) ∷ m) now h =
          (λ s. h.0 (ap is_shown (sym (rescore-status e now)) ∙ s), rescore_all-Each m now h.1)

      pub refresh-AllAnswered :
          (p : DevicePool F) (now : Instant)
          → AllAnswered p
          → AllAnswered (refresh_fingerprints fingerprint p now).0
      unfolding refresh_fingerprints
      refresh-AllAnswered p now h = rescore_all-Each p.entries now h

    -- The addresses that a retest takes up, if it asks for such devices only.
    pub ips-All :
        (want : DeviceStatus → Bool) (m : Map (DevicePoolEntry F))
        → ((s : DeviceStatus) → want s ≡ true → is_shown s ≡ true)
        → Each Answered m
        → All Q (ips_by_status want m)
    unfolding ips_by_status
    ips-All want [] w h = tt
    ips-All want ((k, e) ∷ m) w h = ground (arith, h.0, w e.status, ips-All want m w h.1)
