-- ===== src/Ippool/Registry/Size.antt =====
-- The number of entries, against MaxPoolSize.
use tmap.Base.{
  ℕ, suc, ◌≡◌, refl, sym, ap, ◌∙◌, false, none, some, String, [], ◌∷◌, length, arith, Option-cases,
  Bool-cases, inl, inr, if_case, ◌≢◌,
}
use tmap.Base.Int.{ℤ, pos, leb_ℤ, ◌≤ℤ◌}
use tmap.Base.Map.{Map, lookup, insert, length-insert, length-delete-le}
use tmap.Base.Float.{Float64}
use tmap.Ippool.Types.{Source, EvidenceItem, MobileFingerprint, DevicePoolEntry, Instant}
use tmap.Ippool.Evidence.{sanitize_evidence}
use tmap.Ippool.Pool.{DevicePool, ensure_candidate, record_success, record_failure}
use tmap.Ippool.Registry.{
  stamped, is_gone, add_evidence, rescore_all, refresh_fingerprints, clear_loop, clear_stale,
}
use tmap.Ippool.Registry.History.{Call, ensures, succeeds, fails, observes, refreshes, clears, step}

-- The pool is within the bound of its configuration.
abbrev pub IsWithin : {F : Type 0} → DevicePool F → Type 0
IsWithin p = pos (length p.entries) ≤ℤ p.cfg.max_pool_size

-- An answer comes from an address that the pool holds.
abbrev pub IsTracked : {F : Type 0} → DevicePool F → Call F → Type 0
IsTracked p (succeeds ip latency ttl source) = lookup ip p.entries ≢ none
IsTracked p _ = Unit

insert_known :
    {V : Type 0} (k : String) (v : V) (m : Map V)
    → lookup k m ≢ none
    → length (insert k v m) ≡ length m
insert_known k v m h = ground (arith, length-insert k v m)

length-insert_new :
    {V : Type 0} (k : String) (v : V) (m : Map V)
    → lookup k m ≡ none
    → length (insert k v m) ≡ suc (length m)
length-insert_new k v m h = ground (arith, length-insert k v m)

absent_present : {V : Type 0} {v : V} → none ≡ some v → ⊥
absent_present e = cc

room_left : (n k : ℕ) (b : ℤ) → n ≡ suc k → leb_ℤ b (pos k) ≡ false → pos n ≤ℤ b
room_left n k b e h = ground arith

over_full : (n k : ℕ) {b : ℤ} → n ≡ suc k → pos k ≡ b → pos n ≤ℤ b → ⊥
over_full n k e q h = ground arith

module _ {F : Type 0} ⦃f : Float64 F⦄ where
  ensure-IsWithin :
      (p : DevicePool F) (now : Instant) (ip : String) (source : Source)
      → IsWithin p
      → IsWithin (ensure_candidate p now ip source).0
  unfolding ensure_candidate
  ensure-IsWithin p now ip source w = elim (Option-cases (lookup ip p.entries)) [
    | inr (e, h) ↦ rw (h, ensure_candidate) w
    | inl h ↦ elim (Bool-cases (leb_ℤ p.cfg.max_pool_size (pos (length p.entries)))) [
      | inl full ↦ rw (h, full, ensure_candidate) w
      | inr room ↦
          rw (h, room, ensure_candidate)
            (room_left _ _ p.cfg.max_pool_size (length-insert_new ip _ p.entries h) room)
    ]
  ]

  success-IsWithin :
      (p : DevicePool F) (now : Instant) (ip : String) (latency : F) (ttl : ℤ) (source : Source)
      → lookup ip p.entries ≢ none
      → IsWithin p
      → IsWithin (record_success p now ip latency ttl source).0
  unfolding record_success
  success-IsWithin p now ip latency ttl source h w = omega (arith, insert_known ip _ p.entries h)

  failure-IsWithin :
      (p : DevicePool F) (now : Instant) (ip : String)
      → IsWithin p
      → IsWithin (record_failure p now ip).0
  unfolding record_failure
  failure-IsWithin p now ip w = elim (Option-cases (lookup ip p.entries)) [
    | inl h ↦ rw (h, record_failure) w
    | inr (e, h) ↦
        rw (h, record_failure)
          (omega (arith, insert_known ip _ p.entries (λ q. absent_present (sym q ∙ h))))
  ]

  clear_loop-IsWithin :
      (m : Map (DevicePoolEntry F)) (p : DevicePool F) (n : ℕ)
      → IsWithin p
      → IsWithin (clear_loop m p n).0
  unfolding clear_loop
  clear_loop-IsWithin [] p n w = w
  clear_loop-IsWithin ((ip, e) ∷ m) p n w =
      if_case {A = DevicePool F × ℕ} (λ r. IsWithin r.0) (is_gone e.status)
        (clear_loop-IsWithin m _ (suc n) (omega (arith, length-delete-le ip p.entries)))
        (clear_loop-IsWithin m p n w)

  module _ (fingerprint : DevicePoolEntry F → Instant → MobileFingerprint F) where
    evidence-IsWithin :
        (p : DevicePool F) (now : Instant) (ip : String) (item : EvidenceItem F)
        → IsWithin p
        → IsWithin (add_evidence fingerprint p now ip item).0
    unfolding add_evidence
    evidence-IsWithin p now ip item w = elim (Option-cases (lookup ip p.entries)) [
      | inl h ↦ rw (h, add_evidence) w
      | inr (e, h) ↦ elim (Option-cases (sanitize_evidence (stamped fingerprint item now))) [
        | inl r ↦ rw (h, r, add_evidence) w
        | inr (clean, r) ↦
            rw (h, r, add_evidence)
              (omega (arith, insert_known ip _ p.entries (λ q. absent_present (sym q ∙ h))))
      ]
    ]

    length-rescore_all :
        (m : Map (DevicePoolEntry F)) (now : Instant)
        → length (rescore_all fingerprint m now).0 ≡ length m
    unfolding rescore_all
    length-rescore_all [] now = refl
    length-rescore_all ((k, e) ∷ m) now = ap suc (length-rescore_all m now)

    -- Every call keeps a pool within MaxPoolSize, if an answer comes from an address that the pool
    -- holds.
    pub step-IsWithin :
        (p : DevicePool F) (now : Instant) (c : Call F)
        → IsTracked p c
        → IsWithin p
        → IsWithin (step fingerprint p (now, c))
    unfolding step refresh_fingerprints clear_stale
    step-IsWithin p now (ensures ip source) t w = ensure-IsWithin p now ip source w
    step-IsWithin p now (succeeds ip latency ttl source) t w =
        success-IsWithin p now ip latency ttl source t w
    step-IsWithin p now (fails ip) t w = failure-IsWithin p now ip w
    step-IsWithin p now (observes ip item) t w = evidence-IsWithin p now ip item w
    step-IsWithin p now refreshes t w = omega (arith, length-rescore_all p.entries now)
    step-IsWithin p now clears t w = clear_loop-IsWithin p.entries p 0 w

  -- The first answer of an address that is not in the pool adds an entry, whatever MaxPoolSize is: a
  -- pool that is full is then above it.
  pub success_overflows :
      (p : DevicePool F) (now : Instant) (ip : String) (latency : F) (ttl : ℤ) (source : Source)
      → lookup ip p.entries ≡ none
      → pos (length p.entries) ≡ p.cfg.max_pool_size
      → ¬ IsWithin (record_success p now ip latency ttl source).0
  unfolding record_success
  success_overflows p now ip latency ttl source h full w =
      over_full _ _ (length-insert_new ip _ p.entries h) full w
