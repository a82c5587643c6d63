-- ===== src/Ippool/Pool/Streak.antt =====
-- Failures in a row, from the last answer of a device or from its entry as a candidate.
use tmap.Base.{
  ℕ, zero, suc, ◌<◌, ◌≡◌, ap, subst, ◌∙◌, some, String, ltb, ◌==◌, if◌then◌else◌, arith,
}
use tmap.Base.Int.{pos}
use tmap.Base.Map.{lookup, lookup-insert_self}
use tmap.Base.Float.{Float64}
use tmap.Ippool.Types.{
  DeviceStatus, candidate, active, recently_seen, stale, unreachable, DevicePoolEntry, Instant,
}
use tmap.Ippool.Config.{Config}
use tmap.Ippool.Pool.{DevicePool, count_or_zero, fail, after_failure, record_failure}

-- Where a device stands after `n` failures in a row, by the two thresholds.
abbrev pub after_answer : ℕ → ℕ → ℕ → DeviceStatus
after_answer recently gone n =
    if ltb n recently then active else if ltb n gone then recently_seen else stale

abbrev pub after_discovery : ℕ → ℕ → DeviceStatus
after_discovery limit n = if ltb n limit then candidate else unreachable

at_answer : (recently gone : ℕ) → 0 < recently → active ≡ after_answer recently gone 0
at_answer recently gone z = ground arith

at_discovery : (limit : ℕ) → 0 < limit → candidate ≡ after_discovery limit 0
at_discovery limit z = ground arith

module _ {F : Type 0} ⦃f : Float64 F⦄ where
  answer_next :
      (cfg : Config F) (recently gone n : ℕ)
      → cfg.recently_after ≡ pos recently
      → cfg.stale_after ≡ pos gone
      → recently < gone
      → (after_failure cfg (after_answer recently gone n) (suc n)).0
        ≡ after_answer recently gone (suc n)
  unfolding after_failure
  answer_next cfg recently gone n r g l = ground arith

  discovery_next :
      (cfg : Config F) (limit n : ℕ)
      → cfg.candidate_fail_max ≡ pos limit
      → (after_failure cfg (after_discovery limit n) (suc n)).0 ≡ after_discovery limit (suc n)
  unfolding after_failure
  discovery_next cfg limit n r = ground arith

  -- The pool after `n` failures of one address, the first of them at `times 0`.
  unfoldable pub failures : (ℕ → Instant) → ℕ → DevicePool F → String → DevicePool F
  failures times zero p ip = p
  failures times (suc n) p ip = (record_failure (failures times n p ip) (times n) ip).0

  -- The status and the count of an address, and the configuration.
  abbrev pub Stands : DevicePool F → String → Config F → DeviceStatus → ℕ → Type 0
  Stands p ip cfg s n =
      (e : DevicePoolEntry F) × (lookup ip p.entries ≡ some e)
      × (e.status ≡ s)
      × (count_or_zero (lookup ip p.consecutive_fail) ≡ n)
      × (p.cfg ≡ cfg)

  failure-Stands :
      (p : DevicePool F) (now : Instant) (ip : String) (cfg : Config F) (s : DeviceStatus) (n : ℕ)
      → Stands p ip cfg s n
      → Stands (record_failure p now ip).0 ip cfg (after_failure cfg s (suc n)).0 (suc n)
  unfolding record_failure fail
  failure-Stands p now ip cfg s n (e, h, st, c, q) =
      rw (h, record_failure)
        (
          fail p.cfg e now (suc (count_or_zero (lookup ip p.consecutive_fail))),
          lookup-insert_self ip _ p.entries,
          rw (q, st, c),
          ap count_or_zero (lookup-insert_self ip _ p.consecutive_fail) ∙ ap suc c,
          q,
        )

  failures-Stands :
      (spec : ℕ → DeviceStatus) (times : ℕ → Instant) (p : DevicePool F) (ip : String)
      (cfg : Config F)
      → ((n : ℕ) → (after_failure cfg (spec n) (suc n)).0 ≡ spec (suc n))
      → (n : ℕ) → Stands p ip cfg (spec 0) 0
      → Stands (failures times n p ip) ip cfg (spec n) n
  unfolding failures
  failures-Stands spec times p ip cfg next zero s = s
  failures-Stands spec times p ip cfg next (suc n) s =
      subst (λ t. Stands (failures times (suc n) p ip) ip cfg t (suc n)) (next n)
        (failure-Stands (failures times n p ip) (times n) ip cfg (spec n) n
          (failures-Stands spec times p ip cfg next n s))

  -- An active device that has just answered is active for fewer than RecentlyAfter failures in a row,
  -- then recently seen for fewer than StaleAfter, and stale from then on, where RecentlyAfter is
  -- positive and below StaleAfter.
  pub answer_streak :
      (times : ℕ → Instant) (p : DevicePool F) (ip : String) (cfg : Config F) (recently gone n : ℕ)
      → cfg.recently_after ≡ pos recently
      → cfg.stale_after ≡ pos gone
      → 0 < recently
      → recently < gone
      → Stands p ip cfg active 0
      → Stands (failures times n p ip) ip cfg (after_answer recently gone n) n
  answer_streak times p ip cfg recently gone n r g z l s =
      failures-Stands (after_answer recently gone) times p ip cfg
        (λ k. answer_next cfg recently gone k r g l) n
        (subst (λ t. Stands p ip cfg t 0) (at_answer recently gone z) s)

  -- A candidate with no failure counted is one for fewer than CandidateFailMax failures in a row,
  -- and unreachable from then on, where CandidateFailMax is positive.
  pub discovery_streak :
      (times : ℕ → Instant) (p : DevicePool F) (ip : String) (cfg : Config F) (limit n : ℕ)
      → cfg.candidate_fail_max ≡ pos limit
      → 0 < limit
      → Stands p ip cfg candidate 0
      → Stands (failures times n p ip) ip cfg (after_discovery limit n) n
  discovery_streak times p ip cfg limit n r z s =
      failures-Stands (after_discovery limit) times p ip cfg (λ k. discovery_next cfg limit k r) n
        (subst (λ t. Stands p ip cfg t 0) (at_discovery limit z) s)

  stale_step :
      (cfg : Config F) (recently gone n : ℕ)
      → cfg.recently_after ≡ pos recently
      → cfg.stale_after ≡ pos gone
      → recently < gone
      → (after_failure cfg (after_answer recently gone n) (suc n)).1 ≡ (suc n == gone)
  unfolding after_failure
  stale_step cfg recently gone n r g l = ground arith

  reported :
      (p : DevicePool F) (now : Instant) (ip : String) (cfg : Config F) (s : DeviceStatus) (n : ℕ)
      → Stands p ip cfg s n
      → (record_failure p now ip).2 ≡ (after_failure cfg s (suc n)).1
  unfolding record_failure
  reported p now ip cfg s n (e, h, st, c, q) = rw (h, record_failure) (rw (q, st, c))

  -- After the last answer of a device, the failure with the number StaleAfter is the one that reports
  -- it stale, and no other, where RecentlyAfter is positive and below StaleAfter.
  stale_reported_once :
      (times : ℕ → Instant) (now : Instant) (p : DevicePool F) (ip : String) (cfg : Config F)
      (recently gone n : ℕ)
      → cfg.recently_after ≡ pos recently
      → cfg.stale_after ≡ pos gone
      → 0 < recently
      → recently < gone
      → Stands p ip cfg active 0
      → (record_failure (failures times n p ip) now ip).2 ≡ (suc n == gone)
  stale_reported_once times now p ip cfg recently gone n r g z l s =
      reported (failures times n p ip) now ip cfg (after_answer recently gone n) n
        (answer_streak times p ip cfg recently gone n r g z l s)
      ∙ stale_step cfg recently gone n r g l
