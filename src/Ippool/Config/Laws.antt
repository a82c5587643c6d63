-- ===== src/Ippool/Config/Laws.antt =====
-- What `normalized` gives for any configuration.
use tmap.Base.{
  ◌≡◌, ◌↔◌, refl, Bool, true, false, ◌||◌, inl, inr, Bool-cases, clash, if◌then◌else◌, arith,
}
use tmap.Base.Int.{pos, ◌≤ℤ◌}
use tmap.Base.Float.{Float64, Ordered, le}
use tmap.Ippool.Config.{Config, normalized}

-- What `normalized` makes of a configuration: the fields that it bounds, and those that it leaves.
pub record IsBounded {F : Type 0} ⦃f : Float64 F⦄ (given c : Config F) : Type 0 where
  pub concurrency : pos 1 ≤ℤ c.max_concurrency
  pub slow : c.performance_mode ≡ true → c.max_concurrency ≤ℤ pos 6
  pub timeout : pos 1 ≤ℤ c.ping_timeout
  pub batch : pos 1 ≤ℤ c.batch_interval
  pub pool : pos 1 ≤ℤ c.max_pool_size
  pub refresh : pos 1 ≤ℤ c.mobile_refresh_interval
  pub rate : le c.max_probes_per_sec (f.lit 0 1) ≡ false
  pub same_mode : c.performance_mode ≡ given.performance_mode
  pub same_intervals :
      (c.active_interval ≡ given.active_interval) × (c.stale_interval ≡ given.stale_interval)
  pub same_statuses :
      (c.recently_after ≡ given.recently_after)
      × ((c.stale_after ≡ given.stale_after) × (c.candidate_fail_max ≡ given.candidate_fail_max))
  pub same_prefixes :
      (c.max_auto_prefix ≡ given.max_auto_prefix)
      × ((c.warn_prefix ≡ given.warn_prefix) × (c.block_prefix ≡ given.block_prefix))
  pub same_pings : c.ping_count ≡ given.ping_count
  pub same_rates :
      (c.candidate_rate ≡ given.candidate_rate) × (c.jitter_fraction ≡ given.jitter_fraction)

module _ {F : Type 0} ⦃f : Float64 F⦄ where
  -- Where 8 is above 0, a normalized configuration has at least one worker, at most six of them in
  -- performance mode, at least one place in the pool, a probe rate that is not at most 0, and a
  -- positive ping timeout, batch interval and refresh interval. Every other field is the given one:
  -- the other intervals, the thresholds of the statuses, the prefixes, the mode and the other rates.
  pub normalized-IsBounded :
      (c : Config F) → le (f.lit 8 1) (f.lit 0 1) ≡ false → IsBounded c (normalized c)
  unfolding normalized
  normalized-IsBounded c h = ground arith

four_positive :
    {F : Type 0} ⦃f : Float64 F⦄ (o : Ordered F)
    → f.lt (f.lit 0 1) (f.lit 4 1) ≡ true
    → le (f.lit 4 1) (f.lit 0 1) ≡ false
four_positive ⦃f = f⦄ o z = elim (Bool-cases (le (f.lit 4 1) (f.lit 0 1))) [
  | inl low ↦ clash _ (o.not_lt_of_le (f.lit 4 1) (f.lit 0 1) low) z
  | inr high ↦ high
]

or_left : (a b : Bool) → a ≡ true → (a || b) ≡ true
or_left a b h = ground arith

-- The rate of performance mode after its cap and then its default, and whether it is above the cap.
capped_rate :
    {F : Type 0} ⦃f : Float64 F⦄ (o : Ordered F) (r : F)
    → f.lt (f.lit 4 1) (f.lit 8 1) ≡ true
    → f.lt (f.lit 0 1) (f.lit 4 1) ≡ true
    → (f.lt (f.lit 4 1) (
          let slow = if f.lt (f.lit 4 1) r then f.lit 4 1 else r in
          if le slow (f.lit 0 1) then f.lit 8 1 else slow)
        ≡ true)
      ↔ (le r (f.lit 0 1) ≡ true)
capped_rate ⦃f = f⦄ o r h z =
    let no_cap = o.not_lt_of_le (f.lit 4 1) (f.lit 4 1) (o.le_refl (f.lit 4 1)) in
    let positive = four_positive o z in
    elim (Bool-cases (f.lt (f.lit 4 1) r)) [
      | inl above ↦
          rw (above, positive)
            (
              (λ q. clash _ no_cap q),
              (λ q. clash _ positive (o.le_trans (f.lit 4 1) r (f.lit 0 1) (or_left _ _ above) q)),
            )
      | inr within ↦ rw within (elim (Bool-cases (le r (f.lit 0 1))) [
        | inl low ↦ rw low ((λ q. refl), (λ q. h))
        | inr high ↦ rw high ((λ q. clash _ within q), (λ q. clash false refl q))
      ])
    ]

module _ {F : Type 0} ⦃f : Float64 F⦄ (o : Ordered F) where
  -- In performance mode the normalized probe rate is above the cap of 4 exactly when the given rate
  -- was at most 0, where no number is NaN and 0 < 4 < 8.
  pub performance_rate_iff :
      (c : Config F)
      → c.performance_mode ≡ true
      → f.lt (f.lit 4 1) (f.lit 8 1) ≡ true
      → f.lt (f.lit 0 1) (f.lit 4 1) ≡ true
      → (f.lt (f.lit 4 1) (normalized c).max_probes_per_sec ≡ true)
        ↔ (le c.max_probes_per_sec (f.lit 0 1) ≡ true)
  unfolding normalized
  performance_rate_iff c p h z = rw p (capped_rate o c.max_probes_per_sec h z)
