-- ===== src/Ippool/Config.antt =====
-- `Config`, `DefaultConfig` and `normalized` of apps/desktop/ippool/types.go. A `time.Duration` is
-- its number of nanoseconds.
pub mod Laws
use tmap.Base.{ℕ, ◌*◌, ◌&&◌, Bool, true, false, if◌then◌else◌}
use tmap.Base.Int.{ℤ, pos, leb_ℤ, ltb_ℤ}
use tmap.Base.Float.{Float64, le}

pub record Config (F : Type 0) : Type 0 where
  pub max_concurrency : ℤ
  pub max_probes_per_sec : F
  pub ping_timeout : ℤ
  pub ping_count : ℤ
  pub active_interval : ℤ
  pub stale_interval : ℤ
  pub candidate_rate : F
  pub batch_interval : ℤ
  pub jitter_fraction : F
  pub recently_after : ℤ
  pub stale_after : ℤ
  pub candidate_fail_max : ℤ
  pub max_auto_prefix : ℤ
  pub warn_prefix : ℤ
  pub block_prefix : ℤ
  pub max_pool_size : ℤ
  pub performance_mode : Bool
  pub mobile_refresh_interval : ℤ

abbrev pub millisecond : ℕ
millisecond = 1000000

abbrev pub second : ℕ
second = 1000 * millisecond

abbrev pub minute : ℕ
minute = 60 * second

-- The zero or negative value of a field is replaced.
or_default : ℤ → ℕ → ℤ
or_default n d = if leb_ℤ n (pos 0) then pos d else n

module _ {F : Type 0} ⦃f : Float64 F⦄ where
  unfoldable pub default_config : Config F
  default_config = record {
    max_concurrency = pos 16;
    max_probes_per_sec = f.lit 8 1;
    ping_timeout = pos second;
    ping_count = pos 1;
    active_interval = pos (20 * second);
    stale_interval = pos (3 * minute);
    candidate_rate = f.lit 4 1;
    batch_interval = pos (750 * millisecond);
    jitter_fraction = f.lit 25 100;
    recently_after = pos 1;
    stale_after = pos 3;
    candidate_fail_max = pos 2;
    max_auto_prefix = pos 24;
    warn_prefix = pos 23;
    block_prefix = pos 16;
    max_pool_size = pos 4096;
    performance_mode = false;
    mobile_refresh_interval = pos minute;
  }

  -- The clamp of performance mode, which stands before the default of the probe rate.
  slow_down : Config F → Config F
  slow_down c =
      if c.performance_mode
      then record c {
        max_concurrency = if ltb_ℤ (pos 6) c.max_concurrency then pos 6 else c.max_concurrency;
        max_probes_per_sec =
            if f.lt (f.lit 4 1) c.max_probes_per_sec then f.lit 4 1 else c.max_probes_per_sec;
      }
      else c

  unfoldable pub normalized : Config F → Config F
  unfolding or_default slow_down
  normalized c =
      let slow = slow_down (record c { max_concurrency = or_default c.max_concurrency 16 }) in
      record slow {
        max_probes_per_sec =
            if le slow.max_probes_per_sec (f.lit 0 1) then f.lit 8 1 else slow.max_probes_per_sec;
        ping_timeout = or_default c.ping_timeout second;
        batch_interval = or_default c.batch_interval (750 * millisecond);
        max_pool_size = or_default c.max_pool_size 4096;
        mobile_refresh_interval = or_default c.mobile_refresh_interval minute;
      }
