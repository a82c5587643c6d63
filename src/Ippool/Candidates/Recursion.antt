-- ===== src/Ippool/Candidates/Recursion.antt =====
-- When `GenerateFromSeed` returns. It calls itself, through `boundedLargeSubnet`, on the /24 of the
-- seed or else on the network that it was given.
use tmap.Base.{
  ℕ, zero, suc, ◌≡◌, refl, sym, true, false, subst, List, ◌-◌, String, length, All, ◌<◌, ◌≤◌, ◌+◌,
  ◌^◌, if◌then◌else◌, arith,
}
use tmap.Base.Int.{ℤ, pos, negsuc, ltb_ℤ, leb_ℤ, ◌≤ℤ◌}
use tmap.Net.Cidr.{IpNet, clear}
use tmap.Ippool.Guard.{ScopeGuard, allow_ip}
use tmap.Net.Ipv4.{format_ipv4}
use tmap.Base.Sets.{IsUnique}
use tmap.Ippool.Candidates.Hosts.{inside}
use tmap.Ippool.Candidates.Output.{last_of, sweep_sound, length-sweep}
use tmap.Ippool.Candidates.{returned, running, contains_host, generate, sweep}

abbrev pub local_net : ℕ → IpNet
local_net seed = record { base = clear seed 8; ones = 24; bits = 32 }

-- The limit of a subnet that is not swept in full: 64 where none is given.
abbrev pub large_limit : ℤ → ℤ
large_limit limit = if leb_ℤ limit (pos 0) then pos 64 else limit

-- A network of fewer prefix bits than MaxAutoPrefix that does not contain the seed's /24 is never
-- left: the call does not return, whatever its fuel.
pub generate_diverges :
    (fuel : ℕ) (g : ScopeGuard) (seed : ℕ) (n : IpNet) (limit : ℤ)
    → ltb_ℤ (pos n.ones) g.max_auto_prefix ≡ true
    → contains_host n (clear seed 8) ≡ false
    → generate fuel g seed n limit ≡ running
unfolding generate
generate_diverges zero g seed n limit l c = refl
generate_diverges (suc fuel) g seed n limit l c =
    ground (arith, generate_diverges fuel g seed n (large_limit limit) l c)

local_swept :
    (g : ScopeGuard) → g.max_auto_prefix ≤ℤ pos 24 → ltb_ℤ (pos 24) g.max_auto_prefix ≡ false
local_swept g m = ground arith

-- What a list of a larger network keeps to: at most so many texts as the limit, or 64 where none is
-- given, no text twice, each that of an address in the seed's /24, but not its first or its last, which the guard
-- allows.
pub record IsLocalSweep (g : ScopeGuard) (seed : ℕ) (limit : ℤ) (out : List String) : Type 0 where
  pub few : pos (length out) ≤ℤ large_limit limit
  pub unique : IsUnique out
  pub local :
      All
        (λ s.
          (h : ℕ) × (s ≡ format_ipv4 h)
          × (inside (clear seed 8) (last_of (local_net seed)) h ≡ true)
          × ((allow_ip g s).0 ≡ true))
        out

large_limit_lem : (k : ℕ) → large_limit (pos (suc k)) ≡ pos (suc k)
large_limit_lem k = ground arith

large_limit_negative : (k : ℕ) → large_limit (negsuc k) ≡ pos 64
large_limit_negative k = ground arith

module _ (g : ScopeGuard) (seed : ℕ) (below : seed < 2 ^ 32) where
  local_fits : (local_net seed).base + 2 ^ (32 - (local_net seed).ones) ≤ 2 ^ 32
  local_fits = omega arith

  length-local :
      (limit : ℤ)
      → pos (length (sweep g seed (local_net seed) (large_limit limit))) ≤ℤ large_limit limit
  length-local (pos zero) =
      omega (arith, length-sweep g seed (local_net seed) local_fits 64 (omega arith))
  length-local (pos (suc k)) =
      subst (λ l. pos (length (sweep g seed (local_net seed) l)) ≤ℤ l) (sym (large_limit_lem k))
        (omega (arith, length-sweep g seed (local_net seed) local_fits (suc k) (omega arith)))
  length-local (negsuc k) =
      subst (λ l. pos (length (sweep g seed (local_net seed) l)) ≤ℤ l)
        (sym (large_limit_negative k))
        (omega (arith, length-sweep g seed (local_net seed) local_fits 64 (omega arith)))

sweep-IsLocalSweep :
    (g : ScopeGuard) (seed : ℕ) (limit : ℤ)
    → seed < 2 ^ 32
    → IsLocalSweep g seed limit (sweep g seed (local_net seed) (large_limit limit))
sweep-IsLocalSweep g seed limit h = record {
  few = length-local g seed h limit;
  unique = (sweep_sound g seed (local_net seed) (local_fits g seed h) (large_limit limit)).0;
  local = (sweep_sound g seed (local_net seed) (local_fits g seed h) (large_limit limit)).1;
}

-- Where MaxAutoPrefix is at most 24 and a network that is larger than it allows contains the /24 of
-- a 32-bit seed, two calls are enough: a list is returned, without a text twice and at most as long
-- as the limit, or as 64 where none is given, and each of its texts is that of an address of the
-- seed's /24, but not of its first or its last, that the guard allows.
pub generate-IsLocalSweep :
    (fuel : ℕ) (g : ScopeGuard) (seed : ℕ) (n : IpNet) (limit : ℤ)
    → g.max_auto_prefix ≤ℤ pos 24
    → ltb_ℤ (pos n.ones) g.max_auto_prefix ≡ true
    → contains_host n (clear seed 8) ≡ true
    → seed < 2 ^ 32
    → (out : List String) × (generate (suc (suc fuel)) g seed n limit ≡ returned out)
      × IsLocalSweep g seed limit out
unfolding generate
generate-IsLocalSweep fuel g seed n limit m large near below = (
  sweep g seed (local_net seed) (large_limit limit),
  rw (large, near, local_swept g m) refl,
  sweep-IsLocalSweep g seed limit below,
)
