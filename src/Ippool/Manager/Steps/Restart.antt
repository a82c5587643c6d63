-- ===== src/Ippool/Manager/Steps/Restart.antt =====
-- What becomes of an address that is in flight when the manager is stopped.
use text.Mathlib.TextEquality.{eq_iff}
use tmap.Base.{
  ◌≡◌, refl, ap, true, false, ◌||◌, List, [], ◌∷◌, String, str_eq, member, arith, Yields,
}
use tmap.Base.Float.{Float64}
use tmap.Ippool.Types.{DevicePoolEntry, MobileFingerprint, Instant}
use tmap.Ippool.Manager.{Manager}
use tmap.Ippool.Manager.Steps.{Action, run}
use tmap.Ippool.Manager.Steps.Core.{Core, IsKept, Keeps, core_of}
use tmap.Ippool.Manager.Steps.Kept.{run_from-Keeps}
use tmap.Base.Sets.{member-append}
use tmap.Ippool.Manager.Steps.Queue.{member-drop_key}

-- Marked as in flight, but neither queued nor at the scheduler.
abbrev pub IsLost : {F : Type 0} → String → Core F → Type 0
IsLost ip c =
    (member ip c.inflight ≡ true) × (member ip c.task_ch ≡ false) × (member ip c.working ≡ false)

IsLost-IsKept : {F : Type 0} (ip : String) → IsKept {F = F} (IsLost ip)
unfolding member
IsLost-IsKept ip = record {
  enqueues = λ c k e r l. ground (arith, member-append ip c.task_ch (k ∷ []), eq_iff k ip);
  overflows = λ c k e l. ground (arith, member-drop_key ip k (k ∷ c.inflight), eq_iff k ip);
  takes_one = λ c k rest e l.
      let known : member ip c.task_ch ≡ (str_eq k ip || member ip rest) = ap (member ip) e in
      ground (arith, known, member-append ip c.working (k ∷ []));
  finishes = λ c k payload w l.
      ground (arith, eq_iff k ip, member-drop_key ip k c.working, member-drop_key ip k c.inflight);
  resets = λ c l. (l.0, refl, refl);
  empties = λ c l. l;
}

module _ {F : Type 0} ⦃f : Float64 F⦄
    (fingerprint : DevicePoolEntry F → Instant → MobileFingerprint F) where
  -- An address that is marked as in flight but neither queued nor at the scheduler stays so in any
  -- run that ends in a state, restarts included: it is never probed again.
  pub run-IsLost :
      (ip : String) (m : Manager F) (script : List (Instant × Action F))
      → IsLost ip (core_of m)
      → Yields (Keeps (IsLost ip)) (run fingerprint m script)
  run-IsLost ip m script l =
      run_from-Keeps (IsLost ip) (IsLost-IsKept ip) fingerprint script m (record { holds = l })
