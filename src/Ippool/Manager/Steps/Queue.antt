-- ===== src/Ippool/Manager/Steps/Queue.antt =====
-- The bounds of the queue and of the batch, and that an address is probed at most once at a time.
use text.Mathlib.TextEquality.{eq_iff}
use text.Mathlib.TextPositions.{eq_refl}
use tmap.Base.{
  ◌≤◌, ◌≡◌, refl, ap, subst, true, false, ◌&&◌, ◌||◌, not, List, [], ◌∷◌, ◌++◌, String, str_eq,
  member, length, length-append, arith, if◌then◌else◌, ltb, Yields, tests,
}
use tmap.Base.Float.{Float64}
use tmap.Ippool.Types.{DevicePoolEntry, MobileFingerprint, Instant, ProbeResultPayload}
use tmap.Ippool.Config.{Config}
use tmap.Base.Sets.{IsUnique, member-append, IsUnique-append}
use tmap.Ippool.Manager.{new_manager, task_queue_size}
use tmap.Ippool.Manager.Handlers.{drop_key}
use tmap.Ippool.Manager.Steps.{Action, run}
use tmap.Ippool.Manager.Steps.Core.{Core, IsKept, Keeps}
use tmap.Ippool.Manager.Steps.Kept.{run_from-Keeps}

pub member-drop_key :
    (k j : String) (s : List String) → member k (drop_key j s) ≡ (not (str_eq j k) && member k s)
unfolding member drop_key
member-drop_key k j [] = ground arith
member-drop_key k j (x ∷ s) =
    ground (arith, eq_iff x j, eq_iff x k, eq_iff j k, member-drop_key k j s)

IsUnique-drop_key : (j : String) (s : List String) → IsUnique s → IsUnique (drop_key j s)
unfolding drop_key
IsUnique-drop_key j [] u = tt
IsUnique-drop_key j (x ∷ s) u = ground (arith, member-drop_key x j s, IsUnique-drop_key j s)

-- The queue holds at most 512 addresses and the batch at most 200 results; no address is queued
-- twice, or at the scheduler twice, or at both; and one that is at either is marked as in flight.
pub record IsOrderly {F : Type 0} (c : Core F) : Type 0 where
  pub room : length c.task_ch ≤ task_queue_size
  pub batch : length c.pending ≤ 200
  pub once : IsUnique c.task_ch
  pub alone : IsUnique c.working
  pub marked :
      (ip : String)
      → (member ip c.task_ch || member ip c.working) ≡ true
      → member ip c.inflight ≡ true
  pub apart : (ip : String) → (member ip c.task_ch && member ip c.working) ≡ false

module _ {F : Type 0} where
  enqueues-IsOrderly :
      (c : Core F) (ip : String)
      → member ip c.inflight ≡ false
      → ltb (length c.task_ch) task_queue_size ≡ true
      → IsOrderly c
      → IsOrderly (record c { task_ch = c.task_ch ++ (ip ∷ []); inflight = ip ∷ c.inflight })
  enqueues-IsOrderly c ip e r o = record {
    room = omega (tests, length-append c.task_ch (ip ∷ []), r, o.room);
    batch = o.batch;
    once = IsUnique-append c.task_ch ip (ground (arith, o.marked ip)) o.once;
    alone = o.alone;
    marked =
        λ k m. unfold member in ground (arith, o.marked k, member-append k c.task_ch (ip ∷ []));
    apart = λ k.
        unfold member in
        ground (arith, o.apart k, o.marked ip, eq_iff ip k, member-append k c.task_ch (ip ∷ []));
  }

  overflows-IsOrderly :
      (c : Core F) (ip : String)
      → member ip c.inflight ≡ false
      → IsOrderly c
      → IsOrderly (record c { inflight = drop_key ip (ip ∷ c.inflight) })
  overflows-IsOrderly c ip e o = record {
    room = o.room;
    batch = o.batch;
    once = o.once;
    alone = o.alone;
    marked = λ k m.
        unfold member in
        ground (arith, o.marked k m, eq_iff ip k, member-drop_key k ip (ip ∷ c.inflight));
    apart = o.apart;
  }

  takes-IsOrderly :
      (c : Core F) (ip : String) (rest : List String)
      → c.task_ch ≡ ip ∷ rest
      → IsOrderly c
      → IsOrderly (record c { task_ch = rest; working = c.working ++ (ip ∷ []) })
  unfolding member
  takes-IsOrderly c ip rest e o =
      let first : IsUnique (ip ∷ rest) = subst IsUnique e o.once in
      let known : (k : String) → member k c.task_ch ≡ (str_eq ip k || member k rest) =
        λ k. ap (member k) e in
      record {
        room = omega (arith, o.room, ap length e);
        batch = o.batch;
        once = first.1;
        alone =
            IsUnique-append c.working ip (ground (arith, o.apart ip, known ip, eq_refl ip)) o.alone;
        marked = λ k m. ground (arith, o.marked k, known k, member-append k c.working (ip ∷ []));
        apart = λ k.
            ground (
              arith,
              o.apart k,
              known k,
              first.0,
              eq_iff ip k,
              member-append k c.working (ip ∷ []),
            );
      }

  finishes-IsOrderly :
      (c : Core F) (ip : String) (payload : ProbeResultPayload F)
      → member ip c.working ≡ true
      → IsOrderly c
      → IsOrderly (record c {
        working = drop_key ip c.working;
        inflight = drop_key ip c.inflight;
        pending = if ltb (length c.pending) 200 then c.pending ++ (payload ∷ []) else c.pending;
      })
  finishes-IsOrderly c ip payload w o = record {
    room = o.room;
    batch = ground (arith, o.batch, length-append c.pending (payload ∷ []));
    once = o.once;
    alone = IsUnique-drop_key ip c.working o.alone;
    marked = λ k m. ground (
      arith,
      o.marked k,
      o.apart ip,
      eq_iff ip k,
      member-drop_key k ip c.working,
      member-drop_key k ip c.inflight,
    );
    apart = λ k. ground (arith, o.apart k, member-drop_key k ip c.working);
  }

  IsOrderly-IsKept : IsKept {F = F} IsOrderly
  unfolding member
  IsOrderly-IsKept = record {
    enqueues = enqueues-IsOrderly;
    overflows = overflows-IsOrderly;
    takes_one = takes-IsOrderly;
    finishes = finishes-IsOrderly;
    resets = λ c o. record {
      room = omega arith;
      batch = o.batch;
      once = tt;
      alone = tt;
      marked = λ k m. cc;
      apart = λ k. refl;
    };
    empties = λ c o. record {
      room = o.room;
      batch = omega arith;
      once = o.once;
      alone = o.alone;
      marked = o.marked;
      apart = o.apart;
    };
  }

module _ {F : Type 0} ⦃f : Float64 F⦄
    (fingerprint : DevicePoolEntry F → Instant → MobileFingerprint F) where
  -- After any run of a new manager that ends in a state, the queue holds at most 512 addresses and
  -- the batch at most 200 results; no address is queued twice, or at the scheduler twice, or at
  -- both; and one that is at either is marked as in flight.
  pub run-IsOrderly :
      (given : Config F) (script : List (Instant × Action F))
      → Yields (Keeps IsOrderly) (run fingerprint (new_manager given) script)
  unfolding new_manager member
  run-IsOrderly given script =
      run_from-Keeps IsOrderly IsOrderly-IsKept fingerprint script (new_manager given) (record {
        holds = record {
          room = omega arith;
          batch = omega arith;
          once = tt;
          alone = tt;
          marked = λ k m. cc;
          apart = λ k. refl;
        };
      })
