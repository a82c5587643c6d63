-- ===== src/Ippool/Manager/Steps/Drained.antt =====
-- The backlog reaches the scheduler.
use text.Mathlib.TextEquality.{eq_iff}
use tmap.Base.{
  ℕ, zero, suc, ◌+◌, ◌≤◌, ◌≡◌, refl, sym, ap, ◌∙◌, subst, Bool, true, false, ◌||◌, List, [], ◌∷◌,
  ◌++◌, String, str_eq, member, length, length-append, arith, if◌then◌else◌, ltb, lt→ltb, inl, inr,
  Bool-cases, if_case,
}
use tmap.Base.Sets.{member-append}
use tmap.Base.Float.{Float64}
use tmap.Ippool.Types.{Instant, candidates}
use tmap.Ippool.Pool.{ensure_candidate}
use tmap.Ippool.Manager.{Manager, candidate_added, emit, task_queue_size}
use tmap.Ippool.Manager.Handlers.{enqueue, feed_next, feed}
use tmap.Ippool.Manager.Steps.{take_next, take}

grown :
    (task_ch : List String) (ip : String) (b : Bool)
    → length (if b then task_ch else task_ch ++ (ip ∷ [])) ≤ suc (length task_ch)
grown task_ch ip true = omega arith
grown task_ch ip false = omega (arith, length-append task_ch (ip ∷ []))

-- A marked address is queued, or was marked at the start.
abbrev IsKnown : List String → List String → List String → Type 0
IsKnown base task_ch inflight =
    (ip : String) → member ip inflight ≡ true → (member ip task_ch || member ip base) ≡ true

after-IsKnown :
    (base task_ch inflight : List String) (x : String)
    → IsKnown base task_ch inflight
    → IsKnown base
        (if member x inflight then task_ch else task_ch ++ (x ∷ []))
        (if member x inflight then inflight else x ∷ inflight)
unfolding member
after-IsKnown base task_ch inflight x known ip h = elim (Bool-cases (member x inflight)) [
  | inl there ↦ rw there (known ip (rw there at h))
  | inr fresh ↦
      rw (fresh, member-append)
        (either (str_eq x ip) (member ip inflight) (member ip task_ch) (member ip base) (known ip)
          (rw fresh at h))
]
  where
    either :
        (s i t b : Bool)
        → (i ≡ true → (t || b) ≡ true)
        → (s || i) ≡ true
        → ((t || (s || false)) || b) ≡ true
    either s i t b k q = ground arith

after-reached :
    (base task_ch inflight : List String) (x ip : String) (b : Bool)
    → IsKnown base task_ch inflight
    → ((str_eq x ip || b) || (member ip task_ch || member ip base)) ≡ true
    → (b
        || (member ip (if member x inflight then task_ch else task_ch ++ (x ∷ []))
            || member ip base))
      ≡ true
unfolding member
after-reached base task_ch inflight x ip b known h = elim (Bool-cases (member x inflight)) [
  | inl there ↦ rw there (
      kept (str_eq x ip) b (member ip task_ch || member ip base)
        (λ e. known ip (rw (sym ((eq_iff x ip).0 e)) there)) h)
  | inr fresh ↦
      rw (fresh, member-append) (moved (str_eq x ip) b (member ip task_ch) (member ip base) h)
]
  where
    kept : (s b r : Bool) → (s ≡ true → r ≡ true) → ((s || b) || r) ≡ true → (b || r) ≡ true
    kept s b r k q = ground arith

    moved :
        (s b t c : Bool) → ((s || b) || (t || c)) ≡ true → (b || ((t || (s || false)) || c)) ≡ true
    moved s b t c q = ground arith

module _ {F : Type 0} ⦃f : Float64 F⦄ where
  -- One tick of the feed for each instant.
  unfoldable pub feed_all : Manager F → List Instant → Manager F
  feed_all m [] = m
  feed_all m (now ∷ nows) = feed_all (feed m now) nows

  unfoldable pub take_all : ℕ → Manager F → Manager F
  take_all zero m = m
  take_all (suc n) m = take_all n (take m)

  -- What the feed looks at: that it is not paused, and that there is a queue.
  abbrev IsFed : Manager F → Type 0
  IsFed m = (m.paused ≡ false) × (m.opened ≡ true)

  -- An address is queued, or was marked as in flight at the start.
  abbrev IsReached : List String → Manager F → String → Type 0
  IsReached base m ip = (member ip m.task_ch || member ip base) ≡ true

  -- What is left of a queue and of the marks where an address is queued and there is room.
  record IsAfter (task_ch inflight : List String) (ip : String) (n : Manager F) : Type 0 where
    fed : IsFed n
    queued : n.task_ch ≡ (if member ip inflight then task_ch else task_ch ++ (ip ∷ []))
    marked : n.inflight ≡ (if member ip inflight then inflight else ip ∷ inflight)

  enqueue-IsAfter :
      (m : Manager F) (ip : String)
      → IsFed m
      → ltb (length m.task_ch) task_queue_size ≡ true
      → IsAfter m.task_ch m.inflight ip (enqueue m ip) × ((enqueue m ip).backlog ≡ m.backlog)
  unfolding enqueue
  enqueue-IsAfter m ip fed room = elim (Bool-cases (member ip m.inflight)) [
    | inl there ↦ (
      record { fed = rw there fed; queued = rw there refl; marked = rw there refl },
      rw there refl,
    )
    | inr fresh ↦ (
      record {
        fed = rw (fresh, fed.1, room) (fed.0, refl);
        queued = rw (fresh, fed.1, room) refl;
        marked = rw (fresh, fed.1, room) refl;
      },
      rw (fresh, fed.1, room) refl,
    )
  ]

  feed_unpaused :
      (m : Manager F) (now : Instant) (backlog : List String)
      → m.paused ≡ false
      → m.backlog ≡ backlog
      → feed m now ≡ feed_next m now backlog
  unfolding feed
  feed_unpaused m now backlog p b =
      ap {B = Manager F} (λ x. if x then m else feed_next m now m.backlog) p
      ∙ ap (feed_next m now) b

  feed-IsAfter :
      (m : Manager F) (now : Instant) (ip : String) (rest : List String)
      → IsFed m
      → m.backlog ≡ ip ∷ rest
      → ltb (length m.task_ch) task_queue_size ≡ true
      → IsAfter m.task_ch m.inflight ip (feed m now) × ((feed m now).backlog ≡ rest)
  feed-IsAfter m now ip rest fed b room =
      let kept = ensure_candidate m.pool now ip candidates in
      let m1 : Manager F = record m { backlog = rest; pool = kept.0 } in
      subst (λ n. IsAfter m.task_ch m.inflight ip n × (n.backlog ≡ rest))
        (sym (feed_unpaused m now (ip ∷ rest) fed.0 b))
        (if_case {A = Manager F}
          (λ n. IsAfter m.task_ch m.inflight ip (enqueue n ip) × ((enqueue n ip).backlog ≡ rest))
          kept.2 (enqueue-IsAfter (emit m1 (candidate_added ip)) ip fed room)
          (enqueue-IsAfter m1 ip fed room))

  -- After enough ticks each address that is in the backlog, queued, or was marked, is reached.
  feed_all-IsReached :
      (base : List String) (m : Manager F) (nows : List Instant) (backlog : List String)
      → IsFed m
      → m.backlog ≡ backlog
      → length nows ≡ length backlog
      → length m.task_ch + length backlog ≤ task_queue_size
      → ((ip : String) → member ip m.inflight ≡ true → IsReached base m ip)
      → (ip : String) → (member ip backlog || (member ip m.task_ch || member ip base)) ≡ true
      → IsReached base (feed_all m nows) ip
  unfolding feed_all member
  feed_all-IsReached base m [] [] fed b n room known ip h = h
  feed_all-IsReached base m [] (x ∷ backlog) fed b n room known ip h = absurd (omega (arith, n))
  feed_all-IsReached base m (now ∷ nows) [] fed b n room known ip h = absurd (omega (arith, n))
  feed_all-IsReached base m (now ∷ nows) (x ∷ backlog) fed b n room known ip h =
      let space : length m.task_ch + suc (length backlog) ≤ 512 = room in
      let (after, left) =
        feed-IsAfter m now x backlog fed b (lt→ltb (length m.task_ch) 512 (omega (arith, space))) in
      feed_all-IsReached base (feed m now) nows backlog after.fed left (omega (arith, n))
        (rw after.queued (fits (length backlog) space (grown m.task_ch x (member x m.inflight))))
        (rw (after.queued, after.marked) (after-IsKnown base m.task_ch m.inflight x known)) ip
        (rw after.queued (after-reached base m.task_ch m.inflight x ip (member ip backlog) known h))
    where
      fits : {l t : ℕ} (k : ℕ) → t + suc k ≤ 512 → l ≤ suc t → l + k ≤ 512
      fits k p q = omega (arith, p, q)

  take_next_lem :
      (m : Manager F) (x : String) (queue : List String)
      → m.task_ch ≡ x ∷ queue
      → ((take m).task_ch ≡ queue) × ((take m).working ≡ m.working ++ (x ∷ []))
  unfolding take
  take_next_lem m x queue q =
      subst (λ n. (n.task_ch ≡ queue) × (n.working ≡ m.working ++ (x ∷ [])))
        (sym (ap (take_next m) q)) (refl, refl)

  take_all-working :
      (m : Manager F) (queue : List String) (ip : String)
      → m.task_ch ≡ queue
      → member ip (take_all (length queue) m).working ≡ (member ip m.working || member ip queue)
  unfolding take_all member
  take_all-working m [] ip q = only (member ip m.working)
    where
      only : (a : Bool) → a ≡ (a || false)
      only a = ground arith
  take_all-working m (x ∷ queue) ip q =
      let (left, moved) = take_next_lem m x queue q in
      take_all-working (take m) queue ip left
      ∙ rw (moved, member-append) (regroup (member ip m.working) (str_eq x ip) (member ip queue))
    where
      regroup : (a s b : Bool) → ((a || (s || false)) || b) ≡ (a || (s || b))
      regroup a s b = ground arith

  -- Where the manager is not paused and has a queue with room for the whole backlog, as many ticks
  -- of the feed as the backlog is long, and then as many takes as the queue is long, bring every
  -- address of the backlog to the scheduler that was not marked as in flight before.
  pub drain-IsReached :
      (m : Manager F) (nows : List Instant) (ip : String)
      → m.paused ≡ false
      → m.opened ≡ true
      → length nows ≡ length m.backlog
      → length m.task_ch + length m.backlog ≤ task_queue_size
      → member ip m.backlog ≡ true
      → (let fed = feed_all m nows in
          (member ip (take_all (length fed.task_ch) fed).working || member ip m.inflight) ≡ true)
  drain-IsReached m nows ip p o n room h =
      let fed = feed_all m nows in
      let reached =
        feed_all-IsReached m.inflight m nows m.backlog (p, o) refl n room
          (λ k marked. last (member k m.task_ch) (member k m.inflight) marked) ip
          (first (member ip m.backlog) _ h) in
      rw (take_all-working fed fed.task_ch ip refl)
        (weaken (member ip fed.working) (member ip fed.task_ch) (member ip m.inflight) reached)
    where
      last : (a b : Bool) → b ≡ true → (a || b) ≡ true
      last a b q = ground arith

      first : (a b : Bool) → a ≡ true → (a || b) ≡ true
      first a b q = ground arith

      weaken : (w a b : Bool) → (a || b) ≡ true → ((w || a) || b) ≡ true
      weaken w a b q = ground arith
