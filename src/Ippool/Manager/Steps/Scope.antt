-- ===== src/Ippool/Manager/Steps/Scope.antt =====
-- The scope of discovery in the methods of apps/desktop/ippool/manager.go.
use tmap.Base.{
  ℕ, zero, suc, ◌≡◌, sym, Bool, true, Option, none, some, List, [], ◌∷◌, String, str_eq, member,
  Bool-cases, inl, inr, if_case, All, All-append, Yields, yield, length, ltb, ◌||◌, ◌&&◌, is_empty,
  subst,
}
use text.Mathlib.TextEquality.{eq_iff}
use tmap.Base.Int.{ℤ, pos}
use tmap.Base.Float.{Float64}
use tmap.Ippool.Types.{DeviceStatus, DevicePoolEntry, MobileFingerprint, Instant, candidates}
use tmap.Net.Cidr.{IpNet}
use tmap.Ippool.Guard.{ScopeGuard, Message, silent, CidrDecision, allow_ip, allow_cidr}
use tmap.Ippool.Candidates.{
  Outcome, returned, panicked, running, subnet_of, generate, generate_from_seed, to4, seed_net,
  sweep,
}
use tmap.Ippool.Candidates.Output.{emit-All}
use tmap.Net.Ip.{parse_ip}
use tmap.Ippool.Pool.{DevicePool, ensure_candidate}
use tmap.Ippool.Registry.{is_shown, clear_stale}
use tmap.Ippool.Registry.Answered.{AllAnswered, ensure-AllAnswered, clear_loop-AllAnswered, ips-All}
use tmap.Ippool.Manager.{task_queue_size, Manager, emit_fingerprint, emit_scored, emit_topology}
use tmap.Ippool.Manager.Handlers.{
  drop_key, enqueue, enqueue_all, queue_hosts, expand_net, expand_subnet, emit_warning, stop, feed,
  feed_next, retest, clear, generator_fuel,
}
use tmap.Ippool.Manager.Steps.{take, take_next}

abbrev pub IsInScope : ScopeGuard → String → Type 0
IsInScope g ip = (allow_ip g ip).0 ≡ true

module _ (g : ScopeGuard) where
  -- Every address of a list that a call returns is in scope.
  unfoldable pub Emits : Outcome → Type 0
  Emits (returned hosts) = All (IsInScope g) hosts
  Emits _ = Unit

  hosts-All : (hs : List ℕ) (P : ℕ → Type 0) → ((h : ℕ) → P h) → All P hs
  hosts-All [] P p = tt
  hosts-All (h ∷ hs) P p = (p h, hosts-All hs P p)

  sweep-All : (v : ℕ) (n : IpNet) (limit : ℤ) → All (IsInScope g) (sweep g v n limit)
  unfolding sweep
  sweep-All v n limit = emit-All g (IsInScope g) limit 0 _ (hosts-All _ _ λ h a. a)

  hosts_in : (hosts : List String) → All (IsInScope g) hosts → Emits (returned hosts)
  unfolding Emits
  hosts_in hosts h = h

  none_out : Emits panicked
  unfolding Emits
  none_out = tt

  generate-Emits : (fuel : ℕ) (v : ℕ) (n : IpNet) (limit : ℤ) → Emits (generate fuel g v n limit)
  unfolding generate
  generate-Emits zero v n limit = unfold Emits in tt
  generate-Emits (suc fuel) v n limit =
      if_case Emits _ (generate-Emits fuel v _ _)
        (if_case Emits _ (hosts_in _ (sweep-All v n limit)) none_out)

  pub seed-Emits :
      (fuel : ℕ) (ip cidr : String) (limit : ℤ) → Emits (generate_from_seed fuel g ip cidr limit)
  unfolding generate_from_seed
  seed-Emits fuel ip cidr limit =
      elim (to4 (parse_ip ip))
        as (λ o.
          Emits
            (elim o [ none ↦ returned [] | some v ↦ generate fuel g v (seed_net v cidr) limit ])) [
              | none ↦ unfold Emits in tt
              | some v ↦ generate-Emits fuel v (seed_net v cidr) limit
            ]

abbrev pub AreScoped :
    {F : Type 0}
    → ScopeGuard
    → ScopeGuard
    → List String
    → List String
    → List String
    → DevicePool F
    → Type 0
AreScoped g guard task_ch working backlog pool =
    (guard ≡ g)
    × All (IsInScope g) task_ch
    × All (IsInScope g) working
    × All (IsInScope g) backlog
    × AllAnswered (IsInScope g) pool

-- In scope are the queue, the addresses at the scheduler, the backlog, and the devices that have
-- answered.
pub record IsScoped {F : Type 0} (g : ScopeGuard) (m : Manager F) : Type 0 where
  pub holds : AreScoped g m.guard m.task_ch m.working m.backlog m.pool

pub drop-All : (P : String → Type 0) (k : String) (s : List String) → All P s → All P (drop_key k s)
unfolding drop_key
drop-All P k [] h = tt
drop-All P k (j ∷ s) h = if_case (All P) (str_eq j k) (drop-All P k s h.1) (h.0, drop-All P k s h.1)

-- What holds of all elements holds of a member.
pub member-All :
    (P : String → Type 0) (k : String) (s : List String) → member k s ≡ true → All P s → P k
unfolding member
member-All P k [] m h = cc
member-All P k (j ∷ s) m h = elim (Bool-cases (str_eq j k)) [
  | inl e ↦ subst P ((eq_iff j k).0 e) h.0
  | inr n ↦ member-All P k s (rw n at m) h.1
]

module _ {F : Type 0} ⦃f : Float64 F⦄ (g : ScopeGuard) where
  pub enqueue-IsScoped :
      (m : Manager F) (ip : String) → IsInScope g ip → IsScoped g m → IsScoped g (enqueue m ip)
  unfolding enqueue
  enqueue-IsScoped m ip q s = if_case (IsScoped g) (member ip m.inflight) s (
      if_case (IsScoped g) (m.opened && ltb (length m.task_ch) task_queue_size)
        (record {
          holds = (
            s.holds.0,
            All-append (IsInScope g) m.task_ch (ip ∷ []) s.holds.1 (q, tt),
            s.holds.2,
            s.holds.3,
            s.holds.4,
          );
        })
        (record { holds = s.holds }))

  pub enqueue_all-IsScoped :
      (m : Manager F) (ips : List String)
      → All (IsInScope g) ips
      → IsScoped g m
      → IsScoped g (enqueue_all m ips)
  unfolding enqueue_all
  enqueue_all-IsScoped m [] q s = s
  enqueue_all-IsScoped m (ip ∷ ips) q s =
      enqueue_all-IsScoped (enqueue m ip) ips q.1 (enqueue-IsScoped m ip q.0 s)

  pub queue_hosts-IsScoped :
      (m : Manager F) (o : Outcome)
      → Emits g o
      → IsScoped g m
      → Yields (IsScoped g) (queue_hosts m o)
  unfolding Emits Yields
  queue_hosts-IsScoped m (returned hosts) e s = record {
    holds = (
      s.holds.0,
      s.holds.1,
      s.holds.2,
      All-append (IsInScope g) m.backlog hosts s.holds.3 e,
      s.holds.4,
    );
  }
  queue_hosts-IsScoped m panicked e s = tt
  queue_hosts-IsScoped m running e s = tt

  pub warning-IsScoped :
      (m : Manager F) (w : Message) → IsScoped g m → IsScoped g (emit_warning m w)
  warning-IsScoped m silent s = s
  warning-IsScoped m w s = record { holds = s.holds }

  pub expand_net-IsScoped :
      (m : Manager F) (ip cidr : String) (dec : CidrDecision)
      → IsScoped g m
      → Yields (IsScoped g) (expand_net m ip cidr dec)
  unfolding expand_net
  expand_net-IsScoped m ip cidr dec s = elim (Bool-cases dec.allowed) [
    | inl e ↦
        rw (e, expand_net)
          (queue_hosts-IsScoped _ _
            (subst (λ guard. Emits g (generate_from_seed generator_fuel guard ip cidr (pos 0)))
              (sym s.holds.0) (seed-Emits g generator_fuel ip cidr (pos 0)))
            (warning-IsScoped _ dec.warning (record { holds = s.holds })))
    | inr e ↦ rw (e, expand_net) (yield (IsScoped g) (record { holds = s.holds }))
  ]

  pub expand-IsScoped :
      (m : Manager F) (ip : String) (confirm : Bool)
      → IsScoped g m
      → Yields (IsScoped g) (expand_subnet m ip confirm)
  unfolding expand_subnet
  expand-IsScoped m ip confirm s =
      let cidr = subnet_of ip m.cfg.max_auto_prefix in
      if_case (Yields (IsScoped g)) (m.paused || is_empty cidr || member cidr m.expanded)
        (yield (IsScoped g) s) (expand_net-IsScoped m ip cidr (allow_cidr m.guard cidr confirm) s)

  pub scored-IsScoped :
      (m : Manager F) (now : Instant) (e : DevicePoolEntry F) (o : Option (MobileFingerprint F))
      → IsScoped g m
      → IsScoped g (emit_scored m now e o)
  scored-IsScoped m now e none s = s
  scored-IsScoped m now e (some fp) s = record { holds = s.holds }

  pub fingerprint-IsScoped :
      (m : Manager F) (now : Instant) (e : DevicePoolEntry F)
      → IsScoped g m
      → IsScoped g (emit_fingerprint m now e)
  unfolding emit_fingerprint
  fingerprint-IsScoped m now e s = scored-IsScoped m now e e.mobile_fingerprint s

  pub feed_next-IsScoped :
      (m : Manager F) (now : Instant) (ips : List String)
      → All (IsInScope g) ips
      → IsScoped g m
      → IsScoped g (feed_next m now ips)
  feed_next-IsScoped m now [] q s = s
  feed_next-IsScoped m now (ip ∷ rest) q s =
      let kept = ensure-AllAnswered (IsInScope g) m.pool now ip candidates s.holds.4 in
      let fed : AreScoped g m.guard m.task_ch m.working rest
          (ensure_candidate m.pool now ip candidates).0 =
        (s.holds.0, s.holds.1, s.holds.2, q.1, kept) in
      enqueue-IsScoped _ ip q.0 (
        if_case (IsScoped g) (ensure_candidate m.pool now ip candidates).2 (record { holds = fed })
          (record { holds = fed }))

  pub feed-IsScoped : (m : Manager F) (now : Instant) → IsScoped g m → IsScoped g (feed m now)
  unfolding feed
  feed-IsScoped m now s =
      if_case (IsScoped g) m.paused s (feed_next-IsScoped m now m.backlog s.holds.3 s)

  pub retest-IsScoped :
      (m : Manager F) (want : DeviceStatus → Bool)
      → ((t : DeviceStatus) → want t ≡ true → is_shown t ≡ true)
      → IsScoped g m
      → IsScoped g (retest m want)
  unfolding retest
  retest-IsScoped m want w s =
      enqueue_all-IsScoped m _ (ips-All (IsInScope g) want m.pool.entries w s.holds.4) s

  pub take_next-IsScoped :
      (m : Manager F) (ips : List String)
      → All (IsInScope g) ips
      → IsScoped g m
      → IsScoped g (take_next m ips)
  take_next-IsScoped m [] q s = s
  take_next-IsScoped m (ip ∷ rest) q s = record {
    holds = (
      s.holds.0,
      q.1,
      All-append (IsInScope g) m.working (ip ∷ []) s.holds.2 (q.0, tt),
      s.holds.3,
      s.holds.4,
    );
  }

  pub take-IsScoped : (m : Manager F) → IsScoped g m → IsScoped g (take m)
  unfolding take
  take-IsScoped m s = take_next-IsScoped m m.task_ch s.holds.1 s

  pub stop-IsScoped : (m : Manager F) → IsScoped g m → IsScoped g (stop m)
  unfolding stop
  stop-IsScoped m s = if_case (IsScoped g) m.running (record { holds = s.holds }) s

  pub clear-IsScoped : (m : Manager F) (now : Instant) → IsScoped g m → IsScoped g (clear m now).0
  unfolding clear emit_topology clear_stale
  clear-IsScoped m now s =
      let s' = clear_loop-AllAnswered (IsInScope g) m.pool.entries m.pool 0 s.holds.4 in
      if_case {A = Manager F × ℕ} (λ r. IsScoped g r.0) (ltb 0 (clear_stale m.pool).1)
        (record { holds = (s.holds.0, s.holds.1, s.holds.2, s.holds.3, s') })
        (record { holds = (s.holds.0, s.holds.1, s.holds.2, s.holds.3, s') })
