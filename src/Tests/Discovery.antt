-- ===== src/Tests/Discovery.antt =====
-- Runs of the manager.
use tmap.Net.Ip.{is_link_local_unicast}
use tmap.Ippool.Pool.{record_success, ensure_candidate, new_device_pool, new_entry}
use tmap.Base.Map.{lookup, insert}
use tmap.Ippool.Registry.{add_evidence, absorb, apply_identity}
use tmap.Ippool.Evidence.{
  sanitize_evidence, is_passive_dns_metadata, merge_evidence, meaningful_mobile_evidence,
}
use tmap.Base.{to_lower}
use tmap.Base.{
  ℕ, ◌≡◌, refl, Bool, true, false, Option, none, some, List, [], ◌∷◌, codes, member, Yields, length,
  ◌||◌, arith,
}
use tmap.Base.Int.{pos}
use tmap.Ippool.Types.{Instant, ProbeOutcome}
use tmap.Ippool.Config.{Config, default_config, normalized}
use tmap.Ippool.Guard.{new_scope_guard, allow_ip, allow_addr, allow_cidr, decide_net}
use tmap.Net.Ip.{parse_ip, is_loopback, is_multicast, is_unspecified, is_private}
use tmap.Net.Ipv4.{format_ipv4, parse_ipv4}
use tmap.Net.Cidr.{net_text, net_ip, parse_cidr}
use tmap.Ippool.Candidates.{subnet_of, generate_from_seed}
use tmap.Ippool.Manager.{Manager, new_manager}
use tmap.Ippool.Manager.Steps.{
  Action, starts, stops, feeds, takes, answers, flushes, observes, retests_active, run,
}
use tmap.Ippool.Manager.Steps.Scope.{IsScoped}
use tmap.Ippool.Manager.Steps.Safety.{run-IsScoped}
use tmap.Ippool.Manager.Steps.Core.{Core, Keeps, core_of}
use tmap.Ippool.Manager.Steps.Queue.{IsOrderly, run-IsOrderly}
use tmap.Ippool.Manager.Steps.Drained.{feed_all, take_all, drain-IsReached}
use tmap.Ippool.Manager.Steps.Restart.{IsLost, run-IsLost}
use tmap.Tests.Config.{thousandths}
use tmap.Tests.Pool.{noon, host, ping, unknown_phone}

abbrev home_config : Config ℕ
home_config = record default_config { max_auto_prefix = pos 30 }

abbrev answer : ProbeOutcome ℕ
answer = record {
  ip = host;
  reachable = true;
  latency_ms = 12000;
  ttl = pos 64;
  loss_pct = 0;
  method = "ping";
  err = "";
}

-- A seed is probed and answers; its subnet is expanded, and a public address is only observed.
abbrev script : List (Instant × Action ℕ)
script =
    (noon, starts (host ∷ "8.8.8.8" ∷ []) false)
    ∷ (noon, takes)
    ∷ (noon, answers answer)
    ∷ (noon, feeds)
    ∷ (noon, observes "8.8.8.8" ping)
    ∷ (noon, retests_active)
    ∷ (noon, flushes)
    ∷ []

run-IsScoped_example :
    Yields
      (IsScoped (new_scope_guard (normalized home_config)))
      (run unknown_phone (new_manager home_config) script)
run-IsScoped_example = run-IsScoped unknown_phone home_config script

run-IsOrderly_example :
    Yields (Keeps IsOrderly) (run unknown_phone (new_manager home_config) script)
run-IsOrderly_example = run-IsOrderly unknown_phone home_config script

-- A manager that was stopped while the probe of the host was under way.
abbrev halted : Manager ℕ
halted = record (new_manager home_config) { opened = true; inflight = host ∷ [] }

abbrev second_try : List (Instant × Action ℕ)
second_try = (noon, starts (host ∷ []) false) ∷ (noon, takes) ∷ (noon, feeds) ∷ (noon, takes) ∷ []

run-IsLost_example : Yields (Keeps (IsLost host)) (run unknown_phone halted second_try)
unfolding new_manager member
run-IsLost_example = run-IsLost unknown_phone host halted second_try (refl, refl, refl)

abbrev core_after : Option (Manager ℕ) → Option (Core ℕ)
core_after none = none
core_after (some m) = some (core_of m)

-- A device whose probe is under way when the manager stops is not queued by the next start.
stop_start :
    core_after (
      run unknown_phone (new_manager home_config) (
        (noon, starts (host ∷ []) false)
        ∷ (noon, takes)
        ∷ (noon, stops)
        ∷ (noon, starts (host ∷ []) false)
        ∷ []))
    ≡ some (record { task_ch = []; working = []; inflight = host ∷ []; pending = [] })
unfolding run new_manager allow_ip parse_ip codes parse_ipv4 allow_addr is_loopback is_multicast
    is_unspecified is_private subnet_of net_text format_ipv4 normalized default_config allow_cidr
    parse_cidr decide_net net_ip generate_from_seed member new_scope_guard
stop_start = refl

abbrev completes : Option (Manager ℕ) → Bool
completes none = false
completes (some m) = true

-- The run above ends in a state.
ends_in_state : completes (run unknown_phone (new_manager home_config) script) ≡ true
unfolding run new_manager allow_ip parse_ip codes parse_ipv4 allow_addr is_loopback is_multicast
    is_unspecified is_private subnet_of net_text format_ipv4 normalized default_config allow_cidr
    parse_cidr decide_net net_ip generate_from_seed member new_scope_guard is_link_local_unicast
    record_success ensure_candidate new_device_pool new_entry lookup insert add_evidence absorb
    apply_identity sanitize_evidence is_passive_dns_metadata merge_evidence
    meaningful_mobile_evidence to_lower
ends_in_state = refl

-- A manager with two addresses in its backlog, of which one is in flight.
abbrev filled : Manager ℕ
filled = record (new_manager home_config) {
  opened = true;
  inflight = host ∷ [];
  backlog = host ∷ "192.168.1.77" ∷ [];
}

abbrev two_ticks : List Instant
two_ticks = noon ∷ noon ∷ []

drain-IsReached_example :
    (let fed = feed_all filled two_ticks in
      (member "192.168.1.77" (take_all (length fed.task_ch) fed).working
        || member "192.168.1.77" filled.inflight)
      ≡ true)
unfolding new_manager member
drain-IsReached_example =
    drain-IsReached filled two_ticks "192.168.1.77" refl refl refl (omega arith) refl
