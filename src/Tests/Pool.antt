-- ===== src/Tests/Pool.antt =====
-- The theorems on the pool at concrete entries.
use tmap.Base.{ℕ, ◌≡◌, refl, some, List, [], ◌∷◌, String, str_eq, if◌then◌else◌, arith}
use tmap.Base.Int.{pos}
use tmap.Base.Map.{lookup, insert}
use tmap.Ippool.Types.{
  active, candidate, candidates, EvidenceItem, DevicePoolEntry, MobileFingerprint, Instant,
  confirmed, weak,
}
use tmap.Ippool.Config.{default_config, normalized}
use tmap.Ippool.Evidence.{merge_evidence, evidence_merge_key}
use tmap.Ippool.Evidence.Merge.{
  item_of, winner, IsDeduplicated, item_of-merge, merge-IsDeduplicated,
}
use tmap.Ippool.Pool.{DevicePool, new_device_pool, new_entry, respond, record_success}
use tmap.Ippool.Pool.Streak.{Stands, failures, after_answer, answer_streak}
use tmap.Ippool.Registry.{is_gone, count_status, clear_stale}
use tmap.Ippool.Registry.Sound.{IsValid, new-IsValid, success-IsValid}
use tmap.Ippool.Registry.History.{
  Call, ensures, succeeds, fails, observes, clears, step, run, run-IsValid,
}
use tmap.Ippool.Registry.Size.{IsWithin, step-IsWithin, success_overflows}
use tmap.Ippool.Registry.Clearing.{kept, clear_stale_lem}
use tmap.Tests.Config.{thousandths}

abbrev pub noon : Instant
noon = record { unix_milli = 43200000; rfc3339 = "2024-05-01T12:00:00Z" }

abbrev pub host : String
host = "192.168.1.20"

abbrev pub ping : EvidenceItem ℕ
ping = record {
  type = "ping_response";
  source = "ping";
  value = host;
  timestamp = noon.rfc3339;
  confidence_impact = 400;
  strength = confirmed;
}

abbrev weak_ping : EvidenceItem ℕ
weak_ping = record ping { strength = weak }

abbrev pub unknown_phone : DevicePoolEntry ℕ → Instant → MobileFingerprint ℕ
unknown_phone e now = record {
  classification = "unknown";
  ios_score = pos 0;
  android_score = pos 0;
  ipad_score = pos 0;
  confidence = 0;
  evidence = [];
  conflicts = [];
  warnings = [];
  last_updated_at = now.rfc3339;
  why_this_classification = "";
  why_not_certain = "";
}

abbrev empty_pool : DevicePool ℕ
empty_pool = new_device_pool default_config

abbrev candidate_pool : DevicePool ℕ
candidate_pool = record empty_pool { entries = (host, new_entry host candidates noon.rfc3339) ∷ [] }

abbrev answered_pool : DevicePool ℕ
answered_pool = (record_success empty_pool noon host 12000 (pos 64) candidates).0

-- A pool of one place, which another device has taken.
abbrev full_pool : DevicePool ℕ
full_pool = record candidate_pool { cfg = record default_config { max_pool_size = pos 1 } }

abbrev calls : List (Instant × Call ℕ)
calls =
    (noon, ensures host candidates)
    ∷ (noon, succeeds host 12000 (pos 64) candidates)
    ∷ (noon, observes host ping)
    ∷ (noon, fails host)
    ∷ (noon, clears)
    ∷ []

answered-Stands : Stands answered_pool host (normalized default_config) active 0
unfolding record_success respond new_device_pool lookup insert
answered-Stands =
    (respond (new_entry host candidates noon.rfc3339) noon 12000 (pos 64), refl, refl, refl, refl)

candidate-Stands : Stands candidate_pool host (normalized default_config) candidate 0
unfolding new_device_pool new_entry lookup
candidate-Stands = (new_entry host candidates noon.rfc3339, refl, refl, refl, refl)

answer_streak_example :
    Stands
      (failures (λ n. noon) 2 answered_pool host)
      host
      (normalized default_config)
      (after_answer 1 3 2)
      2
unfolding normalized default_config
answer_streak_example =
    answer_streak (λ n. noon) answered_pool host (normalized default_config) 1 3 2 refl refl
      (omega arith) (omega arith) answered-Stands

run-IsValid_example : IsValid (run unknown_phone (new_device_pool default_config) calls)
run-IsValid_example = run-IsValid unknown_phone default_config calls

step-IsWithin_example :
    IsWithin (step unknown_phone full_pool (noon, ensures "192.168.1.21" candidates))
step-IsWithin_example =
    step-IsWithin unknown_phone full_pool noon (ensures "192.168.1.21" candidates) tt (omega arith)

success_overflows_example :
    ¬ IsWithin (record_success full_pool noon "192.168.1.21" 12000 (pos 64) candidates).0
unfolding lookup
success_overflows_example =
    success_overflows full_pool noon "192.168.1.21" 12000 (pos 64) candidates refl refl

clear_stale_lem_example :
    ((k : String)
      → lookup k (clear_stale answered_pool).0.entries ≡ kept (lookup k answered_pool.entries))
    × ((clear_stale answered_pool).1 ≡ count_status is_gone answered_pool.entries)
clear_stale_lem_example =
    clear_stale_lem answered_pool
      (success-IsValid empty_pool noon host 12000 (pos 64) candidates (new-IsValid default_config))

abbrev two_devices : List (DevicePoolEntry ℕ)
two_devices = new_entry host candidates "" ∷ new_entry "192.168.1.3" candidates "" ∷ []

item_of-merge_example :
    item_of (evidence_merge_key ping) (merge_evidence (weak_ping ∷ []) ping).0 ≡ (
      if str_eq (evidence_merge_key ping) (evidence_merge_key ping)
      then some (winner (item_of (evidence_merge_key ping) (weak_ping ∷ [])) ping)
      else item_of (evidence_merge_key ping) (weak_ping ∷ []))
item_of-merge_example = item_of-merge (weak_ping ∷ []) ping (evidence_merge_key ping)

merge-IsDeduplicated_example : IsDeduplicated (merge_evidence (weak_ping ∷ []) ping).0
merge-IsDeduplicated_example = merge-IsDeduplicated (weak_ping ∷ []) ping (refl, tt)
