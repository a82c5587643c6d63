-- ===== src/Ippool/Registry/Clearing.antt =====
-- What `ClearStale` removes.
use text.Mathlib.TextEquality.{eq_iff}
use tmap.Base.{
  ℕ, suc, ◌+◌, ◌≡◌, refl, ◌∙◌, Bool, false, Option, none, some, String, [], ◌∷◌, str_eq, ◌&&◌, ◌||◌,
  arith, if◌then◌else◌, Bool-cases, inl, inr,
}
use tmap.Base.Map.{Map, lookup, delete, lookup-delete, Keyed}
use tmap.Base.Float.{Float64}
use tmap.Ippool.Types.{DevicePoolEntry}
use tmap.Ippool.Pool.{DevicePool}
use tmap.Ippool.Registry.{is_gone, count_status, clear_loop, clear_stale}
use tmap.Ippool.Registry.Sound.{IsValid}

-- The entry that stays.
abbrev pub kept : {F : Type 0} → Option (DevicePoolEntry F) → Option (DevicePoolEntry F)
kept none = none
kept (some e) = if is_gone e.status then none else some e

abbrev gone_in : {F : Type 0} → Option (DevicePoolEntry F) → Bool
gone_in none = false
gone_in (some e) = is_gone e.status

-- Whether some entry of the key is removed.
gone_any : {F : Type 0} → String → Map (DevicePoolEntry F) → Bool
gone_any k [] = false
gone_any k ((ip, e) ∷ m) = (str_eq ip k && is_gone e.status) || gone_any k m

gone_any-absent :
    {F : Type 0} (k : String) (m : Map (DevicePoolEntry F))
    → lookup k m ≡ none
    → gone_any k m ≡ false
unfolding gone_any lookup
gone_any-absent k [] h = refl
gone_any-absent k ((ip, e) ∷ m) h = ground (arith, gone_any-absent k m)

-- Where the keys are distinct, that is the entry found.
gone_any-Keyed :
    {F : Type 0} (k : String) (m : Map (DevicePoolEntry F))
    → Keyed m
    → gone_any k m ≡ gone_in (lookup k m)
unfolding gone_any lookup
gone_any-Keyed k [] h = refl
gone_any-Keyed k ((ip, e) ∷ m) h =
    ground (arith, eq_iff ip k, gone_any-absent k m, gone_any-Keyed k m h.1)

module _ {F : Type 0} ⦃f : Float64 F⦄ where
  lookup-clear_loop :
      (k : String) (m : Map (DevicePoolEntry F)) (p : DevicePool F) (n : ℕ)
      → lookup k (clear_loop m p n).0.entries ≡ (if gone_any k m then none else lookup k p.entries)
  unfolding clear_loop gone_any
  lookup-clear_loop k [] p n = refl
  lookup-clear_loop k ((ip, e) ∷ m) p n =
      let smaller = record p {
        entries = delete ip p.entries;
        consecutive_fail = delete ip p.consecutive_fail;
      } in
      elim (Bool-cases (is_gone e.status)) [
        | inl gone ↦
            rw (gone, clear_loop, gone_any)
              (lookup-clear_loop k m smaller (suc n) ∙ ground (arith, lookup-delete ip k p.entries))
        | inr stays ↦ rw (stays, clear_loop, gone_any) (lookup-clear_loop k m p n ∙ ground arith)
      ]

  count-clear_loop :
      (m : Map (DevicePoolEntry F)) (p : DevicePool F) (n : ℕ)
      → (clear_loop m p n).1 ≡ n + count_status is_gone m
  unfolding clear_loop count_status
  count-clear_loop [] p n = omega arith
  count-clear_loop ((ip, e) ∷ m) p n = elim (Bool-cases (is_gone e.status)) [
    | inl gone ↦ rw (gone, clear_loop, count_status) (omega (arith, count-clear_loop m _ (suc n)))
    | inr stays ↦ rw (stays, clear_loop, count_status) (count-clear_loop m p n)
  ]

  -- On a valid pool, clearing removes exactly the stale and the unreachable entries, leaves every
  -- other entry as it is, and returns the number of entries that it removed.
  pub clear_stale_lem :
      (p : DevicePool F)
      → IsValid p
      → ((k : String) → lookup k (clear_stale p).0.entries ≡ kept (lookup k p.entries))
        × ((clear_stale p).1 ≡ count_status is_gone p.entries)
  unfolding clear_stale
  clear_stale_lem p v = (
    λ k. lookup-clear_loop k p.entries p 0 ∙ ground (arith, gone_any-Keyed k p.entries v.keyed),
    count-clear_loop p.entries p 0 ∙ omega arith,
  )
