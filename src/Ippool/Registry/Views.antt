-- ===== src/Ippool/Registry/Views.antt =====
-- The order of `Snapshot`.
use mathlib.Core.List.{Perm, reverse_perm, append-nil, perm_middle}
use mathlib.Core.List.Perm
use tmap.Base.{List, [], ◌∷◌, ◌++◌, if_case, subst}
use tmap.Base.Float.{Float64}
use tmap.Ippool.Types.{DevicePoolEntry}
use tmap.Ippool.Candidates.{ip_less}
use tmap.Ippool.Registry.{shift_left, sort_from, sort_by_ip}

module _ {F : Type 0} ⦃f : Float64 F⦄ where
  shift_left-Perm :
      (e : DevicePoolEntry F) (before : List (DevicePoolEntry F))
      → Perm (shift_left e before) (e ∷ before)
  unfolding shift_left
  shift_left-Perm e [] = Perm.rfl
  shift_left-Perm e (d ∷ before) =
      if_case (λ r. Perm r (e ∷ d ∷ before)) (ip_less e.ip d.ip)
        (Perm.trans (Perm.cons d (shift_left-Perm e before)) (Perm.swap e d before)) Perm.rfl

  sort_from-Perm :
      (es before : List (DevicePoolEntry F)) → Perm (sort_from before es) (es ++ before)
  unfolding sort_from
  sort_from-Perm [] before = Perm.rfl
  sort_from-Perm (e ∷ es) before =
      Perm.trans (sort_from-Perm es (shift_left e before))
        (Perm.trans (Perm.append_left es (shift_left-Perm e before)) (perm_middle es before))

  -- The sort of a snapshot returns the entries that it was given, each as often.
  pub sort_by_ip-Perm : (es : List (DevicePoolEntry F)) → Perm (sort_by_ip es) es
  unfolding sort_by_ip
  sort_by_ip-Perm es =
      Perm.trans (reverse_perm _) (subst (Perm _) (append-nil es) (sort_from-Perm es []))
