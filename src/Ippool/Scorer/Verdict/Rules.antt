-- ===== src/Ippool/Scorer/Verdict/Rules.antt =====
-- What a verdict needs.
use tmap.Base.{
  ◌≤◌, ◌≡◌, ◌↔◌, ◌⊎◌, inl, inr, refl, sym, ◌∙◌, Bool, true, false, ◌&&◌, [], String, str_eq, member,
  if◌then◌else◌, if_case, Bool-cases, arith, leb, ltb, length, ◌==◌,
}
use tmap.Base.Map.{lookup}
use tmap.Ippool.Scorer.{Scorer, ipados_os, android_os, number_or_zero}
use tmap.Ippool.Scorer.Verdict.{
  detect_conflicts, best_of, only_dns, only_mac, only_category, classification, confirmed_class,
  probable_class, possible_class, is_confirmed, is_probable, max_int,
}

-- No system has a higher score than the one that comes first.
best_of-is_highest :
    (s : Scorer)
    → (s.ios_score ≤ (best_of s).1)
      × (s.ipad_score ≤ (best_of s).1)
      × (s.android_score ≤ (best_of s).1)
unfolding best_of
best_of-is_highest s = ground arith

pub no_flip : false ≡ true → ⊥
no_flip h = cc

pub confirmed-possible_class : (os : String) → is_confirmed (possible_class os) ≡ false
unfolding possible_class member
confirmed-possible_class os = elim (Bool-cases (str_eq os ipados_os)) [
  | inl e ↦ rw (e, possible_class) refl
  | inr i ↦ elim (Bool-cases (str_eq os android_os)) [
    | inl e ↦ rw (i, e, possible_class) refl
    | inr a ↦ rw (i, a, possible_class) refl
  ]
]

pub probable-possible_class : (os : String) → is_probable (possible_class os) ≡ false
unfolding possible_class member
probable-possible_class os = elim (Bool-cases (str_eq os ipados_os)) [
  | inl e ↦ rw (e, possible_class) refl
  | inr i ↦ elim (Bool-cases (str_eq os android_os)) [
    | inl e ↦ rw (i, e, possible_class) refl
    | inr a ↦ rw (i, a, possible_class) refl
  ]
]

confirmed-probable_class : (os : String) → is_confirmed (probable_class os) ≡ false
unfolding probable_class member
confirmed-probable_class os = elim (Bool-cases (str_eq os ipados_os)) [
  | inl e ↦ rw (e, probable_class) refl
  | inr i ↦ elim (Bool-cases (str_eq os android_os)) [
    | inl e ↦ rw (i, e, probable_class) refl
    | inr a ↦ rw (i, a, probable_class) refl
  ]
]

confirmed-below :
    (os : String) (a b : Bool)
    → is_confirmed
        (if a then probable_class os else if b then possible_class os else "unknown_mobile")
      ≡ false
unfolding member
confirmed-below os true b = confirmed-probable_class os
confirmed-below os false true = confirmed-possible_class os
confirmed-below os false false = refl

-- A classification is confirmed only if there is no conflict, and the system with the highest score
-- has at least 80 points, two strong pieces of evidence, and other evidence than DNS queries.
pub confirmed_needs :
    (s : Scorer)
    → is_confirmed (classification s) ≡ true
    → (length s.conflicts ≡ 0)
      × (80 ≤ (best_of s).1)
      × (2 ≤ number_or_zero (lookup (best_of s).0 s.strong_by_os))
      × (only_dns s (best_of s).0 ≡ false)
      × (s.ios_score ≤ (best_of s).1)
      × (s.ipad_score ≤ (best_of s).1)
      × (s.android_score ≤ (best_of s).1)
unfolding classification member
confirmed_needs s h =
    let best = best_of s in
    let strong = number_or_zero (lookup best.0 s.strong_by_os) in
    elim (Bool-cases (ltb 0 (length s.conflicts))) [
      | inl c ↦ absurd (no_flip (rw c at h))
      | inr c ↦ elim (Bool-cases (best.1 == 0)) [
        | inl z ↦ absurd (no_flip (rw (c, z) at h))
        | inr z ↦ elim (Bool-cases (only_dns s best.0)) [
          | inl d ↦ absurd (no_flip (sym (confirmed-possible_class best.0) ∙ (rw (c, z, d) at h)))
          | inr d ↦ elim (Bool-cases (s.random_mac && only_mac s best.0 && ltb best.1 20)) [
            | inl m ↦ absurd (no_flip (rw (c, z, d, m) at h))
            | inr m ↦ elim (Bool-cases (leb 80 best.1 && leb 2 strong)) [
              | inl q ↦
                  let highest = best_of-is_highest s in
                  (ground arith, ground arith, ground arith, d, highest.0, highest.1, highest.2)
              | inr q ↦ absurd (
                  no_flip (
                    sym (confirmed-below best.0 (leb 60 best.1) (leb 20 best.1))
                    ∙ (rw (c, z, d, m, q) at h)))
            ]
          ]
        ]
      ]
    ]

-- Not the text of a conflict.
record IsCalm (c : String) : Type 0 where
  differs : str_eq c "conflicting_mobile_os_evidence" ≡ false

class-IsCalm :
    (os : String)
    → IsCalm (confirmed_class os) × IsCalm (probable_class os) × IsCalm (possible_class os)
unfolding confirmed_class probable_class possible_class
class-IsCalm os = (
  if_case IsCalm (str_eq os ipados_os) (record { differs = refl })
      (if_case IsCalm (str_eq os android_os) (record { differs = refl })
        (record { differs = refl })),
  if_case IsCalm (str_eq os ipados_os) (record { differs = refl })
      (if_case IsCalm (str_eq os android_os) (record { differs = refl })
        (record { differs = refl })),
  if_case IsCalm (str_eq os ipados_os) (record { differs = refl })
      (if_case IsCalm (str_eq os android_os) (record { differs = refl })
        (record { differs = refl })),
)

-- Without a conflict the verdict is none.
classification-IsCalm : (s : Scorer) → s.conflicts ≡ [] → IsCalm (classification s)
unfolding classification only_category
classification-IsCalm s e =
    let best = best_of s in
    let strong = number_or_zero (lookup best.0 s.strong_by_os) in
    let class = class-IsCalm best.0 in
    rw e (
      if_case IsCalm (best.1 == 0) (record { differs = refl })
        (if_case IsCalm (only_dns s best.0) class.2 (
          if_case IsCalm (s.random_mac && only_mac s best.0 && ltb best.1 20)
            (record { differs = refl })
            (if_case IsCalm (leb 80 best.1 && leb 2 strong) class.0 (
              if_case IsCalm (leb 60 best.1) class.1
                (if_case IsCalm (leb 20 best.1) class.2 (record { differs = refl })))))))

calm : (s : Scorer) → s.conflicts ≡ [] → classification s ≡ "conflicting_mobile_os_evidence" → ⊥
calm s e h = no_flip (sym (rw h at (classification-IsCalm s e).differs))

-- Where no conflict was found before, the verdict is a conflict exactly when Android and one of the
-- two Apple systems have at least 35 points each.
pub conflict_iff :
    (s : Scorer)
    → s.conflicts ≡ []
    → (classification (detect_conflicts s) ≡ "conflicting_mobile_os_evidence")
      ↔ ((35 ≤ s.android_score) × ((35 ≤ s.ios_score) ⊎ (35 ≤ s.ipad_score)))
unfolding classification detect_conflicts
conflict_iff s e =
    elim (Bool-cases (leb 35 (max_int s.ios_score s.ipad_score) && leb 35 s.android_score)) [
      | inl c ↦ rw (c, e, classification, detect_conflicts) ((λ h. ground arith), λ h. refl)
      | inr c ↦ rw (c, detect_conflicts) ((λ h. absurd (calm s e h)), λ h. absurd (ground arith))
    ]
