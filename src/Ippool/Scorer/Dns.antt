-- ===== src/Ippool/Scorer/Dns.antt =====
-- Devices of which only DNS metadata is known.
use tmap.Base.{
  ℕ, ◌≡◌, ◌⊎◌, inl, inr, refl, sym, ◌∙◌, true, false, Option, none, some, List, [], ◌∷◌, String,
  str_eq, member, if◌then◌else◌, if_case, Bool-cases, arith, ltb, leb, ◌&&◌, length, ◌==◌, to_lower,
  trim_space,
}
use tmap.Base.Map.{lookup, lookup-insert}
use tmap.Ippool.Scorer.{
  Scorer, new_scorer, ios_os, ipados_os, android_os, track, add_evidence_item, add_apple,
  add_android, score_dns_category,
}
use tmap.Ippool.Scorer.Verdict.{
  detect_conflicts, best_of, first_of, comes_first, max_int, only_dns, only_category,
  classification, is_confirmed, is_probable,
}
use tmap.Ippool.Scorer.Verdict.Rules.{no_flip, confirmed-possible_class, probable-possible_class}

-- The DNS metadata of a device: values, sources and times, in the order in which they are scored.
unfoldable pub score_queries : Scorer → List (String × String × String) → Scorer
unfolding score_dns_category
score_queries s [] = s
score_queries s ((value, source, ts) ∷ qs) = score_queries (score_dns_category s value source ts) qs

abbrev IsDns : Option (List String) → Type 0
IsDns o = o ≡ some ("dns_query" ∷ [])

-- The points of a system.
abbrev points : Scorer → String → ℕ
points s os =
    if str_eq ios_os os
    then s.ios_score
    else if str_eq ipados_os os
    then s.ipad_score
    else if str_eq android_os os
    then s.android_score
    else 0

-- A system has neither evidence nor points, or its evidence is DNS queries alone.
abbrev StandsDns : Scorer → String → Type 0
StandsDns s os =
    ((lookup os s.cats_by_os ≡ none) × (points s os ≡ 0)) ⊎ IsDns (lookup os s.cats_by_os)

abbrev IsDnsOnly : Scorer → Type 0
IsDnsOnly s = (os : String) → StandsDns s os

-- What a query leaves under the system that it is counted for, and under the others.
track-cats :
    (s : Scorer) (os k strength id : String)
    → ((lookup os s.cats_by_os ≡ none) ⊎ IsDns (lookup os s.cats_by_os))
    → lookup k (track s os "dns_query" strength id).cats_by_os
      ≡ (if str_eq os k then some ("dns_query" ∷ []) else lookup k s.cats_by_os)
unfolding track member
track-cats s os k strength id (inl e) = rw (e, lookup-insert) refl
track-cats s os k strength id (inr e) = rw (e, lookup-insert) refl

no_points :
    (s : Scorer) (os : String)
    → StandsDns s os
    → (lookup os s.cats_by_os ≡ none) ⊎ IsDns (lookup os s.cats_by_os)
no_points s os (inl h) = inl h.0
no_points s os (inr h) = inr h

carry : (o p : Option (List String)) → p ≡ o → (o ≡ none) ⊎ IsDns o → (p ≡ none) ⊎ IsDns p
carry o p e (inl h) = inl (e ∙ h)
carry o p e (inr h) = inr (e ∙ h)

keep :
    (s t : Scorer) (os : String)
    → lookup os t.cats_by_os ≡ lookup os s.cats_by_os
    → points t os ≡ points s os
    → StandsDns s os
    → StandsDns t os
keep s t os e p (inl h) = inl (e ∙ h.0, p ∙ h.1)
keep s t os e p (inr h) = inr (e ∙ h)

android-IsDnsOnly :
    (s : Scorer) (value source ts explanation : String)
    → IsDnsOnly s
    → IsDnsOnly (add_android s "dns_query" value 20 "weak" source ts explanation)
unfolding add_android add_evidence_item track
android-IsDnsOnly s value source ts explanation d os =
    let cats = track-cats s android_os os "weak" "" (no_points s android_os (d android_os)) in
    elim (Bool-cases (str_eq android_os os)) [
      | inl e ↦ inr (cats ∙ rw e refl)
      | inr n ↦
          keep s (add_android s "dns_query" value 20 "weak" source ts explanation) os
            (cats ∙ rw n refl) (rw n refl) (d os)
    ]

apple-IsDnsOnly :
    (s : Scorer) (value source ts explanation : String)
    → IsDnsOnly s
    → IsDnsOnly (add_apple s "dns_query" value 20 "weak" source ts explanation)
unfolding add_apple add_evidence_item track
apple-IsDnsOnly s value source ts explanation d os =
    let first = track s ios_os "dns_query" "weak" "" in
    let cats = λ (k : String). track-cats s ios_os k "weak" "" (no_points s ios_os (d ios_os)) in
    let both =
      track-cats first ipados_os os "weak" ""
        (carry _ _ (cats ipados_os) (no_points s ipados_os (d ipados_os))) in
    elim (Bool-cases (str_eq ipados_os os)) [
      | inl e ↦ inr (both ∙ rw e refl)
      | inr n ↦ elim (Bool-cases (str_eq ios_os os)) [
        | inl e ↦ inr (both ∙ (rw n refl ∙ (cats os ∙ rw e refl)))
        | inr m ↦
            keep s (add_apple s "dns_query" value 20 "weak" source ts explanation) os
              (both ∙ (rw n refl ∙ (cats os ∙ rw m refl))) (rw (n, m) refl) (d os)
      ]
    ]

query-IsDnsOnly :
    (s : Scorer) (value source ts : String)
    → IsDnsOnly s
    → IsDnsOnly (score_dns_category s value source ts)
unfolding score_dns_category
query-IsDnsOnly s value source ts d os =
    let category = to_lower (trim_space value) in
    elim (Bool-cases (str_eq category "apple_service_domain_seen")) [
      | inl e ↦ rw (e, score_dns_category) (apple-IsDnsOnly s _ source ts _ d os)
      | inr n ↦ elim (Bool-cases (str_eq category "android_google_service_domain_seen")) [
        | inl e ↦ rw (n, e, score_dns_category) (android-IsDnsOnly s _ source ts _ d os)
        | inr m ↦ rw (n, m, score_dns_category) (d os)
      ]
    ]

queries-IsDnsOnly :
    (qs : List (String × String × String)) (s : Scorer)
    → IsDnsOnly s
    → IsDnsOnly (score_queries s qs)
unfolding score_queries
queries-IsDnsOnly [] s d = d
queries-IsDnsOnly ((value, source, ts) ∷ qs) s d =
    queries-IsDnsOnly qs (score_dns_category s value source ts)
      (query-IsDnsOnly s value source ts d)

best-points : (s : Scorer) → points s (best_of s).0 ≡ (best_of s).1
unfolding best_of
best-points s =
    let apple = first_of (ios_os, s.ios_score) (ipados_os, s.ipad_score) in
    if_case {A = String × ℕ} (λ b. points s b.0 ≡ b.1)
      (comes_first (android_os, s.android_score) apple) refl
      (if_case {A = String × ℕ} (λ b. points s b.0 ≡ b.1)
        (comes_first (ipados_os, s.ipad_score) (ios_os, s.ios_score)) refl refl)

some-only_dns : (s : Scorer) (os : String) → IsDns (lookup os s.cats_by_os) → only_dns s os ≡ true
unfolding only_category member
some-only_dns s os h = rw h refl

zero_test : (n : ℕ) → n ≡ 0 → (n == 0) ≡ true
zero_test n e = rw e refl

IsMild : String → Type 0
IsMild c = (is_confirmed c ≡ false) × (is_probable c ≡ false)

verdict-IsMild : (s : Scorer) → IsDnsOnly s → IsMild (classification s)
unfolding classification member IsMild
verdict-IsMild s d =
    let best = best_of s in
    elim (Bool-cases (ltb 0 (length s.conflicts))) [
      | inl c ↦ rw (c, classification) (refl, refl)
      | inr c ↦ elim (Bool-cases (best.1 == 0)) [
        | inl z ↦ rw (c, z, classification) (refl, refl)
        | inr z ↦ elim (d best.0) [
          | inl h ↦ absurd (no_flip (sym z ∙ zero_test best.1 (sym (best-points s) ∙ h.1)))
          | inr h ↦
              rw (c, z, some-only_dns s best.0 h, classification)
                (confirmed-possible_class best.0, probable-possible_class best.0)
        ]
      ]
    ]

detect-IsDnsOnly : (s : Scorer) → IsDnsOnly s → IsDnsOnly (detect_conflicts s)
unfolding detect_conflicts
detect-IsDnsOnly s d os =
    elim (Bool-cases (leb 35 (max_int s.ios_score s.ipad_score) && leb 35 s.android_score)) [
      | inl e ↦ rw (e, detect_conflicts) (d os)
      | inr e ↦ rw (e, detect_conflicts) (d os)
    ]

-- Whatever DNS queries a device makes, and in whatever order, no classification that rests on them
-- alone is confirmed or probable.
pub dns_alone :
    (now : String) (qs : List (String × String × String))
    → (is_confirmed (classification (detect_conflicts (score_queries (new_scorer now) qs))) ≡ false)
      × (is_probable (classification (detect_conflicts (score_queries (new_scorer now) qs)))
          ≡ false)
unfolding new_scorer lookup IsMild
dns_alone now qs =
    verdict-IsMild _
      (detect-IsDnsOnly _ (queries-IsDnsOnly qs (new_scorer now) λ os. inl (refl, ground arith)))
