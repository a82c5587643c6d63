-- ===== src/Ippool/Scorer/Verdict.antt =====
-- How the scorer ends: `detectConflicts`, `classification`, `confidence` and `whyNotCertain`.
pub mod Rules
use Prim.Native.String.{compare as compare_text}
use text.Mathlib.Text.{is_lt}
use tmap.Base.{
  ℕ, Bool, true, false, ◌&&◌, ◌||◌, not, Option, none, some, List, [], ◌∷◌, ◌++◌, String, str_eq,
  is_empty, member, if◌then◌else◌, ltb, leb, ◌==◌, length, ◌≡◌, ◌≤◌, ◌⊎◌, ◌↔◌, arith, inl, inr,
  refl,
}
use tmap.Base.Map.{lookup}
use tmap.Base.Float.{Float64}
use tmap.Ippool.Types.{MobileConflictItem}
use tmap.Ippool.Scorer.{Scorer, ios_os, ipados_os, android_os, list_or_nil, number_or_zero}

abbrev pub max_int : ℕ → ℕ → ℕ
max_int a b = if ltb b a then a else b

-- `sort.Strings`, by insertion.
insert_text : String → List String → List String
insert_text t [] = t ∷ []
insert_text t (s ∷ ss) =
    let rest = insert_text t ss in if is_lt (compare_text s t) then s ∷ rest else t ∷ s ∷ ss

sort_texts : List String → List String
unfolding insert_text
sort_texts [] = []
sort_texts (s ∷ ss) = insert_text s (sort_texts ss)

-- The last text that went out decides whether the next one is a repetition.
drop_repeats : String → List String → List String
drop_repeats last [] = []
drop_repeats last (s ∷ ss) =
    let skip = drop_repeats last ss in
    let more = drop_repeats s ss in if is_empty s || str_eq last s then skip else s ∷ more

-- `sortedStrings`
unfoldable pub sorted_strings : List String → List String
unfolding sort_texts drop_repeats
sorted_strings values = drop_repeats "" (sort_texts values)

unfoldable pub detect_conflicts : Scorer → Scorer
unfolding sorted_strings
detect_conflicts s =
    let ids = λ (os : String). list_or_nil (lookup os s.ids_by_os) in
    let conflict : MobileConflictItem = record {
      reason = "Apple mobile evidence and Android evidence were both observed.";
      ios_evidence_ids = sorted_strings (ids ios_os ++ ids ipados_os);
      android_evidence_ids = sorted_strings (ids android_os);
      severity = "warning";
      resolution_hint = "Treat as conflicting until a second independent source agrees.";
    } in
    if leb 35 (max_int s.ios_score s.ipad_score) && leb 35 s.android_score
    then record s { conflicts = s.conflicts ++ (conflict ∷ []) }
    else s

abbrev pub os_rank : String → ℕ
os_rank os =
    if str_eq os ios_os
    then 0
    else if str_eq os ipados_os
    then 1
    else if str_eq os android_os
    then 2
    else 3

-- The comparison of the candidates: the higher score, and by rank where the scores are equal.
abbrev pub comes_first : String × ℕ → String × ℕ → Bool
comes_first a b = if not (a.1 == b.1) then ltb b.1 a.1 else ltb (os_rank a.0) (os_rank b.0)

abbrev pub first_of : String × ℕ → String × ℕ → String × ℕ
first_of a b = if comes_first b a then b else a

-- The candidate that a stable sort puts first.
unfoldable pub best_of : Scorer → String × ℕ
best_of s =
    first_of (first_of (ios_os, s.ios_score) (ipados_os, s.ipad_score))
      (android_os, s.android_score)

unfoldable pub confirmed_class : String → String
confirmed_class os =
    if str_eq os ipados_os
    then "confirmed_ipados"
    else if str_eq os android_os
    then "confirmed_android"
    else "confirmed_ios"

unfoldable pub probable_class : String → String
probable_class os =
    if str_eq os ipados_os
    then "probable_ipados"
    else if str_eq os android_os
    then "probable_android"
    else "probable_ios"

unfoldable pub possible_class : String → String
possible_class os =
    if str_eq os ipados_os
    then "possible_ipados"
    else if str_eq os android_os
    then "possible_android"
    else "possible_ios"

-- Whether all the evidence of a system is of one category.
unfoldable pub only_category : String → Scorer → String → Bool
unfolding member
only_category category s os =
    let cats = list_or_nil (lookup os s.cats_by_os) in length cats == 1 && member category cats

abbrev pub only_dns : Scorer → String → Bool
only_dns = only_category "dns_query"

abbrev pub only_mac : Scorer → String → Bool
only_mac = only_category "mac_oui"

unfoldable pub classification : Scorer → String
unfolding best_of confirmed_class probable_class possible_class
classification s =
    let best = best_of s in
    if ltb 0 (length s.conflicts)
    then "conflicting_mobile_os_evidence"
    else if best.1 == 0
    then "unknown_device"
    else if only_dns s best.0
    then possible_class best.0
    else if s.random_mac && only_mac s best.0 && ltb best.1 20
    then "unknown_mobile"
    else if leb 80 best.1 && leb 2 (number_or_zero (lookup best.0 s.strong_by_os))
    then confirmed_class best.0
    else if leb 60 best.1
    then probable_class best.0
    else if leb 20 best.1
    then possible_class best.0
    else "unknown_mobile"

abbrev pub is_confirmed : String → Bool
is_confirmed c = member c ("confirmed_ios" ∷ "confirmed_ipados" ∷ "confirmed_android" ∷ [])

abbrev pub is_probable : String → Bool
is_probable c = member c ("probable_ios" ∷ "probable_ipados" ∷ "probable_android" ∷ [])

abbrev pub is_possible : String → Bool
is_possible c = member c ("possible_ios" ∷ "possible_ipados" ∷ "possible_android" ∷ [])

module _ {F : Type 0} ⦃f : Float64 F⦄ where
  unfoldable pub confidence : Scorer → String → F
  unfolding member
  confidence s c =
      if is_confirmed c
      then f.lit 90 100
      else if is_probable c
      then f.lit 72 100
      else if is_possible c
      then (if s.random_mac then f.lit 34 100 else f.lit 42 100)
      else if str_eq c "conflicting_mobile_os_evidence"
      then f.lit 45 100
      else if str_eq c "unknown_mobile"
      then f.lit 22 100
      else f.lit 0 1

unfoldable pub why_not_certain : String → String
unfolding member
why_not_certain c =
    if is_confirmed c || str_eq c "unknown_device"
    then ""
    else if str_eq c "conflicting_mobile_os_evidence"
    then "The evidence points to more than one mobile OS family, so the result is not certain."
    else "This classification is evidence-based, not guaranteed. Weak or single-source signals are shown as possible/probable rather than confirmed."
