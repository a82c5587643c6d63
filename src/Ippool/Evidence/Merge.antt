-- ===== src/Ippool/Evidence/Merge.antt =====
-- What `merge_evidence` does to the list of one entry, seen as a map from merge keys.
use text.Mathlib.TextEquality.{eq_iff}
use tmap.Base.{
  ◌≤◌, ◌≡◌, refl, false, Option, none, some, List, [], ◌∷◌, String, str_eq, if◌then◌else◌, arith,
}
use tmap.Base.Float.{Float64}
use tmap.Ippool.Types.{EvidenceItem}
use tmap.Ippool.Evidence.{evidence_rank, evidence_merge_key, is_stronger, merge_evidence}

module _ {F : Type 0} ⦃f : Float64 F⦄ where
  -- The first item of a key.
  abbrev pub item_of : String → List (EvidenceItem F) → Option (EvidenceItem F)
  item_of k [] = none
  item_of k (x ∷ xs) = if str_eq (evidence_merge_key x) k then some x else item_of k xs

  -- No two items have one key.
  abbrev pub IsDeduplicated : List (EvidenceItem F) → Type 0
  IsDeduplicated [] = Unit
  IsDeduplicated (x ∷ xs) = (item_of (evidence_merge_key x) xs ≡ none) × IsDeduplicated xs

  -- What stands under the key of `item` after the merge, given what stood there.
  abbrev pub winner : Option (EvidenceItem F) → EvidenceItem F → EvidenceItem F
  winner none item = item
  winner (some old) item = if is_stronger item old then item else old

  -- The merge changes nothing but the entry of the item's own key, where the stronger of the old and
  -- the new item stands afterwards.
  pub item_of-merge :
      (xs : List (EvidenceItem F)) (item : EvidenceItem F) (k : String)
      → item_of k (merge_evidence xs item).0 ≡ (
          if str_eq (evidence_merge_key item) k
          then some (winner (item_of k xs) item)
          else item_of k xs)
  unfolding merge_evidence
  item_of-merge [] item k = refl
  item_of-merge (old ∷ rest) item k = ground (
    arith,
    eq_iff (evidence_merge_key old) (evidence_merge_key item),
    eq_iff (evidence_merge_key old) k,
    eq_iff (evidence_merge_key item) k,
    item_of-merge rest item k,
  )

  -- The merge into a list that has no key twice gives one that has no key twice.
  pub merge-IsDeduplicated :
      (xs : List (EvidenceItem F)) (item : EvidenceItem F)
      → IsDeduplicated xs
      → IsDeduplicated (merge_evidence xs item).0
  unfolding merge_evidence
  merge-IsDeduplicated [] item h = (refl, tt)
  merge-IsDeduplicated (old ∷ rest) item h = ground (
    arith,
    eq_iff (evidence_merge_key old) (evidence_merge_key item),
    eq_iff (evidence_merge_key item) (evidence_merge_key old),
    item_of-merge rest item (evidence_merge_key old),
    merge-IsDeduplicated rest item,
  )

  -- A merge that reports no change makes none.
  pub merge_unchanged :
      (xs : List (EvidenceItem F)) (item : EvidenceItem F)
      → (merge_evidence xs item).1 ≡ false
      → (merge_evidence xs item).0 ≡ xs
  unfolding merge_evidence
  merge_unchanged [] item h = cc
  merge_unchanged (old ∷ rest) item h = ground (arith, merge_unchanged rest item)

  -- Where an impact is not above itself, the same item merged again changes nothing.
  pub merge_again :
      (xs : List (EvidenceItem F)) (item : EvidenceItem F)
      → f.lt item.confidence_impact item.confidence_impact ≡ false
      → merge_evidence (merge_evidence xs item).0 item ≡ ((merge_evidence xs item).0, false)
  unfolding merge_evidence is_stronger
  merge_again [] item h = ground (arith, eq_iff (evidence_merge_key item) (evidence_merge_key item))
  merge_again (old ∷ rest) item h = ground (
    arith,
    eq_iff (evidence_merge_key old) (evidence_merge_key item),
    eq_iff (evidence_merge_key item) (evidence_merge_key item),
    merge_again rest item h,
  )

  -- Where a key had an item before and has one afterwards, the rank of its item has not fallen.
  pub rank-merge :
      (xs : List (EvidenceItem F)) (item : EvidenceItem F) (k : String) {x y : EvidenceItem F}
      → item_of k xs ≡ some x
      → item_of k (merge_evidence xs item).0 ≡ some y
      → evidence_rank x.strength ≤ evidence_rank y.strength
  unfolding is_stronger
  rank-merge xs item k hx hy = ground (arith, item_of-merge xs item k)
