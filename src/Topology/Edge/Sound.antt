-- ===== src/Topology/Edge/Sound.antt =====
-- The edges that `newEdge` makes.
use Prim.Native.String.{compare as compare_text}
use text.Mathlib.Text.{is_lt}
use tmap.Base.{
  ℕ, suc, ◌≡◌, refl, sym, ◌∙◌, Bool, true, false, ◌||◌, not, List, [], ◌∷◌, String, str_eq,
  is_empty, member, if_case, Bool-cases, inl, inr, length, ◌==◌, All, arith, clash,
}
use tmap.Base.Float.{Float64, Ordered, le}
use tmap.Topology.Types.{inferred_l2, TopologyEdge}
use tmap.Topology.Confidence.{by_type-case, is_physical_evidence_edge, max_confidence}
use tmap.Topology.Confidence.Bounds.{clamp_confidence-floor, clamp_confidence-ceiling}
use tmap.Topology.Evidence.{dedup_sorted, fresh_ids, sort_strings, insert_sorted}
use tmap.Topology.Edge.{
  edge_id, edge_layer, edge_relationship, edge_line_style, edge_confidence, new_edge,
}
use tmap.Topology.Validate.{is_valid_edge_type}

abbrev pub IsKnown : List String → String → Type 0
IsKnown known id = member id known ≡ true

-- What an edge promises whose evidence is among `known`: the band of its type, a physical mark only
-- on a proven type, evidence behind every physical claim, and no blank field.
pub record IsWellFormed {F : Type 0} ⦃f : Float64 F⦄ (known : List String) (e : TopologyEdge F)
    : Type 0 where
  pub named : e.id ≡ edge_id e.source e.target e.type
  pub valid : is_valid_edge_type e.type ≡ true
  pub not_negative : le (f.lit 0 1) e.confidence ≡ true
  pub in_band : le e.confidence (max_confidence e.type) ≡ true
  pub marked : e.physical ≡ is_physical_evidence_edge e.type
  pub proven : is_physical_evidence_edge e.type ≡ true → (length e.evidence_ids == 0) ≡ false
  pub cited : All (IsKnown known) e.evidence_ids
  pub layered : is_empty e.layer ≡ false
  pub related : is_empty e.relationship ≡ false
  pub styled : is_empty e.ui_line_style ≡ false
  pub explained : is_empty e.reason ≡ false

edge_layer-filled : (type : String) → is_empty (edge_layer type) ≡ false
unfolding edge_layer
edge_layer-filled type =
    by_type-case (λ s. is_empty s ≡ false) type refl refl refl refl refl refl refl

edge_relationship-filled : (type : String) → is_empty (edge_relationship type) ≡ false
unfolding edge_relationship
edge_relationship-filled type =
    by_type-case (λ s. is_empty s ≡ false) type refl refl refl refl refl refl refl

insert_sorted-All :
    (P : String → Type 0) (t : String) (ss : List String)
    → P t
    → All P ss
    → All P (insert_sorted t ss)
unfolding insert_sorted
insert_sorted-All P t [] p h = (p, tt)
insert_sorted-All P t (s ∷ ss) p h =
    if_case (All P) (is_lt (compare_text s t)) (h.0, insert_sorted-All P t ss p h.1) (p, h)

sort_strings-All : (P : String → Type 0) (ss : List String) → All P ss → All P (sort_strings ss)
unfolding sort_strings
sort_strings-All P [] h = tt
sort_strings-All P (s ∷ ss) h =
    insert_sorted-All P s (sort_strings ss) h.0 (sort_strings-All P ss h.1)

fresh_ids-All :
    (P : String → Type 0) (seen ids : List String) → All P ids → All P (fresh_ids seen ids)
unfolding fresh_ids
fresh_ids-All P seen [] h = tt
fresh_ids-All P seen (id ∷ ids) h =
    if_case (All P) (is_empty id || member id seen) (fresh_ids-All P seen ids h.1)
      (h.0, fresh_ids-All P (id ∷ seen) ids h.1)

pub dedup_sorted-All :
    (P : String → Type 0) (ids : List String) → All P ids → All P (dedup_sorted ids)
unfolding dedup_sorted
dedup_sorted-All P ids h = sort_strings-All P (fresh_ids [] ids) (fresh_ids-All P [] ids h)

-- Whether a list has an identifier that is not empty.
unfoldable pub cites : List String → Bool
cites [] = false
cites (id ∷ ids) = not (is_empty id) || cites ids

suc_not_zero : (n : ℕ) → (suc n == 0) ≡ false
suc_not_zero n = ground arith

insert_sorted-filled : (t : String) (ss : List String) → (length (insert_sorted t ss) == 0) ≡ false
unfolding insert_sorted
insert_sorted-filled t [] = suc_not_zero 0
insert_sorted-filled t (s ∷ ss) =
    if_case (λ (l : List String). (length l == 0) ≡ false) (is_lt (compare_text s t))
      (suc_not_zero _) (suc_not_zero _)

sort_strings-filled :
    (ss : List String) → (length ss == 0) ≡ false → (length (sort_strings ss) == 0) ≡ false
unfolding sort_strings
sort_strings-filled [] h = h
sort_strings-filled (s ∷ ss) h = insert_sorted-filled s (sort_strings ss)

fresh_ids-filled : (ids : List String) → cites ids ≡ true → (length (fresh_ids [] ids) == 0) ≡ false
unfolding fresh_ids cites member
fresh_ids-filled [] h = clash false refl h
fresh_ids-filled (id ∷ ids) h = elim (Bool-cases (is_empty id)) [
  | inl blank ↦ rw blank (fresh_ids-filled ids (sym (rw blank refl) ∙ h))
  | inr filled ↦ rw filled (suc_not_zero _)
]

pub dedup_sorted-filled :
    (ids : List String) → cites ids ≡ true → (length (dedup_sorted ids) == 0) ≡ false
unfolding dedup_sorted
dedup_sorted-filled ids h = sort_strings-filled (fresh_ids [] ids) (fresh_ids-filled ids h)

module _ {F : Type 0} ⦃f : Float64 F⦄ where
  edge_line_style-filled : (type : String) (c : F) → is_empty (edge_line_style type c) ≡ false
  unfolding edge_line_style
  edge_line_style-filled type c =
      if_case (λ s. is_empty s ≡ false) (is_physical_evidence_edge type) refl
        (if_case (λ s. is_empty s ≡ false) (str_eq type inferred_l2 || f.lt c (f.lit 50 100)) refl
          refl)

  pub new_edge-IsWellFormed :
      (o : Ordered F) (known : List String) (source target type reason : String) (override : F)
      (ids : List String)
      → is_valid_edge_type type ≡ true
      → is_empty reason ≡ false
      → (is_physical_evidence_edge type ≡ true → cites ids ≡ true)
      → All (IsKnown known) ids
      → IsWellFormed known (new_edge source target type reason override ids)
  unfolding new_edge edge_confidence
  new_edge-IsWellFormed o known source target type reason override ids v r p k = record {
    named = refl;
    valid = v;
    not_negative = clamp_confidence-floor o type _;
    in_band = clamp_confidence-ceiling o type _;
    marked = refl;
    proven = λ h. dedup_sorted-filled ids (p h);
    cited = dedup_sorted-All (IsKnown known) ids k;
    layered = edge_layer-filled type;
    related = edge_relationship-filled type;
    styled = edge_line_style-filled type _;
    explained = r;
  }
