-- ===== src/Topology/Evidence/Ids.antt =====
-- The identifiers that the store mints, and the list of citations of an edge.
use Prim.Native.String.{compare as compare_text}
use text.Mathlib.Text.{is_lt}
use text.Mathlib.TextEquality.{eq_iff}
use text.Mathlib.TextPositions.{eq_refl}
use text.Mathlib.TextLemmas.{append_cancel_left}
use mathlib.Core.List.{map-append, append-nil, append_assoc}
use tmap.Base.{
  ℕ, zero, suc, ◌<◌, ◌≡◌, refl, sym, ap, subst, ◌∙◌, Bool, false, ◌&&◌, ◌||◌, not, List, [], ◌∷◌,
  ◌++◌, map, String, str_eq, is_empty, member, inl, inr, Bool-cases, arith, if_case,
}
use tmap.Base.Sets.{IsUnique, member-append, IsUnique-append}
use tmap.Base.Decimal.{decimal_text, decimal_text-injective}
use tmap.Base.Map.{Map}
use tmap.Topology.Types.{Evidence}
use tmap.Topology.Evidence.{
  EvidenceStore, new_evidence_store, minted_id, add_record, insert_sorted, sort_strings, fresh_ids,
  dedup_sorted,
}

-- The arguments of a call of `Add`, and what its clock reads.
pub record AddCall : Type 0 where
  pub now : ℕ
  pub kind : String
  pub source : String
  pub summary : String
  pub details : Map String

-- The store after a list of calls, and the identifiers that they return.
unfoldable pub add_records : EvidenceStore → List AddCall → EvidenceStore × List String
add_records s [] = (s, [])
add_records s (c ∷ cs) =
    let first = add_record s c.now c.kind c.source c.summary c.details in
    let rest = add_records first.0 cs in (rest.0, first.1 ∷ rest.1)

-- `ev-1` to `ev-n`.
unfoldable pub ids_up_to : ℕ → List String
ids_up_to zero = []
ids_up_to (suc n) = ids_up_to n ++ (minted_id (suc n) ∷ [])

minted_id-injective : (n m : ℕ) → minted_id n ≡ minted_id m → n ≡ m
unfolding minted_id
minted_id-injective n m h =
    decimal_text-injective n m (append_cancel_left "ev-" (decimal_text n) (decimal_text m) h)

later_id : (n k : ℕ) → n < k → member (minted_id k) (ids_up_to n) ≡ false
unfolding ids_up_to member
later_id zero k h = refl
later_id (suc n) k h = ground (
  arith,
  member-append (minted_id k) (ids_up_to n) (minted_id (suc n) ∷ []),
  later_id n k,
  eq_iff (minted_id (suc n)) (minted_id k),
  minted_id-injective (suc n) k,
)

pub ids_up_to-IsUnique : (n : ℕ) → IsUnique (ids_up_to n)
unfolding ids_up_to
ids_up_to-IsUnique zero = tt
ids_up_to-IsUnique (suc n) =
    IsUnique-append (ids_up_to n) (minted_id (suc n)) (later_id n (suc n) (omega arith))
      (ids_up_to-IsUnique n)

abbrev pub record_ids : EvidenceStore → List String
record_ids s = map (λ (e : Evidence). e.id) s.records

-- A call appends its identifier.
record_ids-add_record :
    (s : EvidenceStore) (c : AddCall)
    → (let out = add_record s c.now c.kind c.source c.summary c.details in
        record_ids out.0 ≡ record_ids s ++ (out.1 ∷ []))
unfolding add_record
record_ids-add_record s c = map-append (λ (e : Evidence). e.id) s.records _

record_ids-add_records :
    (s : EvidenceStore) (cs : List AddCall)
    → record_ids (add_records s cs).0 ≡ record_ids s ++ (add_records s cs).1
unfolding add_records
record_ids-add_records s [] = sym (append-nil (record_ids s))
record_ids-add_records s (c ∷ cs) =
    let out = add_record s c.now c.kind c.source c.summary c.details in
    record_ids-add_records out.0 cs
    ∙ ap (λ l. l ++ (add_records out.0 cs).1) (record_ids-add_record s c)
    ∙ append_assoc (record_ids s) (out.1 ∷ []) (add_records out.0 cs).1

record_ids-seq :
    (s : EvidenceStore) (cs : List AddCall)
    → record_ids s ≡ ids_up_to s.seq
    → record_ids (add_records s cs).0 ≡ ids_up_to (add_records s cs).0.seq
unfolding add_records add_record ids_up_to
record_ids-seq s [] h = h
record_ids-seq s (c ∷ cs) h =
    let out = add_record s c.now c.kind c.source c.summary c.details in
    record_ids-seq out.0 cs
      (record_ids-add_record s c ∙ ap (λ l. l ++ (minted_id (suc s.seq) ∷ [])) h)

-- The identifiers that a new store returns for any calls are those of its records, in their order,
-- and no two are the same.
pub add_records-IsUnique :
    (cs : List AddCall)
    → (let run = add_records new_evidence_store cs in (record_ids run.0 ≡ run.1) × IsUnique run.1)
unfolding new_evidence_store ids_up_to
add_records-IsUnique cs =
    let same = record_ids-add_records new_evidence_store cs in
    (
      same,
      subst IsUnique same (
          subst IsUnique (sym (record_ids-seq new_evidence_store cs refl))
            (ids_up_to-IsUnique (add_records new_evidence_store cs).0.seq)),
    )

-- The citations of an edge.
member-insert_sorted :
    (k t : String) (ss : List String) → member k (insert_sorted t ss) ≡ (str_eq t k || member k ss)
unfolding member insert_sorted
member-insert_sorted k t [] = refl
member-insert_sorted k t (s ∷ ss) = elim (Bool-cases (is_lt (compare_text s t))) [
  | inl before ↦
      rw (before, member-insert_sorted k t ss) (swap (str_eq s k) (str_eq t k) (member k ss))
  | inr after ↦ rw after refl
]
  where
    swap : (a b c : Bool) → (a || (b || c)) ≡ (b || (a || c))
    swap a b c = ground arith

member-sort_strings : (k : String) (ss : List String) → member k (sort_strings ss) ≡ member k ss
unfolding member sort_strings
member-sort_strings k [] = refl
member-sort_strings k (s ∷ ss) =
    member-insert_sorted k s (sort_strings ss)
    ∙ ap (λ b. str_eq s k || b) (member-sort_strings k ss)

member-fresh_ids :
    (k : String) (seen ids : List String)
    → member k (fresh_ids seen ids) ≡ (not (is_empty k) && (not (member k seen) && member k ids))
unfolding member fresh_ids
member-fresh_ids k seen [] = ground arith
member-fresh_ids k seen (id ∷ ids) = ground (
  arith,
  member-fresh_ids k seen ids,
  member-fresh_ids k (id ∷ seen) ids,
  eq_iff id k,
  eq_iff id "",
  eq_iff k "",
)

insert_sorted-IsUnique :
    (t : String) (ss : List String)
    → member t ss ≡ false
    → IsUnique ss
    → IsUnique (insert_sorted t ss)
unfolding member insert_sorted
insert_sorted-IsUnique t [] h u = (refl, tt)
insert_sorted-IsUnique t (s ∷ ss) h u =
    ground (arith, eq_iff s t, eq_iff t s, member-insert_sorted s t ss, insert_sorted-IsUnique t ss)

sort_strings-IsUnique : (ss : List String) → IsUnique ss → IsUnique (sort_strings ss)
unfolding sort_strings
sort_strings-IsUnique [] u = tt
sort_strings-IsUnique (s ∷ ss) u =
    insert_sorted-IsUnique s (sort_strings ss) (rw member-sort_strings u.0)
      (sort_strings-IsUnique ss u.1)

fresh_ids-IsUnique : (seen ids : List String) → IsUnique (fresh_ids seen ids)
unfolding fresh_ids member
fresh_ids-IsUnique seen [] = tt
fresh_ids-IsUnique seen (id ∷ ids) =
    if_case IsUnique (is_empty id || member id seen) (fresh_ids-IsUnique seen ids)
      (rw (member-fresh_ids, eq_refl) (ground arith), fresh_ids-IsUnique (id ∷ seen) ids)

-- The citations are the identifiers that are not empty, each once.
pub dedup_sorted-IsUnique :
    (k : String) (ids : List String)
    → (member k (dedup_sorted ids) ≡ (not (is_empty k) && member k ids))
      × IsUnique (dedup_sorted ids)
unfolding dedup_sorted
dedup_sorted-IsUnique k ids = (
  member-sort_strings k (fresh_ids [] ids) ∙ member-fresh_ids k [] ids ∙ (unfold member in refl),
  sort_strings-IsUnique (fresh_ids [] ids) (fresh_ids-IsUnique [] ids),
)
