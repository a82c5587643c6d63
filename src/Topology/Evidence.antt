-- ===== src/Topology/Evidence.antt =====
-- agent/internal/topology/evidence.go: the store that mints the identifiers of the evidence. The
-- clock is the time that each call reads.
pub mod Ids
use Prim.Native.String.{compare as compare_text}
use text.Mathlib.Text.{is_lt}
use tmap.Base.{ℕ, suc, List, [], ◌∷◌, ◌++◌, String, ◌<>◌, is_empty, member, ◌||◌, if◌then◌else◌}
use tmap.Base.Map.{Map}
use tmap.Base.Decimal.{decimal_text}
use tmap.Topology.Types.{Evidence}

pub record EvidenceStore : Type 0 where
  pub records : List Evidence
  pub seq : ℕ

unfoldable pub new_evidence_store : EvidenceStore
new_evidence_store = record { records = []; seq = 0 }

-- `ev-%d`
unfoldable pub minted_id : ℕ → String
minted_id n = "ev-" <> decimal_text n

-- The store after the call, and the identifier it returns.
unfoldable pub add_record :
    EvidenceStore → ℕ → String → String → String → Map String → EvidenceStore × String
add_record s now kind source summary details =
    let next = suc s.seq in
    let item : Evidence = record {
      id = minted_id next;
      kind = kind;
      source = source;
      summary = summary;
      details = details;
      timestamp = now;
    } in
    (record { records = s.records ++ (item ∷ []); seq = next }, minted_id next)

-- `sort.Strings`, by insertion.
unfoldable pub insert_sorted : String → List String → List String
insert_sorted t [] = t ∷ []
insert_sorted t (s ∷ ss) =
    let rest = insert_sorted t ss in if is_lt (compare_text s t) then s ∷ rest else t ∷ s ∷ ss

unfoldable pub sort_strings : List String → List String
sort_strings [] = []
sort_strings (s ∷ ss) = insert_sorted s (sort_strings ss)

-- The identifiers that are neither empty nor seen before.
unfoldable pub fresh_ids : List String → List String → List String
fresh_ids seen [] = []
fresh_ids seen (id ∷ ids) =
    let skip = fresh_ids seen ids in
    let more = fresh_ids (id ∷ seen) ids in
    if is_empty id || member id seen then skip else id ∷ more

unfoldable pub dedup_sorted : List String → List String
dedup_sorted ids = sort_strings (fresh_ids [] ids)
