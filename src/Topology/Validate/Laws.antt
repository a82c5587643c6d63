-- ===== src/Topology/Validate/Laws.antt =====
-- A report without problems: what the checks of its edges and references establish.
use tmap.Base.{
  ℕ, suc, ◌==◌, Bool, true, false, not, ◌&&◌, ◌||◌, List, [], ◌∷◌, ◌++◌, String, str_eq, is_empty,
  member, if◌then◌else◌, length, All, ◌≡◌, refl, inl, inr, Bool-cases, arith, clash, All-map,
  All-both, ◌↔◌,
}
use text.Mathlib.TextEquality.{eq_iff}
use tmap.Base.Float.{Float64}
use tmap.Topology.Types.{TopologyEdge}
use tmap.Topology.Confidence.{is_physical_evidence_edge}
use tmap.Topology.Edge.Sound.{IsKnown}
use tmap.Topology.Graph.Sound.{Apart, IsApart}
use tmap.Topology.Validate.{
  Owner, Problem, edge_without_id, duplicate_edge, report_if, check_evidence, out_of_range,
  check_edge_id, check_edge, check_edges, is_valid_edge_type,
}

pub append_nil {ℓ} : {A : Type ℓ} (xs ys : List A) → xs ++ ys ≡ [] → (xs ≡ []) × (ys ≡ [])
append_nil [] ys h = (refl, h)
append_nil (x ∷ xs) ys h = absurd (ground arith)

module _ {F : Type 0} where
  pub report_if-clear : (bad : Bool) (p : Problem F) → report_if bad p ≡ [] → bad ≡ false
  unfolding report_if
  report_if-clear false p h = refl
  report_if-clear true p h = absurd (ground arith)

  pub check_evidence-clear :
      (owner : Owner) (ids known : List String)
      → check_evidence {F = F} owner ids known ≡ []
      → All (IsKnown known) ids
  unfolding check_evidence
  check_evidence-clear owner [] known h = tt
  check_evidence-clear owner (id ∷ ids) known h =
      let parts = append_nil (report_if (not (member id known)) _) _ h in
      (
        positive (member id known) (report_if-clear _ _ parts.0),
        check_evidence-clear owner ids known parts.1,
      )
    where
      positive : (b : Bool) → not b ≡ false → b ≡ true
      positive b q = ground arith

  pub evidence_check :
      (owner : Owner) (ids known : List String)
      → All (IsKnown known) ids
      → check_evidence {F = F} owner ids known ≡ []
  unfolding check_evidence report_if
  evidence_check owner [] known h = refl
  evidence_check owner (id ∷ ids) known h = rw h.0 (evidence_check owner ids known h.1)

module _ {F : Type 0} where
  pub peel :
      (bad : Bool) (p : Problem F) {rest : List (Problem F)}
      → report_if bad p ++ rest ≡ []
      → (bad ≡ false) × (rest ≡ [])
  peel bad p {rest} h =
      let parts = append_nil (report_if bad p) rest h in (report_if-clear bad p parts.0, parts.1)

  pub glue :
      (bad : Bool) (p : Problem F) {rest : List (Problem F)}
      → bad ≡ false
      → rest ≡ []
      → report_if bad p ++ rest ≡ []
  unfolding report_if
  glue bad p b r = rw b r

module _ {F : Type 0} ⦃f : Float64 F⦄ where
  -- What an edge of a report without problems satisfies.
  pub record IsResolved (devices known : List String) (e : TopologyEdge F) : Type 0 where
    pub valid : not (is_valid_edge_type e.type) ≡ false
    pub layered : is_empty e.layer ≡ false
    pub related : is_empty e.relationship ≡ false
    pub styled : is_empty e.ui_line_style ≡ false
    pub in_range : out_of_range e.confidence ≡ false
    pub explained : is_empty e.reason ≡ false
    pub from_known : not (member e.source devices) ≡ false
    pub to_known : not (member e.target devices) ≡ false
    pub proven : (is_physical_evidence_edge e.type && length e.evidence_ids == 0) ≡ false
    pub marked : (not (is_physical_evidence_edge e.type) && e.physical) ≡ false
    pub cited : All (IsKnown known) e.evidence_ids

  check_edge-IsResolved :
      (devices known : List String) (e : TopologyEdge F)
      → check_edge devices known e ≡ []
      → IsResolved devices known e
  unfolding check_edge
  check_edge-IsResolved devices known e h =
      let a = peel _ _ h in
      let b = peel _ _ a.1 in
      let c = peel _ _ b.1 in
      let d = peel _ _ c.1 in
      let g = peel _ _ d.1 in
      let i = peel _ _ g.1 in
      let j = peel _ _ i.1 in
      let k = peel _ _ j.1 in
      let l = peel _ _ k.1 in
      let m = peel _ _ l.1 in
      record {
        valid = a.0;
        layered = b.0;
        related = c.0;
        styled = d.0;
        in_range = g.0;
        explained = i.0;
        from_known = j.0;
        to_known = k.0;
        proven = l.0;
        marked = m.0;
        cited = check_evidence-clear _ e.evidence_ids known m.1;
      }

  pub IsResolved-check_edge :
      (devices known : List String) (e : TopologyEdge F)
      → IsResolved devices known e
      → check_edge devices known e ≡ []
  unfolding check_edge
  IsResolved-check_edge devices known e r = glue _ _ r.valid (
      glue _ _ r.layered (
        glue _ _ r.related (
          glue _ _ r.styled (
            glue _ _ r.in_range (
              glue _ _ r.explained (
                glue _ _ r.from_known (
                  glue _ _ r.to_known (
                    glue _ _ r.proven
                      (glue _ _ r.marked (evidence_check _ e.evidence_ids known r.cited))))))))))

  -- An edge that comes after those of `seen`.
  pub record IsNext (seen devices known : List String) (e : TopologyEdge F) : Type 0 where
    pub has_id : is_empty e.id ≡ false
    pub unseen : member e.id seen ≡ false
    pub resolved : IsResolved devices known e

  check_edge_id-clear :
      (i : ℕ) (seen : List String) (id : String)
      → check_edge_id {F = F} i seen id ≡ []
      → (is_empty id ≡ false) × (member id seen ≡ false)
  unfolding check_edge_id
  check_edge_id-clear i seen id h = split (edge_without_id i) (is_empty id) (member id seen) h
    where
      split :
          (first : Problem F) (blank met : Bool)
          → (if blank then first ∷ [] else report_if met (duplicate_edge id)) ≡ []
          → (blank ≡ false) × (met ≡ false)
      split first true met q = absurd (ground (arith, q))
      split first false met q = (refl, report_if-clear met (duplicate_edge id) q)

  edge_id_check :
      (i : ℕ) (seen : List String) (id : String)
      → is_empty id ≡ false
      → member id seen ≡ false
      → check_edge_id {F = F} i seen id ≡ []
  unfolding check_edge_id report_if
  edge_id_check i seen id filled unmet = rw (filled, unmet) refl

  later :
      (d e : TopologyEdge F) (seen : List String)
      → member e.id (d.id ∷ seen) ≡ false
      → (Apart d e) × (member e.id seen ≡ false)
  unfolding member
  later d e seen h =
      let parts = both_false (str_eq d.id e.id) (member e.id seen) h in
      (λ p. clash (str_eq d.id e.id) parts.0 ((eq_iff d.id e.id).1 p), parts.1)
    where
      both_false : (a b : Bool) → (a || b) ≡ false → (a ≡ false) × (b ≡ false)
      both_false a b q = ground arith

  sooner :
      (d e : TopologyEdge F) (seen : List String)
      → Apart d e
      → member e.id seen ≡ false
      → member e.id (d.id ∷ seen) ≡ false
  unfolding member
  sooner d e seen apart unmet = elim (Bool-cases (str_eq d.id e.id)) [
    | inl same ↦ absurd (apart ((eq_iff d.id e.id).0 same))
    | inr other ↦ rw (other, unmet) refl
  ]

  check_edges-resolved :
      (i : ℕ) (seen devices known : List String) (es : List (TopologyEdge F))
      → check_edges i seen devices known es ≡ []
      → All (IsNext seen devices known) es × IsApart es
  unfolding check_edges
  check_edges-resolved i seen devices known [] h = (tt, tt)
  check_edges-resolved i seen devices known (e ∷ es) h =
      let first = append_nil (check_edge_id i seen e.id) _ h in
      let second = append_nil (check_edge devices known e) _ first.1 in
      let id = check_edge_id-clear i seen e.id first.0 in
      let rest = check_edges-resolved (suc i) (e.id ∷ seen) devices known es second.1 in
      let this : IsNext seen devices known e = record {
        has_id = id.0;
        unseen = id.1;
        resolved = check_edge-IsResolved devices known e second.0;
      } in
      (
        (
          this,
          All-map (IsNext (e.id ∷ seen) devices known) (IsNext seen devices known) es
              (λ x n. record {
                has_id = n.has_id;
                unseen = (later e x seen n.unseen).1;
                resolved = n.resolved;
              })
              rest.0,
        ),
        (
          All-map (IsNext (e.id ∷ seen) devices known) (Apart e) es
              (λ x n. (later e x seen n.unseen).0) rest.0,
          rest.1,
        ),
      )

  resolved-check_edges :
      (i : ℕ) (seen devices known : List String) (es : List (TopologyEdge F))
      → All (IsNext seen devices known) es
      → IsApart es
      → check_edges i seen devices known es ≡ []
  unfolding check_edges
  resolved-check_edges i seen devices known [] n a = refl
  resolved-check_edges i seen devices known (e ∷ es) n a =
      rw
        (
          edge_id_check i seen e.id n.0.has_id n.0.unseen,
          IsResolved-check_edge devices known e n.0.resolved,
        )
        (resolved-check_edges (suc i) (e.id ∷ seen) devices known es
          (All-map (λ x. IsNext seen devices known x × Apart e x)
            (IsNext (e.id ∷ seen) devices known) es
            (λ x h. record {
              has_id = h.0.has_id;
              unseen = sooner e x seen h.1 h.0.unseen;
              resolved = h.0.resolved;
            })
            (All-both (IsNext seen devices known) (Apart e) es n.1 a.0))
          a.1)

  -- The loop over the edges reports nothing just where every edge has an identifier of its own and
  -- resolves.
  pub check_edges_iff :
      (i : ℕ) (seen devices known : List String) (es : List (TopologyEdge F))
      → (check_edges i seen devices known es ≡ [])
        ↔ (All (IsNext seen devices known) es × IsApart es)
  check_edges_iff i seen devices known es = (
    check_edges-resolved i seen devices known es,
    λ h. resolved-check_edges i seen devices known es h.0 h.1,
  )
