-- ===== src/Topology/Validate/Build.antt =====
-- A built topology within a report: its edges raise no problem.
use tmap.Base.{
  ℕ, suc, ◌==◌, Bool, true, false, not, ◌&&◌, List, [], ◌∷◌, ◌++◌, map, String, str_eq, is_empty,
  member, length, All-map, ◌≡◌, refl, ◌∙◌, ap, inl, inr, Bool-cases, arith, clash,
}
use text.Mathlib.TextEquality.{eq_iff}
use text.Mathlib.TextLemmas.{append-eq-nil_iff}
use tmap.Base.Float.{Float64, Ordered}
use tmap.Topology.Types.{
  report_schema, Device, TopologyEdge, Evidence, EvidenceRegistryItem, ScanReport,
}
use tmap.Topology.Confidence.{is_physical_evidence_edge}
use tmap.Topology.Confidence.Bounds.{max_confidence-one}
use tmap.Topology.Edge.{edge_id}
use tmap.Topology.Edge.Sound.{IsWellFormed}
use tmap.Topology.Graph.Best.{joins}
use tmap.Topology.Builder.{BuildInput, with_roles, build}
use tmap.Topology.Builder.Sound.{IsSupported, IsLink, device_ids, build-IsLink, build-IsApart}
use tmap.Topology.Validate.{
  duplicate_device, device_without_address, device_confidence, device_count_differs,
  edge_count_differs, wrong_schema, report_if, ids_of, out_of_range, check_devices, check_records,
  check_registry, check_references, check_edges, check_v2, check_summary, validate_report,
}
use tmap.Topology.Validate.Laws.{append_nil, peel, glue, IsResolved, IsNext, check_edges_iff}

edge_id-filled : (source target type : String) → is_empty (edge_id source target type) ≡ false
unfolding edge_id
edge_id-filled source target type = elim (Bool-cases (is_empty (edge_id source target type))) [
  | inl blank ↦
      let both = append-eq-nil_iff.0 ((eq_iff (edge_id source target type) "").0 blank) in
      clash (str_eq "edge-" "") refl ((eq_iff "edge-" "").1 both.0)
  | inr filled ↦ filled
]

module _ {F : Type 0} where
  -- The identifiers that a report gives its devices and its evidence.
  abbrev pub report_devices : ScanReport F → List String
  report_devices r = ids_of (λ (d : Device F). d.id) r.devices

  abbrev pub report_evidence : ScanReport F → List String
  report_evidence r =
      ids_of (λ (e : Evidence). e.id) r.evidence
      ++ ids_of (λ (e : EvidenceRegistryItem). e.id) r.evidence_registry

  -- The report with other edges, which its summary counts.
  abbrev pub with_edges : ScanReport F → List (TopologyEdge F) → ScanReport F
  with_edges r es = record r { edges = es; summary = record r.summary { edge_count = length es } }

module _ {F : Type 0} ⦃f : Float64 F⦄ where
  in_range :
      (o : Ordered F) (known : List String) (e : TopologyEdge F)
      → IsWellFormed known e
      → out_of_range e.confidence ≡ false
  unfolding out_of_range
  in_range o known e w =
      rw
        (
          o.not_lt_of_le (f.lit 0 1) e.confidence w.not_negative,
          o.not_lt_of_le e.confidence (f.lit 1 1)
              (o.le_trans e.confidence _ (f.lit 1 1) w.in_band (max_confidence-one o e.type)),
        )
        refl

  link-IsResolved :
      (o : Ordered F) (devices known : List String) (e : TopologyEdge F)
      → IsLink known devices e
      → IsResolved devices known e
  unfolding joins
  link-IsResolved o devices known e h =
      let w = h.0 in
      let ends =
        both (str_eq e.source e.target) (member e.source devices) (member e.target devices) h.1 in
      record {
        valid = rw w.valid refl;
        layered = w.layered;
        related = w.related;
        styled = w.styled;
        in_range = in_range o known e w;
        explained = w.explained;
        from_known = ends.0;
        to_known = ends.1;
        proven = backed (is_physical_evidence_edge e.type) (length e.evidence_ids == 0) w.proven;
        marked = rw w.marked (apart (is_physical_evidence_edge e.type));
        cited = w.cited;
      }
    where
      both : (s a b : Bool) → (not s && (a && b)) ≡ true → (not a ≡ false) × (not b ≡ false)
      both s a b q = ground arith

      backed : (p c : Bool) → (p ≡ true → c ≡ false) → (p && c) ≡ false
      backed p c q = ground arith

      apart : (p : Bool) → (not p && p) ≡ false
      apart p = ground arith

  -- The checks of the devices leave no device without an identifier.
  check_devices-filled :
      (i : ℕ) (seen : List String) (ds : List (Device F))
      → check_devices i seen ds ≡ []
      → ids_of (λ (d : Device F). d.id) ds ≡ map (λ (d : Device F). d.id) ds
  unfolding check_devices ids_of
  check_devices-filled i seen [] h = refl
  check_devices-filled i seen (d ∷ ds) h = elim (Bool-cases (is_empty d.id)) [
    | inl blank ↦ absurd (ground (arith, rw blank at h))
    | inr filled ↦
        let a = peel (member d.id seen) (duplicate_device d.id) (rw filled at h) in
        let b = peel (length d.addresses == 0) (device_without_address d.id) a.1 in
        let rest = (peel (out_of_range d.confidence) (device_confidence d.id d.confidence) b.1).1 in
        rw filled (ap (λ l. d.id ∷ l) (check_devices-filled (suc i) (d.id ∷ seen) ds rest))
  ]

  with_roles-ids :
      (in_ : BuildInput F) (ds : List (Device F))
      → map (λ (d : Device F). d.id) (map (with_roles in_) ds) ≡ map (λ (d : Device F). d.id) ds
  unfolding with_roles
  with_roles-ids in_ [] = refl
  with_roles-ids in_ (d ∷ ds) = ap (λ l. d.id ∷ l) (with_roles-ids in_ ds)

  built_ids :
      (in_ : BuildInput F) → map (λ (d : Device F). d.id) (build in_).devices ≡ device_ids in_
  unfolding build
  built_ids in_ = with_roles-ids in_ in_.devices

  -- The check of the counts does not look at the edges but to count them.
  check_summary-with_edges :
      (r : ScanReport F) (es : List (TopologyEdge F))
      → check_summary (with_edges r []) ≡ []
      → check_summary (with_edges r es) ≡ []
  unfolding check_summary
  check_summary-with_edges r es h =
      let devices = length r.devices in
      let first =
        peel (not (r.summary.device_count == devices))
          (device_count_differs r.summary.device_count devices) h in
      let last = peel (not (0 == 0)) (edge_count_differs 0 0) first.1 in
      glue (not (r.summary.device_count == devices))
        (device_count_differs r.summary.device_count devices) first.0
        (glue (not (length es == length es)) (edge_count_differs (length es) (length es))
          (counted (length es)) last.1)
    where
      counted : (n : ℕ) → not (n == n) ≡ false
      counted n = ground arith

  built_edges :
      (o : Ordered F) (in_ : BuildInput F) (devices known : List String)
      → devices ≡ device_ids in_
      → IsSupported known in_
      → check_edges 0 [] devices known (build in_).edges ≡ []
  built_edges o in_ devices known same s =
      (check_edges_iff 0 [] devices known (build in_).edges).1 (
        All-map (IsLink known (device_ids in_)) (IsNext [] devices known) (build in_).edges
            (λ e h. record {
              has_id = rw h.0.named (edge_id-filled e.source e.target e.type);
              unseen = unfold member in refl;
              resolved = rw same (link-IsResolved o (device_ids in_) known e h);
            })
            (build-IsLink o known in_ s),
        build-IsApart o known in_ s,
      )

  -- A report that is valid without edges is valid with the edges of a topology built from input that
  -- its evidence supports, where its devices are those of the topology.
  pub build-validate_report :
      (o : Ordered F) (in_ : BuildInput F) (r : ScanReport F)
      → r.devices ≡ (build in_).devices
      → IsSupported (report_evidence r) in_
      → validate_report (with_edges r []) ≡ []
      → validate_report (with_edges r (build in_).edges) ≡ []
  unfolding validate_report
  build-validate_report o in_ r same s h =
      let a =
        append_nil
          (report_if (not (str_eq r.schema_version report_schema)) (wrong_schema r.schema_version))
          _ h in
      let b = append_nil (check_devices 0 [] r.devices) _ a.1 in
      let c = append_nil (check_records 0 [] r.evidence) _ b.1 in
      let d = append_nil (check_registry 0 [] r.evidence_registry) _ c.1 in
      let e = append_nil (check_references r.devices (report_evidence r)) _ d.1 in
      let k = append_nil (check_v2 r.topology) _ e.1 in
      let ids =
        check_devices-filled 0 [] r.devices b.0
        ∙ ap (map (λ (x : Device F). x.id)) same
        ∙ built_ids in_ in
      rw
        (
          a.0,
          b.0,
          c.0,
          d.0,
          e.0,
          built_edges o in_ (report_devices r) (report_evidence r) ids s,
          k.0,
        )
        (check_summary-with_edges r (build in_).edges k.1)
