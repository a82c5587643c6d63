-- ===== src/Topology/Validate.antt =====
-- agent/internal/topology/validate.go: the problems of a report. A problem is the message's format
-- with its arguments; the text that `fmt.Sprintf` makes of it is not modelled.
pub mod Laws
pub mod Build
use tmap.Base.{
  ℕ, suc, ◌==◌, Bool, not, ◌&&◌, ◌||◌, Option, none, some, List, [], ◌∷◌, ◌++◌, String, str_eq,
  is_empty, member, if◌then◌else◌, length,
}
use tmap.Base.Int.{ℤ}
use tmap.Base.Float.{Float64}
use tmap.Topology.Types.{
  report_schema, direct_lldp, direct_cdp, snmp_bridge, route_hop, inferred_l2, gateway_default,
  Service, Device, TopologyEdge, Evidence, EvidenceRegistryItem, RichTopologyNode, TopologyV2Edge,
  TopologyV2Model, ScanReport,
}
use tmap.Topology.Confidence.{is_physical_evidence_edge}

-- The owner of a reference to evidence: `device %s`, `device %s service %d/%s`, `edge %s`.
pub data Owner : Type 0 where
  device_owner edge_owner : String → Owner
  service_owner : String → ℤ → String → Owner

pub data Problem (F : Type 0) : Type 0 where
  wrong_schema : String → Problem F
  device_without_id : ℕ → Problem F
  duplicate_device device_without_address : String → Problem F
  device_confidence : String → F → Problem F
  evidence_without_id registry_without_id : ℕ → Problem F
  duplicate_evidence duplicate_registry registry_without_source registry_without_kind :
      String → Problem F
  unknown_evidence : Owner → String → Problem F
  edge_without_id : ℕ → Problem F
  duplicate_edge no_layer no_relationship no_line_style no_reason : String → Problem F
  unknown_type unknown_source unknown_target unproven_physical marked_physical :
      String → String → Problem F
  edge_confidence_range : String → F → Problem F
  wrong_v2_schema : String → Problem F
  node_without_id : ℕ → Problem F
  duplicate_node : String → Problem F
  node_confidence : String → F → Problem F
  v2_edge_without_id : ℕ → Problem F
  empty_endpoint v2_edge_incomplete no_explanation : String → Problem F
  unknown_source_node unknown_target_node : String → String → Problem F
  v2_edge_confidence : String → F → Problem F
  device_count_differs edge_count_differs evidence_count_differs : ℕ → ℕ → Problem F

-- `validEdgeTypes`
unfoldable pub is_valid_edge_type : String → Bool
is_valid_edge_type type =
    member type
      (direct_lldp ∷ direct_cdp ∷ snmp_bridge ∷ route_hop ∷ inferred_l2 ∷ gateway_default ∷ [])

-- The set of the identifiers that are not empty, which the loops over devices, evidence and
-- nodes leave behind.
unfoldable pub ids_of : {A : Type 0} → (A → String) → List A → List String
ids_of id [] = []
ids_of id (a ∷ as_) = let rest = ids_of id as_ in if is_empty (id a) then rest else id a ∷ rest

module _ {F : Type 0} where
  -- `if bad { add(…) }`
  unfoldable pub report_if : Bool → Problem F → List (Problem F)
  report_if bad p = if bad then p ∷ [] else []

  unfoldable pub check_evidence : Owner → List String → List String → List (Problem F)
  unfolding report_if
  check_evidence owner [] known = []
  check_evidence owner (id ∷ ids) known =
      report_if (not (member id known)) (unknown_evidence owner id)
      ++ check_evidence owner ids known

  unfoldable pub check_services : String → List Service → List String → List (Problem F)
  unfolding check_evidence
  check_services device [] known = []
  check_services device (s ∷ ss) known =
      check_evidence (service_owner device s.port s.protocol) s.evidence_ids known
      ++ check_services device ss known

  -- The loop over the evidence: the position, and the identifiers that it has met.
  unfoldable pub check_records : ℕ → List String → List Evidence → List (Problem F)
  unfolding report_if
  check_records i seen [] = []
  check_records i seen (e ∷ es) =
      let skip = check_records (suc i) seen es in
      let next = check_records (suc i) (e.id ∷ seen) es in
      if is_empty e.id
      then evidence_without_id i ∷ skip
      else report_if (member e.id seen) (duplicate_evidence e.id) ++ next

  unfoldable pub check_registry : ℕ → List String → List EvidenceRegistryItem → List (Problem F)
  unfolding report_if
  check_registry i seen [] = []
  check_registry i seen (e ∷ es) =
      let skip = check_registry (suc i) seen es in
      let next = check_registry (suc i) (e.id ∷ seen) es in
      if is_empty e.id
      then registry_without_id i ∷ skip
      else report_if (member e.id seen) (duplicate_registry e.id)
        ++ (report_if (is_empty e.source) (registry_without_source e.id)
            ++ (report_if (is_empty e.kind) (registry_without_kind e.id) ++ next))

  unfoldable pub check_references : List (Device F) → List String → List (Problem F)
  unfolding check_evidence check_services
  check_references [] known = []
  check_references (d ∷ ds) known =
      check_evidence (device_owner d.id) d.evidence_ids known
      ++ (check_services d.id d.services known ++ check_references ds known)

  unfoldable pub check_summary : ScanReport F → List (Problem F)
  unfolding report_if
  check_summary r =
      let devices = length r.devices in
      let edges = length r.edges in
      let evidence = length r.evidence in
      report_if (not (r.summary.device_count == devices))
        (device_count_differs r.summary.device_count devices)
      ++ (report_if (not (r.summary.edge_count == edges))
            (edge_count_differs r.summary.edge_count edges)
          ++ report_if (not (r.summary.evidence_count == evidence))
              (evidence_count_differs r.summary.evidence_count evidence))

module _ {F : Type 0} ⦃f : Float64 F⦄ where
  -- A confidence outside [0, 1].
  unfoldable pub out_of_range : F → Bool
  out_of_range c = f.lt c (f.lit 0 1) || f.lt (f.lit 1 1) c

  unfoldable pub check_devices : ℕ → List String → List (Device F) → List (Problem F)
  unfolding report_if out_of_range
  check_devices i seen [] = []
  check_devices i seen (d ∷ ds) =
      let skip = check_devices (suc i) seen ds in
      let next = check_devices (suc i) (d.id ∷ seen) ds in
      if is_empty d.id
      then device_without_id i ∷ skip
      else report_if (member d.id seen) (duplicate_device d.id)
        ++ (report_if (length d.addresses == 0) (device_without_address d.id)
            ++ (report_if (out_of_range d.confidence) (device_confidence d.id d.confidence)
                ++ next))

  -- The identifier of an edge that comes after those of `seen`.
  unfoldable pub check_edge_id : ℕ → List String → String → List (Problem F)
  unfolding report_if
  check_edge_id i seen id =
      if is_empty id then edge_without_id i ∷ [] else report_if (member id seen) (duplicate_edge id)

  -- The checks of one edge that do not look at the other edges.
  unfoldable pub check_edge : List String → List String → TopologyEdge F → List (Problem F)
  unfolding report_if out_of_range check_evidence
  check_edge devices known e =
      let physical = is_physical_evidence_edge e.type in
      report_if (not (is_valid_edge_type e.type)) (unknown_type e.id e.type)
      ++ (report_if (is_empty e.layer) (no_layer e.id)
          ++ (report_if (is_empty e.relationship) (no_relationship e.id)
              ++ (report_if (is_empty e.ui_line_style) (no_line_style e.id)
                  ++ (report_if (out_of_range e.confidence)
                        (edge_confidence_range e.id e.confidence)
                      ++ (report_if (is_empty e.reason) (no_reason e.id)
                          ++ (report_if (not (member e.source devices))
                                (unknown_source e.id e.source)
                              ++ (report_if (not (member e.target devices))
                                    (unknown_target e.id e.target)
                                  ++ (report_if (physical && length e.evidence_ids == 0)
                                        (unproven_physical e.id e.type)
                                      ++ (report_if (not physical && e.physical)
                                            (marked_physical e.id e.type)
                                          ++ check_evidence (edge_owner e.id) e.evidence_ids
                                              known)))))))))

  unfoldable pub check_edges :
      ℕ → List String → List String → List String → List (TopologyEdge F) → List (Problem F)
  unfolding check_edge_id check_edge
  check_edges i seen devices known [] = []
  check_edges i seen devices known (e ∷ es) =
      check_edge_id i seen e.id
      ++ (check_edge devices known e ++ check_edges (suc i) (e.id ∷ seen) devices known es)

  unfoldable pub check_nodes : ℕ → List String → List (RichTopologyNode F) → List (Problem F)
  unfolding report_if out_of_range
  check_nodes i seen [] = []
  check_nodes i seen (n ∷ ns) =
      let skip = check_nodes (suc i) seen ns in
      let next = check_nodes (suc i) (n.id ∷ seen) ns in
      if is_empty n.id
      then node_without_id i ∷ skip
      else report_if (member n.id seen) (duplicate_node n.id)
        ++ (report_if (out_of_range n.confidence) (node_confidence n.id n.confidence) ++ next)

  unfoldable pub check_v2_edges : ℕ → List String → List (TopologyV2Edge F) → List (Problem F)
  unfolding report_if out_of_range
  check_v2_edges i nodes [] = []
  check_v2_edges i nodes (e ∷ es) =
      report_if (is_empty e.id) (v2_edge_without_id i)
      ++ (report_if (is_empty e.source || is_empty e.target) (empty_endpoint e.id)
          ++ (report_if (not (member e.source nodes)) (unknown_source_node e.id e.source)
              ++ (report_if (not (member e.target nodes)) (unknown_target_node e.id e.target)
                  ++ (report_if (is_empty e.type || is_empty e.relation || is_empty e.medium)
                        (v2_edge_incomplete e.id)
                      ++ (report_if (is_empty e.explanation) (no_explanation e.id)
                          ++ (report_if (out_of_range e.confidence)
                                (v2_edge_confidence e.id e.confidence)
                              ++ check_v2_edges (suc i) nodes es))))))

  unfoldable pub check_v2 : Option (TopologyV2Model F) → List (Problem F)
  unfolding report_if check_nodes check_v2_edges
  check_v2 none = []
  check_v2 (some t) =
      report_if (not (str_eq t.schema_version report_schema)) (wrong_v2_schema t.schema_version)
      ++ (check_nodes 0 [] t.nodes
          ++ check_v2_edges 0 (ids_of (λ (n : RichTopologyNode F). n.id) t.nodes) t.edges)

  unfoldable pub validate_report : ScanReport F → List (Problem F)
  unfolding report_if check_devices check_records check_registry check_references check_edges
      check_v2 check_summary
  validate_report r =
      let device_ids = ids_of (λ (d : Device F). d.id) r.devices in
      let evidence_ids =
        ids_of (λ (e : Evidence). e.id) r.evidence
        ++ ids_of (λ (e : EvidenceRegistryItem). e.id) r.evidence_registry in
      report_if (not (str_eq r.schema_version report_schema)) (wrong_schema r.schema_version)
      ++ (check_devices 0 [] r.devices
          ++ (check_records 0 [] r.evidence
              ++ (check_registry 0 [] r.evidence_registry
                  ++ (check_references r.devices evidence_ids
                      ++ (check_edges 0 [] device_ids evidence_ids r.edges
                          ++ (check_v2 r.topology ++ check_summary r))))))
