-- ===== src/Tests/Topology.antt =====
-- A network with an agent, a gateway, a switch that answered over LLDP and a peer, its topology and
-- its report.
use mathlib.Core.List.{Perm}
use tmap.Base.{
  ℕ, ◌≡◌, ◌↔◌, refl, false, not, ◌&&◌, ◌||◌, none, List, [], ◌∷◌, map, String, str_eq, is_empty,
  member, All,
}
use tmap.Base.Int.{pos}
use tmap.Base.Decimal.{decimal, decimal_text}
use tmap.Base.Sets.{IsUnique}
use tmap.Base.Map.{lookup, insert, map_values}
use tmap.Tests.Config.{thousandths, by_size}
use tmap.Topology.Types.{report_schema, direct_lldp, Device, TopologyEdge, ScanReport}
use tmap.Topology.Confidence.{
  is_physical_evidence_edge, clamp_confidence, base_confidence, max_confidence,
}
use tmap.Topology.Edge.{new_edge, edge_id, short_edge_type, edge_confidence}
use tmap.Topology.Edge.Sound.{cites}
use tmap.Topology.Graph.{new_graph, add_edges, sorted_edges}
use tmap.Topology.Graph.Best.{IsBest, add_edges-IsBest}
use tmap.Topology.Graph.Order.{IsFalling, sorted_edges-IsFalling}
use tmap.Topology.Builder.{Neighbor, BuildInput, is_proven, build, build_graph, with_roles}
use tmap.Topology.Builder.Sound.{IsSupported, device_ids}
use tmap.Topology.Builder.Flags.{has_proven_link, build-inferred_only}
use tmap.Topology.Builder.Bands.{IsInBand, build-IsInBand}
use tmap.Topology.Builder.Roles.{sends_hop, has_hop, AreRoles, with_roles-AreRoles}
use tmap.Topology.Evidence.{new_evidence_store, add_record, minted_id}
use tmap.Topology.Evidence.Ids.{AddCall, add_records, record_ids, add_records-IsUnique}
use tmap.Topology.Validate.{validate_report, ids_of, check_edges}
use tmap.Topology.Validate.Laws.{IsNext, check_edges_iff}
use tmap.Topology.Validate.Build.{report_evidence, with_edges, build-validate_report}
use tmap.Topology.Graph.Sound.{IsApart}

abbrev device : String → String → Device ℕ
device id ip = record {
  id = id;
  hostname = "";
  hostnames = [];
  vendor = "";
  mac = "";
  oui_vendor = "";
  device_type_hint = "";
  os_hint = "";
  os_confidence = 0;
  roles = [];
  is_agent = false;
  is_gateway = false;
  addresses = record { ip = ip; version = pos 4; cidr = "" } ∷ [];
  interfaces = [];
  services = [];
  reachability = "reachable";
  discovery_sources = [];
  first_seen = 1;
  last_seen = 2;
  confidence = 900;
  evidence_ids = "ev-1" ∷ [];
}

abbrev switch_link : Neighbor ℕ
switch_link = record {
  from_id = "dev-gw";
  to_id = "dev-sw";
  kind = direct_lldp;
  confidence = 990;
  reason = "";
  evidence_ids = "ev-2" ∷ "ev-2" ∷ [];
}

abbrev home : BuildInput ℕ
home = record {
  agent_id = "dev-agent";
  gateway_id = "dev-gw";
  devices =
      device "dev-agent" "192.168.1.10"
      ∷ device "dev-gw" "192.168.1.1"
      ∷ device "dev-sw" "192.168.1.2"
      ∷ device "dev-peer" "192.168.1.20"
      ∷ [];
  gateway_route_evidence_ids = "ev-1" ∷ [];
  route_hops = record { from_id = "dev-gw"; to_id = "dev-peer"; evidence_ids = "ev-3" ∷ [] } ∷ [];
  l2_peers = "dev-sw" ∷ "dev-peer" ∷ "dev-gw" ∷ "dev-guest" ∷ [];
  neighbors = switch_link ∷ [];
}

abbrev calls : List AddCall
calls =
    record { now = 1; kind = "gateway_route"; source = "route"; summary = "gw"; details = [] }
    ∷ record { now = 2; kind = "lldp"; source = "lldpd"; summary = "sw"; details = [] }
    ∷ record { now = 3; kind = "icmp_echo"; source = "traceroute"; summary = "hop"; details = [] }
    ∷ []

abbrev home_report : ScanReport ℕ
home_report = record {
  schema_version = report_schema;
  devices = (build home).devices;
  edges = [];
  evidence = (add_records new_evidence_store calls).0.records;
  evidence_registry = [];
  summary = record {
    device_count = 4;
    edge_count = 0;
    evidence_count = 3;
    high_confidence_edges = 1;
    inferred_only = false;
    profile = "quick";
    duration_ms = pos 10;
  };
  topology = none;
}

-- The five edges, the proven one first.
edge_ids :
    map (λ (e : TopologyEdge ℕ). e.id) (build home).edges
    ≡ "edge-dev-gw--dev-sw--lldp" ∷ "edge-dev-gw--dev-peer--route" ∷ "edge-dev-gw--dev-peer--l2"
      ∷ "edge-dev-gw--dev-sw--l2" ∷ "edge-dev-agent--dev-gw--gw" ∷ []
unfolding build sorted_edges map_values add_edges new_edge member is_physical_evidence_edge
    new_graph lookup insert edge_id short_edge_type edge_confidence clamp_confidence base_confidence
    max_confidence
edge_ids = refl

home-IsSupported : IsSupported (report_evidence home_report) home
unfolding is_proven is_physical_evidence_edge cites member add_records add_record new_evidence_store
    minted_id decimal_text decimal ids_of
home-IsSupported = record {
  neighbors_cite = ((λ h. refl), tt);
  neighbors_known = ((refl, (refl, tt)), tt);
  hops_known = ((refl, tt), tt);
  gateway_known = (refl, tt);
}

blank_report : validate_report (with_edges home_report []) ≡ []
unfolding validate_report build member add_records add_record new_evidence_store minted_id
    decimal_text decimal ids_of
blank_report = refl

-- Two offers under one identifier, of which the second is the stronger.
abbrev weak_edge : TopologyEdge ℕ
weak_edge = new_edge "dev-gw" "dev-sw" direct_lldp "first" 400 []

abbrev strong_edge : TopologyEdge ℕ
strong_edge = new_edge "dev-gw" "dev-sw" direct_lldp "second" 900 []

abbrev offers : List (TopologyEdge ℕ)
offers = weak_edge ∷ strong_edge ∷ []

add_edges-IsBest_example :
    IsBest
      (device_ids home)
      "edge-dev-gw--dev-sw--lldp"
      offers
      (lookup "edge-dev-gw--dev-sw--lldp" (add_edges (new_graph (device_ids home)) offers).edges)
add_edges-IsBest_example =
    add_edges-IsBest by_size (device_ids home) "edge-dev-gw--dev-sw--lldp" offers

build-validate_report_example : validate_report (with_edges home_report (build home).edges) ≡ []
build-validate_report_example =
    build-validate_report by_size home home_report refl home-IsSupported blank_report

build-inferred_only_example :
    (build home).inferred_only ≡ not (has_proven_link (device_ids home) home.neighbors)
build-inferred_only_example = build-inferred_only home

build-IsInBand_example : All IsInBand (build home).edges
build-IsInBand_example = build-IsInBand by_size home

sorted_edges-IsFalling_example :
    Perm (sorted_edges (build_graph home)) (map_values (build_graph home).edges)
    × IsFalling (sorted_edges (build_graph home))
sorted_edges-IsFalling_example = sorted_edges-IsFalling by_size (build_graph home)

check_edges_iff_example :
    (check_edges 0 [] (device_ids home) ("ev-1" ∷ []) offers ≡ [])
    ↔ (All (IsNext [] (device_ids home) ("ev-1" ∷ [])) offers × IsApart offers)
check_edges_iff_example = check_edges_iff 0 [] (device_ids home) ("ev-1" ∷ []) offers

add_records-IsUnique_example :
    (let run = add_records new_evidence_store calls in (record_ids run.0 ≡ run.1) × IsUnique run.1)
add_records-IsUnique_example = add_records-IsUnique calls

with_roles-AreRoles_example :
    AreRoles
      (str_eq "dev-gw" "dev-gw")
      (sends_hop "dev-gw" home.route_hops
        || (has_hop home.route_hops && (not (is_empty "dev-gw") && str_eq "dev-gw" "dev-gw")))
      (str_eq "dev-gw" "dev-agent")
      (with_roles home (device "dev-gw" "192.168.1.1")).roles
with_roles-AreRoles_example = with_roles-AreRoles home (device "dev-gw" "192.168.1.1")
