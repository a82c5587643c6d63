-- ===== src/Topology/Types.antt =====
-- The data contracts of agent/pkg/models/topology.go that the topology package reads or writes.
-- `F` is the type of `float64`, a count of a summary is not negative, and a time is a number of
-- nanoseconds. Left out are the mobile fingerprint of a device, the free-form data of an item of the
-- registry and its confidence, the parts of a rich node and of a version 2 edge that are not
-- validated, and the sections of a report that are not.
use tmap.Base.{ℕ, Bool, Option, List, String}
use tmap.Base.Int.{ℤ}
use tmap.Base.Map.{Map}

abbrev pub report_schema : String
report_schema = "iad.topology/v2"

-- The types of an edge. They stay texts: a report that is read back may hold any.
abbrev pub direct_lldp : String
direct_lldp = "direct_lldp"

abbrev pub direct_cdp : String
direct_cdp = "direct_cdp"

abbrev pub snmp_bridge : String
snmp_bridge = "snmp_bridge"

abbrev pub route_hop : String
route_hop = "route_hop"

abbrev pub inferred_l2 : String
inferred_l2 = "inferred_l2"

abbrev pub gateway_default : String
gateway_default = "gateway_default"

abbrev pub role_agent : String
role_agent = "agent"

abbrev pub role_gateway : String
role_gateway = "gateway"

abbrev pub role_router : String
role_router = "router"

abbrev pub role_host : String
role_host = "host"

pub record IpAddress : Type 0 where
  pub ip : String
  pub version : ℤ
  pub cidr : String

pub record DeviceInterface : Type 0 where
  pub mac : String
  pub vendor : String
  pub ips : List String

pub record Service : Type 0 where
  pub port : ℤ
  pub protocol : String
  pub state : String
  pub name : String
  pub product : String
  pub evidence_ids : List String

pub record Device (F : Type 0) : Type 0 where
  pub id : String
  pub hostname : String
  pub hostnames : List String
  pub vendor : String
  pub mac : String
  pub oui_vendor : String
  pub device_type_hint : String
  pub os_hint : String
  pub os_confidence : F
  pub roles : List String
  pub is_agent : Bool
  pub is_gateway : Bool
  pub addresses : List IpAddress
  pub interfaces : List DeviceInterface
  pub services : List Service
  pub reachability : String
  pub discovery_sources : List String
  pub first_seen : ℕ
  pub last_seen : ℕ
  pub confidence : F
  pub evidence_ids : List String

pub record TopologyEdge (F : Type 0) : Type 0 where
  pub id : String
  pub source : String
  pub target : String
  pub type : String
  pub layer : String
  pub relationship : String
  pub physical : Bool
  pub inferred : Bool
  pub confidence : F
  pub confidence_label : String
  pub proof_source : String
  pub ui_line_style : String
  pub evidence_ids : List String
  pub reason : String

pub record Evidence : Type 0 where
  pub id : String
  pub kind : String
  pub source : String
  pub summary : String
  pub details : Map String
  pub timestamp : ℕ

pub record EvidenceRegistryItem : Type 0 where
  pub id : String
  pub kind : String
  pub source : String
  pub summary : String
  pub timestamp : ℕ
  pub safe_to_display : Bool

pub record ScanSummary : Type 0 where
  pub device_count : ℕ
  pub edge_count : ℕ
  pub evidence_count : ℕ
  pub high_confidence_edges : ℕ
  pub inferred_only : Bool
  pub profile : String
  pub duration_ms : ℤ

pub record RichTopologyNode (F : Type 0) : Type 0 where
  pub id : String
  pub confidence : F

pub record TopologyV2Edge (F : Type 0) : Type 0 where
  pub id : String
  pub source : String
  pub target : String
  pub type : String
  pub relation : String
  pub medium : String
  pub confidence : F
  pub explanation : String

pub record TopologyV2Model (F : Type 0) : Type 0 where
  pub schema_version : String
  pub nodes : List (RichTopologyNode F)
  pub edges : List (TopologyV2Edge F)

pub record ScanReport (F : Type 0) : Type 0 where
  pub schema_version : String
  pub devices : List (Device F)
  pub edges : List (TopologyEdge F)
  pub evidence : List Evidence
  pub evidence_registry : List EvidenceRegistryItem
  pub summary : ScanSummary
  pub topology : Option (TopologyV2Model F)
