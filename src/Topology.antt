-- ===== src/Topology.antt =====
-- agent/internal/topology: the evidence-backed device graph and the validation of a report.
pub mod Types
pub mod Confidence
pub mod Edge
pub mod Evidence
pub mod Graph
pub mod Builder
pub mod Validate
