-- ===== src/Tests.antt =====
-- Concrete inputs: each theorem with hypotheses at one of them, and runs of the code.
mod Config
mod Pool
mod Discovery
mod Scorer
mod Topology
mod Scope
mod Scoring
