-- ===== src/Ippool.antt =====
-- apps/desktop/ippool: the continuous IP discovery pool.
pub mod Types
pub mod Config
pub mod Evidence
pub mod Guard
pub mod Candidates
pub mod Mobile
pub mod Pool
pub mod Registry
pub mod Manager
pub mod Scorer
