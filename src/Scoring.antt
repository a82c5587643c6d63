-- ===== src/Scoring.antt =====
-- agent/internal/scoring: the rules that turn evidence into scores, and the board of the scores.
pub mod Rules
pub mod Board
pub mod Matcher
pub mod Engine
