-- ===== src/Recovery.antt =====
-- The search for repairs: src/framework/parse/recovery.rs.
pub mod Score
pub mod ScoreLaws
pub mod Queue
pub mod QueueLaws
pub mod Closure
pub mod Neighbours
pub mod Examples
