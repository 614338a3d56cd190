-- ===== src/Seq.antt =====
-- src/utils/persistent_seq.rs
pub mod Measure
pub mod Node
pub mod Join
pub mod Split
pub mod Build
pub mod Iter
pub mod Access
pub mod Sequence
pub mod Edits
pub mod Reads
mod Examples
