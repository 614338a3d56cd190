-- ===== src/Tape.antt =====
-- The stable tape of src/framework/tape.rs.
pub mod OrderKey
pub mod Between
pub mod Order
pub mod Allocator
pub mod Allocating
pub mod Metric
pub mod Node
pub mod Concat
pub mod Joined
pub mod Rotations
pub mod RebalanceLaws
pub mod Attach
pub mod ConcatLaws
pub mod Split
pub mod SplitLaws
pub mod SplitNode
pub mod Search
pub mod SearchLaws
pub mod Build
pub mod InitialLaws
pub mod BuildLaws
pub mod LeavesLaws
pub mod Stable
pub mod Fitting
pub mod Parts
pub mod Ends
pub mod Splice
pub mod ByteRank
pub mod Occurrence
pub mod OccurrenceLaws
pub mod Locations
pub mod Iter
pub mod IterLaws
pub mod RangeLaws
pub mod Levels
pub mod Cursor
pub mod CursorLaws
pub mod CursorMoves
pub mod ExactEq
mod Examples
