-- ===== src/Source.antt =====
-- Source revisions of src/framework/source.rs: deltas between two texts and the coordinates that
-- they leave unchanged.
pub mod Coordinates
pub mod Text
pub mod Mapping
pub mod Rope
pub mod Revision
pub mod Published
pub mod Normalize
pub mod NormalizeLaws
pub mod NormalizeText
mod Examples
