-- ===== src/Span.antt =====
-- Byte ranges and source spans: src/utils.rs
pub mod Range
pub mod Bytes
pub mod Located
pub mod LocatedLaws
mod Examples
