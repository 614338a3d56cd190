-- ===== src/Grammar.antt =====
-- Grammars and their analysis: src/framework/parse/grammar.rs and src/framework/parse/analyze.rs.
pub mod Symbols
pub mod Nullable
pub mod NullableLaws
pub mod First
pub mod FirstExtend
pub mod FirstLaws
pub mod FirstSets
pub mod Examples
