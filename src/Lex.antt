-- ===== src/Lex.antt =====
-- The lexer: the stack of modes of src/framework/lex/mode.rs.
pub mod Mode
mod Examples
