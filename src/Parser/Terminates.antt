-- ===== src/Parser/Terminates.antt =====
-- compiler/parser.py: the parser ends on every list of tokens.
pub mod Rules
pub mod Tokens
pub mod Sources
pub mod Types
pub mod Blocks
pub mod Primary
pub mod Postfix
pub mod Statements
pub mod Program
