-- ===== src/Parser.antt =====
-- compiler/parser.py: the parser.
pub mod State
pub mod Types
pub mod Knot
pub mod Blocks
pub mod Primary
pub mod Postfix
pub mod Declarations
pub mod Statements
pub mod Program
pub mod Weight
pub mod Terminates
pub mod Grammar
pub mod IndexedBlock
pub mod LeftAssociative
