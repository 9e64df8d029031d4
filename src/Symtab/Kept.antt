-- ===== src/Symtab/Kept.antt =====
-- compiler/symtab.py: what a pass over a program keeps. The walk of `build_symbol_table` is handled once,
-- for any relation of two tables that its operations satisfy.
pub mod Walk
pub mod Levels
pub mod Program
