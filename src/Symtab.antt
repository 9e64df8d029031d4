-- ===== src/Symtab.antt =====
-- compiler/symtab.py: the symbol table and the pass that collects the declarations.
pub mod Table
pub mod Scopes
pub mod ReservedNames
pub mod Declares
pub mod Build
pub mod Kept
