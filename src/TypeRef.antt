-- ===== src/TypeRef.antt =====
-- compiler/type_ref.py: type references, their canonical strings, and the parser of those.
pub mod Syntax
pub mod Split
pub mod Parse
pub mod Format
pub mod Brackets
pub mod Canonical
pub mod Edges
pub mod Decimal
pub mod Parts
pub mod RoundTrip
pub mod Same
pub mod Rewrite
