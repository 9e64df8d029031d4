-- ===== src/TypeRules.antt =====
-- compiler/type_rules.py: the predicates on types, and the types that may be compared or be keys of maps.
pub mod Kinds
pub mod Comparable
pub mod Terminates
