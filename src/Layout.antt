-- ===== src/Layout.antt =====
-- compiler/llvm_layout.py: the sizes and alignments of types and the placement of struct fields.
pub mod Sizes
pub mod Alignment
pub mod Alignments
pub mod Multiples
