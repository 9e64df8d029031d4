-- ===== src/Layout/Sizes.antt =====
-- compiler/llvm_layout.py: the methods of `LLVMLayout`. The module's tables of structs, enums and
-- interfaces are a parameter. A struct that contains itself has no size: the recursion does not end.
use new_cl_lang.Base.{
  ℕ, zero, suc, ◌+◌, ◌-◌, ◌*◌, ◌/◌, max, Bool, true, false, ◌||◌, List, [], ◌∷◌, none, some,
  if◌then◌else◌, Outcome, ok, raised, out_of_fuel, ◌>>=◌,
}
use new_cl_lang.Base.Text.{Text, codes, text_eq, one_of}
use new_cl_lang.Base.Dict.{Dict, lookup}
use new_cl_lang.TypeRef.Syntax.{TypeRef, pointer, slice, array, function}
use new_cl_lang.TypeRef.Same.{type_key}
use new_cl_lang.TypeRef.Rewrite.{as_map_type}

-- `STRUCT_FIELDS`, and the names in `ENUM_VARIANTS` and `IFACE_METHODS`
pub record LayoutTables : Type 0 where
  pub struct_fields : Dict (List (Text × TypeRef))
  pub enum_names : List Text
  pub iface_names : List Text

-- The NotImplementedErrors, with the type's key.
pub data LayoutError : Type 0 where
  no_size no_alignment : Text → LayoutError

abbrev pub Measure : Type 0
Measure = Outcome LayoutError ℕ

abbrev pub is_map : TypeRef → Bool
is_map t = elim (as_map_type t) [ none ↦ false | some args ↦ true ]

unfoldable pub is_pointer : TypeRef → Bool
is_pointer (pointer t nullable) = true
is_pointer _ = false

unfoldable pub is_function : TypeRef → Bool
is_function (function ps r fallible) = true
is_function _ = false

unfoldable pub is_slice : TypeRef → Bool
is_slice (slice t) = true
is_slice _ = false

unfoldable pub is_array : TypeRef → Bool
is_array (array n t) = true
is_array _ = false

unfoldable pub align_to : ℕ → ℕ → ℕ
align_to value alignment = (value + alignment - 1) / alignment * alignment

-- The loop of `sizeof_fields` with the methods that it calls, from an offset and the largest alignment.
unfoldable pub fields_from :
    (size align : TypeRef → Measure) → List (Text × TypeRef) → (offset max_align : ℕ) → Measure
fields_from size align [] offset max_align = ok (align_to offset max_align)
fields_from size align ((name, t) ∷ fields) offset max_align = align t >>= λ a.
    size t >>= λ n. fields_from size align fields (align_to offset a + n) (max max_align a)

unfoldable pub sizeof_fields : (size align : TypeRef → Measure) → List (Text × TypeRef) → Measure
sizeof_fields size align fields = fields_from size align fields 0 1

-- `max(aligns, default=1)`
unfoldable pub max_alignment : (TypeRef → Measure) → List (Text × TypeRef) → Measure
max_alignment align [] = ok 1
max_alignment align ((name, t) ∷ []) = align t
max_alignment align ((name, t) ∷ f ∷ fields) =
    align t >>= λ a. max_alignment align (f ∷ fields) >>= λ b. ok (max a b)

unfoldable pub alignof_type : LayoutTables → ℕ → TypeRef → Measure
alignof_type tables zero t = out_of_fuel
alignof_type tables (suc fuel) t =
    if text_eq (type_key t) (codes "void")
    then raised (no_alignment (type_key t))
    else if one_of (type_key t) (codes "i8" ∷ codes "u8" ∷ codes "bool" ∷ [])
    then ok 1
    else if one_of (type_key t) (codes "i16" ∷ codes "u16" ∷ [])
    then ok 2
    else if one_of (type_key t) (codes "i32" ∷ codes "u32" ∷ codes "f32" ∷ codes "rune" ∷ [])
        || one_of (type_key t) tables.enum_names
    then ok 4
    else if one_of (type_key t) (
          codes "i64"
          ∷ codes "u64"
          ∷ codes "f64"
          ∷ codes "str"
          ∷ codes "error"
          ∷ codes "nc_map"
          ∷ [])
        || is_map t
    then ok 8
    else if is_pointer t
    then ok 8
    else if is_function t || one_of (type_key t) tables.iface_names
    then ok 8
    else if is_slice t
    then ok 8
    else if is_array t
    then ok 8
    else elim (lookup (type_key t) tables.struct_fields) [
      | some fields ↦ max_alignment (alignof_type tables fuel) fields
      | none ↦ raised (no_alignment (type_key t))
    ]

unfoldable pub sizeof_type : LayoutTables → ℕ → TypeRef → Measure
sizeof_type tables zero t = out_of_fuel
sizeof_type tables (suc fuel) t =
    if text_eq (type_key t) (codes "void")
    then raised (no_size (type_key t))
    else if one_of (type_key t) (codes "i8" ∷ codes "u8" ∷ codes "bool" ∷ [])
    then ok 1
    else if one_of (type_key t) (codes "i16" ∷ codes "u16" ∷ [])
    then ok 2
    else if one_of (type_key t) (codes "i32" ∷ codes "u32" ∷ codes "f32" ∷ codes "rune" ∷ [])
        || one_of (type_key t) tables.enum_names
    then ok 4
    else if one_of (type_key t) (codes "i64" ∷ codes "u64" ∷ codes "f64" ∷ [])
    then ok 8
    else if text_eq (type_key t) (codes "str")
    then ok 16
    else if text_eq (type_key t) (codes "error")
    then ok 40
    else if text_eq (type_key t) (codes "nc_map") || is_map t
    then ok 40
    else if text_eq (type_key t) (codes "raw")
    then ok 8
    else if is_pointer t
    then ok 8
    else if is_function t
    then ok 16
    else if one_of (type_key t) tables.iface_names
    then ok 16
    else if is_slice t
    then ok 24
    else if is_array t
    then ok 8
    else elim (lookup (type_key t) tables.struct_fields) [
      | some fields ↦ sizeof_fields (sizeof_type tables fuel) (alignof_type tables fuel) fields
      | none ↦ raised (no_size (type_key t))
    ]

unfoldable pub aligned_sizeof_type : LayoutTables → ℕ → TypeRef → Measure
aligned_sizeof_type tables fuel t =
    sizeof_type tables fuel t >>= λ n. alignof_type tables fuel t >>= λ a. ok (align_to n a)
