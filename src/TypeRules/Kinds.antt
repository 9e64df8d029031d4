-- ===== src/TypeRules/Kinds.antt =====
-- compiler/type_rules.py: the predicates on one type. A type reference equals a string, and is in a
-- set of strings, when its key is.
use new_cl_lang.Base.{Bool, true, false, ◌||◌, List, [], ◌∷◌, none, some}
use new_cl_lang.Base.Text.{Text, codes, text_eq, one_of}
use new_cl_lang.Base.Dict.{contains}
use new_cl_lang.TypeRef.Syntax.{TypeRef, pointer, slice, array, function}
use new_cl_lang.TypeRef.Same.{type_key}
use new_cl_lang.TypeRef.Rewrite.{as_map_type}
use new_cl_lang.Symtab.Table.{SymbolTable}

abbrev pub numeric_types : List Text
numeric_types =
    codes "i8"
    ∷ codes "i16"
    ∷ codes "i32"
    ∷ codes "i64"
    ∷ codes "u8"
    ∷ codes "u16"
    ∷ codes "u32"
    ∷ codes "u64"
    ∷ codes "f32"
    ∷ codes "f64"
    ∷ []

abbrev pub float_types : List Text
float_types = codes "f32" ∷ codes "f64" ∷ []

abbrev pub extern_abi_types : List Text
extern_abi_types =
    codes "i8"
    ∷ codes "i16"
    ∷ codes "i32"
    ∷ codes "i64"
    ∷ codes "u8"
    ∷ codes "u16"
    ∷ codes "u32"
    ∷ codes "u64"
    ∷ codes "f32"
    ∷ codes "f64"
    ∷ codes "bool"
    ∷ []

abbrev pub integer_types : List Text
integer_types =
    codes "i8"
    ∷ codes "i16"
    ∷ codes "i32"
    ∷ codes "i64"
    ∷ codes "u8"
    ∷ codes "u16"
    ∷ codes "u32"
    ∷ codes "u64"
    ∷ []

unfoldable pub is_pointer_type : TypeRef → Bool
is_pointer_type (pointer t false) = true
is_pointer_type _ = false

unfoldable pub is_nullable_pointer_type : TypeRef → Bool
is_nullable_pointer_type (pointer t true) = true
is_nullable_pointer_type _ = false

unfoldable pub nonnullable_pointer_type : TypeRef → TypeRef
nonnullable_pointer_type (pointer t nullable) = pointer t false
nonnullable_pointer_type t = t

unfoldable pub is_nil_type : TypeRef → Bool
is_nil_type t = text_eq (type_key t) (codes "__nil")

unfoldable pub is_numeric_type : TypeRef → Bool
is_numeric_type t = one_of (type_key t) numeric_types

unfoldable pub is_integer_type : TypeRef → Bool
is_integer_type t = one_of (type_key t) integer_types

unfoldable pub is_rune_type : TypeRef → Bool
is_rune_type t = text_eq (type_key t) (codes "rune")

unfoldable pub is_iface_type : SymbolTable → TypeRef → Bool
is_iface_type table t = contains (type_key t) table.ifaces

abbrev pub is_map : TypeRef → Bool
is_map t = elim (as_map_type t) [ none ↦ false | some args ↦ true ]

-- A slice, an array or a function.
unfoldable pub is_composite : TypeRef → Bool
is_composite (slice t) = true
is_composite (array n t) = true
is_composite (function ps r fallible) = true
is_composite _ = false

unfoldable pub is_extern_abi_type : TypeRef → Bool
is_extern_abi_type (pointer t nullable) =
    let inner = is_extern_abi_type t in
    text_eq (type_key (pointer t nullable)) (codes "void")
    || one_of (type_key (pointer t nullable)) extern_abi_types
    || inner
is_extern_abi_type t = text_eq (type_key t) (codes "void") || one_of (type_key t) extern_abi_types
