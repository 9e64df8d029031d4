-- ===== src/Builtins.antt =====
-- compiler/builtins.py: the types of calls of builtin functions.
use new_cl_lang.Base.{
  ℕ, Bool, true, false, ◌||◌, ◌&&◌, List, [], ◌∷◌, ◌++◌, Option, none, some, if◌then◌else◌, length,
  Outcome, ok, raised, ◌>>=◌,
}
use new_cl_lang.Base.Text.{Text, codes, text_eq, one_of}
use new_cl_lang.TypeRef.Syntax.{TypeRef, named, pointer, slice, generic, cons, nil}
use new_cl_lang.TypeRef.Same.{type_key}
use new_cl_lang.TypeRef.Rewrite.{as_slice_type, as_map_type}
use new_cl_lang.TypeRules.Kinds.{numeric_types}
pub mod Arity

-- The calls of `fail`: a wrong number of arguments, with the number expected and the number given; an argument
-- of a wrong type; and what `require_type` refuses, with its context, the type given and the type expected.
pub data TypeError : Type 0 where
  arg_count : Text → (expected given : ℕ) → TypeError
  bad_arg : Text → TypeRef → TypeError
  mismatch : Text → (given expected : TypeRef) → TypeError

-- None where the name is no builtin.
abbrev pub Checked : Type 0
Checked = Outcome TypeError (Option TypeRef)

abbrev pub answer : Text → Checked
answer name = ok (some (named name))

-- `require_arg_count`, and then the arguments' types.
unfoldable pub no_args : Text → List TypeRef → Checked → Checked
no_args name [] k = k
no_args name (a ∷ rest) k = raised (arg_count name 0 (length (a ∷ rest)))

unfoldable pub one_arg : Text → List TypeRef → (TypeRef → Checked) → Checked
one_arg name (a ∷ []) k = k a
one_arg name args k = raised (arg_count name 1 (length args))

unfoldable pub two_args : Text → List TypeRef → (TypeRef → TypeRef → Checked) → Checked
two_args name (a ∷ b ∷ []) k = k a b
two_args name args k = raised (arg_count name 2 (length args))

-- `SIGNED_NUMERIC_TYPES`, and `SCALAR_TYPES`, which are the `STRINGIFIABLE_TYPES`
abbrev pub signed_numeric_types : List Text
signed_numeric_types =
    codes "i8" ∷ codes "i16" ∷ codes "i32" ∷ codes "i64" ∷ codes "f32" ∷ codes "f64" ∷ []

abbrev pub scalar_types : List Text
scalar_types = numeric_types ++ (codes "str" ∷ codes "bool" ∷ codes "rune" ∷ codes "error" ∷ [])

abbrev pub is_a : TypeRef → List Text → Bool
is_a t names = one_of (type_key t) names

abbrev pub is_slice : TypeRef → Bool
is_slice t = elim (as_slice_type t) [ none ↦ false | some s ↦ true ]

abbrev pub is_map : TypeRef → Bool
is_map t = elim (as_map_type t) [ none ↦ false | some kv ↦ true ]

-- `as_pointer_type(t)` to i8 or u8
unfoldable pub is_byte_pointer : TypeRef → Bool
is_byte_pointer (pointer t nullable) = is_a t (codes "i8" ∷ codes "u8" ∷ [])
is_byte_pointer _ = false

-- `require_type` is the type checker's: given and expected type, with a context.
module _ (require_type : (given expected : TypeRef) → Text → Outcome TypeError (Unit {0})) where
  unfoldable pub append_call : TypeRef → TypeRef → Checked
  append_call (slice elem) b =
      require_type b elem (codes "append element") >>= λ _. ok (some (slice elem))
  append_call a b = raised (bad_arg (codes "append: expected slice") a)

  unfoldable pub copy_call : TypeRef → TypeRef → Checked
  copy_call a b =
      if is_slice a
      then (if is_slice b
          then (require_type b a (codes "copy src") >>= λ _. answer (codes "i32"))
          else raised (bad_arg (codes "copy src: expected slice") b))
      else raised (bad_arg (codes "copy dst: expected slice") a)

  unfoldable pub delete_call : TypeRef → TypeRef → Checked
  delete_call a b = elim (as_map_type a) [
    | none ↦ raised (bad_arg (codes "delete: expected map") a)
    | some (key, value) ↦ require_type b key (codes "delete key") >>= λ _. answer (codes "void")
  ]

  unfoldable pub str_call : TypeRef → Checked
  str_call a =
      if text_eq (type_key a) (codes "[]u8")
      then answer (codes "str")
      else if is_byte_pointer a
      then answer (codes "str")
      else if is_a a scalar_types
      then answer (codes "str")
      else raised (bad_arg (codes "str: cannot convert") a)

  -- `min` and `max`
  unfoldable pub extreme_call : Text → TypeRef → TypeRef → Checked
  extreme_call name a b =
      if is_a a numeric_types
      then (require_type b a (name ++ codes " rhs") >>= λ _. ok (some a))
      else raised (bad_arg (name ++ codes ": expected numeric value") a)

  -- The conversion to the numeric type `name`.
  unfoldable pub convert_call : Text → TypeRef → Checked
  convert_call name a =
      if text_eq name (codes "i32") && text_eq (type_key a) (codes "str")
      then answer (codes "i32")
      else if one_of name (codes "i32" ∷ codes "u32" ∷ []) && text_eq (type_key a) (codes "rune")
      then answer name
      else if is_a a numeric_types
      then answer name
      else raised (bad_arg (name ++ codes ": expected numeric value") a)

  -- The builtins behind `str`, in the source's order.
  unfoldable pub infer_scalar_call : Text → List TypeRef → Checked
  infer_scalar_call name args =
      if text_eq name (codes "__nc_bytes_alloc")
      then one_arg name args (λ a.
        require_type a (named (codes "u64")) (codes "__nc_bytes_alloc len") >>= λ _.
        ok (some (slice (named (codes "u8")))))
      else if one_of name (codes "min" ∷ codes "max" ∷ [])
      then two_args name args (extreme_call name)
      else if text_eq name (codes "abs")
      then one_arg name args (λ a.
        if is_a a signed_numeric_types
        then ok (some a)
        else raised (bad_arg (codes "abs: expected signed numeric value") a))
      else if text_eq name (codes "rune")
      then one_arg name args (λ a.
        if is_a a (codes "i32" ∷ codes "u32" ∷ [])
        then answer (codes "rune")
        else raised (bad_arg (codes "rune: expected i32 or u32 value") a))
      else if one_of name numeric_types
      then one_arg name args (convert_call name)
      else if text_eq name (codes "runtime.gc_collect")
      then no_args name args (answer (codes "void"))
      else if text_eq name (codes "runtime.gc_live")
      then no_args name args (answer (codes "i32"))
      else if text_eq name (codes "len")
      then one_arg name args (λ a.
        if text_eq (type_key a) (codes "str") || is_map a || is_slice a
        then answer (codes "i32")
        else raised (bad_arg (codes "len: expected str, map, or slice") a))
      else ok none

  -- `infer_builtin_call`, on the call's name and the types of its arguments
  unfoldable pub infer_builtin_call : Text → List TypeRef → Checked
  infer_builtin_call name args =
      if one_of name (codes "io.print" ∷ codes "io.println" ∷ [])
      then one_arg name args (λ a. answer (codes "void"))
      else if text_eq name (codes "append")
      then two_args name args append_call
      else if text_eq name (codes "cap")
      then one_arg name args (λ a.
        if is_slice a
        then answer (codes "i32")
        else raised (bad_arg (codes "cap: expected slice") a))
      else if text_eq name (codes "copy")
      then two_args name args copy_call
      else if text_eq name (codes "clear")
      then one_arg name args (λ a.
        if is_slice a || is_map a
        then answer (codes "void")
        else raised (bad_arg (codes "clear: expected slice or map") a))
      else if text_eq name (codes "delete")
      then two_args name args delete_call
      else if text_eq name (codes "str")
      then one_arg name args str_call
      else infer_scalar_call name args
