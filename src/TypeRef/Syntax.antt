-- ===== src/TypeRef/Syntax.antt =====
-- compiler/type_ref.py: the classes of type references.
use new_cl_lang.Base.{ℕ, Bool}
use new_cl_lang.Base.Text.{Text}
use new_cl_lang.Python.{ℤ}

-- `TypeRefs` is the tuple of a function's parameters or of a generic type's arguments.
mutual
  pub data TypeRef : Type 0 where
    named : Text → TypeRef
    pointer : TypeRef → (nullable : Bool) → TypeRef
    slice : TypeRef → TypeRef
    array : ℤ → TypeRef → TypeRef
    function : TypeRefs → TypeRef → (fallible : Bool) → TypeRef
    generic : TypeRef → TypeRefs → TypeRef

  pub data TypeRefs : Type 0 where
    nil : TypeRefs
    cons : TypeRef → TypeRefs → TypeRefs

-- TypeParseError with its three messages, and the ValueError of `int` in an array's length.
pub data TypeError : Type 0 where
  unclosed : ℕ → TypeError
  invalid_array invalid_function length_not_integer : TypeError
