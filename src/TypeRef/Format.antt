-- ===== src/TypeRef/Format.antt =====
-- compiler/type_ref.py: `format_type_ref`, the canonical string, and `format_type_ref_user`, the
-- string of the diagnostics.
use new_cl_lang.Base.{Bool, [], ◌∷◌, ◌++◌, if◌then◌else◌}
use new_cl_lang.Base.Text.{Text, codes}
use new_cl_lang.Python.{int_text}
use new_cl_lang.TypeRef.Syntax.{
  TypeRef, TypeRefs, named, pointer, slice, array, function, generic, nil, cons,
}

abbrev pub star_text : Bool → Text
star_text nullable = if nullable then codes "?*" else codes "*"

abbrev pub err_text : Bool → Text
err_text fallible = if fallible then codes " err" else []

unfoldable mutual
  pub format : TypeRef → Text
  format (named n) = n
  format (pointer t nullable) = star_text nullable ++ format t
  format (slice t) = codes "[]" ++ format t
  format (array n t) = b'[' ∷ (int_text n ++ (b']' ∷ format t))
  format (function ps r fallible) =
      codes "fn(" ++ (join_format ps ++ (codes ")->" ++ (format r ++ err_text fallible)))
  format (generic b args) = format b ++ (b'[' ∷ (join_format args ++ b']' ∷ []))

  -- `','.join(format_type_ref(p) for p in params)`
  pub join_format : TypeRefs → Text
  join_format nil = []
  join_format (cons t ts) = format t ++ format_rest ts

  pub format_rest : TypeRefs → Text
  format_rest nil = []
  format_rest (cons t ts) = b',' ∷ (format t ++ format_rest ts)

unfoldable mutual
  pub format_user : TypeRef → Text
  format_user (named n) = n
  format_user (pointer t nullable) = star_text nullable ++ format_user t
  format_user (slice t) = codes "[]" ++ format_user t
  format_user (array n t) = b'[' ∷ (int_text n ++ (b']' ∷ format_user t))
  format_user (function ps r fallible) =
      codes "fun("
      ++ (join_user (codes ", ") ps ++ (codes ") " ++ (format_user r ++ err_text fallible)))
  format_user (generic b args) = format_user b ++ (b'[' ∷ (join_user (codes ",") args ++ b']' ∷ []))

  -- `sep.join(format_type_ref_user(p) for p in params)`
  pub join_user : Text → TypeRefs → Text
  join_user sep nil = []
  join_user sep (cons t ts) = format_user t ++ rest_user sep ts

  pub rest_user : Text → TypeRefs → Text
  rest_user sep nil = []
  rest_user sep (cons t ts) = sep ++ (format_user t ++ rest_user sep ts)
