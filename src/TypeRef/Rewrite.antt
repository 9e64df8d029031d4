-- ===== src/TypeRef/Rewrite.antt =====
-- compiler/type_ref.py: `rewrite_type_ref`, by which generic types are instantiated, and the functions
-- that take a type reference apart.
use new_cl_lang.Base.{
  ◌≡◌, refl, sym, ap, ◌∙◌, Bool, false, List, [], ◌∷◌, Option, none, some, if◌then◌else◌, ok,
  Outcome, ◌>>=◌, Bool-cases, inl, inr,
}
use new_cl_lang.Base.Text.{Text, codes, text_eq, text_eq_iff}
use new_cl_lang.Python.{Unicode, ℤ}
use new_cl_lang.TypeRef.Syntax.{
  TypeRef, TypeRefs, TypeError, named, pointer, slice, array, function, generic, nil, cons,
}
use new_cl_lang.TypeRef.Format.{format}
use new_cl_lang.TypeRef.Parse.{Parsed, parse_type_ref}
use new_cl_lang.TypeRef.Decimal.{AsciiLaw}
use new_cl_lang.TypeRef.Canonical.{
  IsName, Canonical, CanonicalAll, of_named, of_pointer, of_slice, of_array, of_function,
  of_generic, of_nil, of_cons,
}
use new_cl_lang.TypeRef.RoundTrip.{parse_type_ref-format}

-- `parse_type_ref(repl) if repl != r.name else r`
unfoldable pub rewrite_name : Unicode → (Text → Text) → Text → Parsed
rewrite_name u fn name =
    if text_eq (fn name) name then ok (named name) else parse_type_ref u (fn name)

unfoldable mutual
  pub rewrite_type_ref : Unicode → (Text → Text) → TypeRef → Parsed
  rewrite_type_ref u fn (named n) = rewrite_name u fn n
  rewrite_type_ref u fn (pointer t nullable) =
      rewrite_type_ref u fn t >>= λ r. ok (pointer r nullable)
  rewrite_type_ref u fn (slice t) = rewrite_type_ref u fn t >>= λ r. ok (slice r)
  rewrite_type_ref u fn (array n t) = rewrite_type_ref u fn t >>= λ r. ok (array n r)
  rewrite_type_ref u fn (function ps t fallible) =
      rewrite_each u fn ps >>= λ qs. rewrite_type_ref u fn t >>= λ r. ok (function qs r fallible)
  rewrite_type_ref u fn (generic b args) =
      rewrite_type_ref u fn b >>= λ c. rewrite_each u fn args >>= λ qs. ok (generic c qs)

  pub rewrite_each : Unicode → (Text → Text) → TypeRefs → Outcome TypeError TypeRefs
  rewrite_each u fn nil = ok nil
  rewrite_each u fn (cons t ts) =
      rewrite_type_ref u fn t >>= λ r. rewrite_each u fn ts >>= λ rs. ok (cons r rs)

-- `format_type_ref(rewrite_type_ref(t, fn))`
unfoldable pub rewrite_type : Unicode → (Text → Text) → TypeRef → Outcome TypeError Text
rewrite_type u fn t = rewrite_type_ref u fn t >>= λ r. ok (format r)

-- The functions below call `parse_type_ref` first, which returns a type reference as it is.
unfoldable pub type_name : TypeRef → Option Text
type_name (named n) = some n
type_name _ = none

abbrev pub formats : TypeRefs → List Text
formats nil = []
formats (cons t ts) = format t ∷ formats ts

unfoldable pub parse_type_app : TypeRef → Option (Text × List Text)
parse_type_app (generic (named n) args) = some (n, formats args)
parse_type_app _ = none

unfoldable pub parse_fn_type : TypeRef → Option (List Text × Text)
parse_fn_type (function ps r fallible) = some (formats ps, format r)
parse_fn_type _ = none

unfoldable pub is_fallible_fn_type : TypeRef → Bool
is_fallible_fn_type (function ps r fallible) = fallible
is_fallible_fn_type _ = false

unfoldable pub parse_slice_type : TypeRef → Option Text
parse_slice_type (slice t) = some (format t)
parse_slice_type _ = none

-- `as_map_type`, and its strings: the two arguments of a type `map[K,V]`.
unfoldable pub as_map_type : TypeRef → Option (TypeRef × TypeRef)
as_map_type (generic (named n) (cons k (cons v nil))) =
    if text_eq n (codes "map") then some (k, v) else none
as_map_type _ = none

-- `parse_map_type` does not count the arguments.
unfoldable pub parse_map_type : TypeRef → Option (List Text)
parse_map_type (generic (named n) args) =
    if text_eq n (codes "map") then some (formats args) else none
parse_map_type _ = none

unfoldable pub parse_array_type : TypeRef → Option (ℤ × Text)
parse_array_type (array n t) = some (n, format t)
parse_array_type _ = none

-- `as_pointer_type`, `as_slice_type`, `as_array_type` and `as_function_type` return the reference itself.
unfoldable pub as_pointer_type : TypeRef → Option TypeRef
as_pointer_type (pointer t nullable) = some (pointer t nullable)
as_pointer_type _ = none

unfoldable pub as_slice_type : TypeRef → Option TypeRef
as_slice_type (slice t) = some (slice t)
as_slice_type _ = none

unfoldable pub as_array_type : TypeRef → Option TypeRef
as_array_type (array n t) = some (array n t)
as_array_type _ = none

unfoldable pub as_function_type : TypeRef → Option TypeRef
as_function_type (function ps r fallible) = some (function ps r fallible)
as_function_type _ = none

-- Substitution of types for names, as a plain recursion.
unfoldable mutual
  pub substitute : (Text → TypeRef) → TypeRef → TypeRef
  substitute σ (named n) = σ n
  substitute σ (pointer t nullable) = pointer (substitute σ t) nullable
  substitute σ (slice t) = slice (substitute σ t)
  substitute σ (array n t) = array n (substitute σ t)
  substitute σ (function ps t fallible) = function (substitute_each σ ps) (substitute σ t) fallible
  substitute σ (generic b args) = generic (substitute σ b) (substitute_each σ args)

  pub substitute_each : (Text → TypeRef) → TypeRefs → TypeRefs
  substitute_each σ nil = nil
  substitute_each σ (cons t ts) = cons (substitute σ t) (substitute_each σ ts)

module _ {u : Unicode} (law : AsciiLaw u) (σ : Text → TypeRef)
    (canonical : (n : Text) → IsName u n → Canonical u (σ n)) where
  rewrite_name-format : (n : Text) → IsName u n → rewrite_name u (λ m. format (σ m)) n ≡ ok (σ n)
  unfolding rewrite_name format
  rewrite_name-format n h = elim (Bool-cases (text_eq (format (σ n)) n)) [
    | inl same ↦ rw same (
        sym (parse_type_ref-format law (of_named h))
        ∙ ap (parse_type_ref u) (sym ((text_eq_iff (format (σ n)) n).0 same) ∙ refl)
        ∙ parse_type_ref-format law (canonical n h))
    | inr other ↦ rw other (parse_type_ref-format law (canonical n h))
  ]

  mutual
    unfolding rewrite_type_ref substitute

    rewritten :
        {t : TypeRef}
        → Canonical u t
        → rewrite_type_ref u (λ n. format (σ n)) t ≡ ok (substitute σ t)
    rewritten (of_named {n} h) = rewrite_name-format n h
    rewritten (of_pointer nullable c) = rw (rewritten c) refl
    rewritten (of_slice c) = rw (rewritten c) refl
    rewritten (of_array n h c) = rw (rewritten c) refl
    rewritten (of_function fallible e cs c) = rw (each_rewritten cs, rewritten c) refl
    rewritten (of_generic {n} h cs) = rw (rewrite_name-format n h, each_rewritten cs) refl

    each_rewritten :
        {ts : TypeRefs}
        → CanonicalAll u ts
        → rewrite_each u (λ n. format (σ n)) ts ≡ ok (substitute_each σ ts)
    each_rewritten of_nil = refl
    each_rewritten (of_cons c cs) = rw (rewritten c, each_rewritten cs) refl

-- Rewriting a canonical type reference by a function that gives each name the canonical string of a
-- type, canonical for every name, succeeds and is the substitution of those types for the names.
pub rewrite_type_ref-substitute :
    {u : Unicode} (law : AsciiLaw u) (σ : Text → TypeRef)
    → ((n : Text) → IsName u n → Canonical u (σ n))
    → {t : TypeRef} → Canonical u t
    → rewrite_type_ref u (λ n. format (σ n)) t ≡ ok (substitute σ t)
rewrite_type_ref-substitute law σ canonical c = rewritten law σ canonical c
