-- ===== src/TypeRef/Same.antt =====
-- compiler/type_ref.py: `type_key` and `same_type` on type references, the equality of types
-- throughout the compiler.
use new_cl_lang.Base.{◌≡◌, ◌≢◌, ◌↔◌, sym, ap, ◌∙◌, Bool, true, false, ◌++◌, append_assoc, ok}
use new_cl_lang.Base.Text.{Text, codes, text_eq, text_eq_iff, text_eq_refl}
use new_cl_lang.Python.{Unicode}
use new_cl_lang.TypeRef.Syntax.{TypeRef, TypeRefs, function}
use new_cl_lang.TypeRef.Format.{format, join_format, err_text}
use new_cl_lang.TypeRef.Parse.{Parsed, parse_type_ref}
use new_cl_lang.TypeRef.Decimal.{AsciiLaw}
use new_cl_lang.TypeRef.Canonical.{Canonical}
use new_cl_lang.TypeRef.RoundTrip.{parse_type_ref-format}

-- `format_type_ref(parse_type_ref(t))`, where `parse_type_ref` returns a type reference as it is
unfoldable pub type_key : TypeRef → Text
unfolding format
type_key t = format t

unfoldable pub same_type : TypeRef → TypeRef → Bool
unfolding type_key text_eq
same_type a b = text_eq (type_key a) (type_key b)

ok-injective : {a b : TypeRef} → ◌≡◌ {A = Parsed} (ok a) (ok b) → a ≡ b
ok-injective h = cc

-- On canonical type references, `same_type` is equality.
pub same_type_iff :
    {u : Unicode} (law : AsciiLaw u) {a b : TypeRef}
    → Canonical u a
    → Canonical u b
    → (same_type a b ≡ true) ↔ (a ≡ b)
unfolding same_type type_key
same_type_iff {u} law {a} {b} ca cb = (to, λ e. rw e (text_eq_refl (format b)))
  where
    to : text_eq (format a) (format b) ≡ true → a ≡ b
    to h = ok-injective (
        sym (parse_type_ref-format law ca)
        ∙ ap (parse_type_ref u) ((text_eq_iff (format a) (format b)).0 h)
        ∙ parse_type_ref-format law cb)

err_text-twice :
    (a b : Bool) (ps qs : TypeRefs) (r : TypeRef)
    → format (function ps (function qs r a) b)
      ≡ codes "fn("
        ++ (join_format ps
            ++ (codes ")->fn("
                ++ (join_format qs ++ (codes ")->" ++ (format r ++ (err_text a ++ err_text b))))))
unfolding format
err_text-twice a b ps qs r = simp append_assoc

-- A fallible function whose result is a function, and a function whose result is that function made
-- fallible, are taken for the same type though they differ: the canonical string does not say to
-- which of the two arrows a final ` err` belongs.
pub same_type-result_err :
    (ps qs : TypeRefs) (r : TypeRef)
    → (same_type (function ps (function qs r false) true) (function ps (function qs r true) false)
        ≡ true)
      × (function ps (function qs r false) true ≢ function ps (function qs r true) false)
unfolding same_type type_key
same_type-result_err ps qs r = (
  (text_eq_iff (format (function ps (function qs r false) true))
        (format (function ps (function qs r true) false))).1
      (err_text-twice false true ps qs r ∙ sym (err_text-twice true false ps qs r)),
  λ e. cc,
)
