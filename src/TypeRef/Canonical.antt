-- ===== src/TypeRef/Canonical.antt =====
-- compiler/type_ref.py: the type references whose canonical string can be read back, and the shape
-- of that string.
use new_cl_lang.Base.{
  ℕ, ◌≡◌, refl, Bool, true, false, not, ◌&&◌, ◌||◌, [], ◌∷◌, ◌==◌, leb, arith, length, All,
}
use new_cl_lang.Base.Text.{Text}
use new_cl_lang.Python.{Unicode, pos, decimal_text, int_text, max_str_digits}
use new_cl_lang.TypeRef.Syntax.{
  TypeRef, TypeRefs, named, pointer, slice, array, function, generic, nil, cons,
}
use new_cl_lang.TypeRef.Format.{format, join_format, format_rest, star_text, err_text}
use new_cl_lang.TypeRef.Brackets.{
  is_bracket, Balanced, done, plain, square, round, Balanced-append, Balanced-weaken,
}
use new_cl_lang.TypeRef.Decimal.{IsDigit, decimal_text-IsDigit}

-- The characters of names: no spaces, brackets, commas, stars or question marks.
abbrev pub is_name_char : Unicode → ℕ → Bool
is_name_char u c =
    not (u.is_space c)
    && not (is_bracket c)
    && not (c == b',')
    && not (c == b' ')
    && not (c == b'*')
    && not (c == b'?')

abbrev pub IsName : Unicode → Text → Type 0
IsName u [] = ⊥
IsName u (c ∷ cs) = All (λ d. is_name_char u d ≡ true) (c ∷ cs)

-- The canonical string of the type ends in ` err`.
unfoldable pub ends_fallible : TypeRef → Bool
ends_fallible (named n) = false
ends_fallible (pointer t nullable) = ends_fallible t
ends_fallible (slice t) = ends_fallible t
ends_fallible (array n t) = ends_fallible t
ends_fallible (function ps r fallible) = fallible || ends_fallible r
ends_fallible (generic b args) = false

-- Names are names, lengths are natural numbers that Python prints, the base of a generic type is a
-- name, and a function that is not fallible has no result whose string ends in ` err`.
mutual
  pub data Canonical (u : Unicode) : TypeRef → Type 0 where
    of_named : {n : Text} → IsName u n → Canonical u (named n)
    of_pointer : {t : TypeRef} (nullable : Bool) → Canonical u t → Canonical u (pointer t nullable)
    of_slice : {t : TypeRef} → Canonical u t → Canonical u (slice t)
    of_array :
        {t : TypeRef} (n : ℕ)
        → leb (length (decimal_text n)) max_str_digits ≡ true
        → Canonical u t
        → Canonical u (array (pos n) t)
    of_function :
        {ps : TypeRefs} {r : TypeRef} (fallible : Bool)
        → (fallible || not (ends_fallible r)) ≡ true
        → CanonicalAll u ps
        → Canonical u r
        → Canonical u (function ps r fallible)
    of_generic :
        {n : Text} {args : TypeRefs}
        → IsName u n
        → CanonicalAll u args
        → Canonical u (generic (named n) args)

  pub data CanonicalAll (u : Unicode) : TypeRefs → Type 0 where
    of_nil : CanonicalAll u nil
    of_cons :
        {t : TypeRef} {ts : TypeRefs}
        → Canonical u t
        → CanonicalAll u ts
        → CanonicalAll u (cons t ts)

All-Balanced : (u : Unicode) (n : Text) → All (λ d. is_name_char u d ≡ true) n → Balanced false n
All-Balanced u [] h = done
All-Balanced u (c ∷ cs) h = plain c (ground arith) (ground arith) (All-Balanced u cs h.1)

IsName-Balanced : (u : Unicode) (n : Text) → IsName u n → Balanced false n
IsName-Balanced u [] h = absurd h
IsName-Balanced u (c ∷ cs) h = All-Balanced u (c ∷ cs) h

digits-Balanced : (t : Text) → All IsDigit t → Balanced true t
digits-Balanced [] h = done
digits-Balanced (c ∷ t) ((d, lt, e), h) = plain c (ground arith) refl (digits-Balanced t h)

star-Balanced : (nullable : Bool) → Balanced false (star_text nullable)
star-Balanced true = plain b'?' refl refl (plain b'*' refl refl done)
star-Balanced false = plain b'*' refl refl done

err-Balanced : (fallible : Bool) → Balanced false (err_text fallible)
err-Balanced true =
    plain b' ' refl refl (plain b'e' refl refl (plain b'r' refl refl (plain b'r' refl refl done)))
err-Balanced false = done

mutual
  unfolding format int_text

  pub format-Balanced : {u : Unicode} {r : TypeRef} → Canonical u r → Balanced false (format r)
  format-Balanced {u} (of_named {n} h) = IsName-Balanced u n h
  format-Balanced (of_pointer nullable c) =
      Balanced-append (star-Balanced nullable) (format-Balanced c)
  format-Balanced (of_slice c) = square done (format-Balanced c) refl
  format-Balanced (of_array n h c) =
      square (digits-Balanced (decimal_text n) (decimal_text-IsDigit n)) (format-Balanced c) refl
  format-Balanced (of_function fallible e cs c) = plain b'f' refl refl (
      plain b'n' refl refl (
        round (join-Balanced cs)
          (plain b'-' refl refl
            (plain b'>' refl refl (Balanced-append (format-Balanced c) (err-Balanced fallible))))
          refl))
  format-Balanced {u} (of_generic {n} h cs) =
      Balanced-append (IsName-Balanced u n h) (square (join-Balanced cs) done refl)

  pub join-Balanced :
      {u : Unicode} {ts : TypeRefs} → CanonicalAll u ts → Balanced true (join_format ts)
  join-Balanced of_nil = done
  join-Balanced (of_cons c cs) =
      Balanced-append (Balanced-weaken (format-Balanced c)) (rest-Balanced cs)

  pub rest-Balanced :
      {u : Unicode} {ts : TypeRefs} → CanonicalAll u ts → Balanced true (format_rest ts)
  rest-Balanced of_nil = done
  rest-Balanced (of_cons c cs) =
      plain b',' refl refl
        (Balanced-append (Balanced-weaken (format-Balanced c)) (rest-Balanced cs))
