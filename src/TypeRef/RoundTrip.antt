-- ===== src/TypeRef/RoundTrip.antt =====
-- compiler/type_ref.py: `parse_type_ref` reads back what `format_type_ref` wrote.
use new_cl_lang.Base.{
  ℕ, zero, suc, ◌+◌, ◌≤◌, ◌<◌, ◌≡◌, refl, ◌∙◌, Bool, true, false, [], ◌∷◌, ◌++◌, ◌==◌, All, arith,
  length, length-append, append-nil, ok,
}
use new_cl_lang.Base.Text.{Text, codes, after_prefix}
use new_cl_lang.Python.{Unicode, int_text, decimal_text}
use new_cl_lang.TypeRef.Syntax.{TypeRef, TypeRefs, named, pointer, slice, nil, cons}
use new_cl_lang.TypeRef.Format.{format, join_format, format_rest, star_text, err_text}
use new_cl_lang.TypeRef.Parse.{
  Parsed, parse_array, parse_function, parse_stripped, parse_fuel, parse_type_ref,
}
use new_cl_lang.TypeRef.Decimal.{AsciiLaw, decimal_text-IsDigit, decimal_text_pos}
use new_cl_lang.TypeRef.Canonical.{
  IsName, Canonical, CanonicalAll, of_named, of_pointer, of_slice, of_array, of_function,
  of_generic, of_nil, of_cons,
}
use new_cl_lang.TypeRef.Edges.{strip-fixed, format-head, format-Ends}
use new_cl_lang.TypeRef.Parts.{
  EachParses, digits-Lack_bracket, parse_function-format, parse_array-format, parse_named-name,
  parse_stripped-name, parse_named-generic,
}

IsName-pos : (u : Unicode) (n : Text) → IsName u n → 1 ≤ length n
IsName-pos u [] h = absurd h
IsName-pos u (c ∷ n) h = omega arith

star_shorter :
    (nullable : Bool) (t : TypeRef) {fuel : ℕ}
    → length (star_text nullable ++ format t) < suc fuel
    → length (format t) < fuel
star_shorter true t h = omega arith
star_shorter false t h = omega arith

rest-le-join : (ts : TypeRefs) → length (format_rest ts) ≤ length (join_format ts) + 1
unfolding format
rest-le-join nil = omega arith
rest-le-join (cons t ts) = omega (arith, length-append (format t) (format_rest ts))

-- `strip` has nothing to take off a canonical string.
parse_fuel-stripped :
    {u : Unicode} (law : AsciiLaw u) {r : TypeRef} (fuel : ℕ)
    → Canonical u r
    → parse_stripped u (parse_fuel u fuel) (format r) ≡ ok r
    → parse_fuel u (suc fuel) (format r) ≡ ok r
unfolding parse_fuel
parse_fuel-stripped {u} law {r} fuel c h =
    rw (strip-fixed u (format r) (format-head u law c) (format-Ends u law c)) h

-- `parse_stripped` on each form of text, for any parser of the parts.
module _ (u : Unicode) (parse : Text → Parsed) where
  parse_stripped-pointer :
      (t : TypeRef) (nullable : Bool)
      → parse (format t) ≡ ok t
      → parse_stripped u parse (star_text nullable ++ format t) ≡ ok (pointer t nullable)
  unfolding parse_stripped after_prefix
  parse_stripped-pointer t true h = rw h
  parse_stripped-pointer t false h = rw h

  parse_stripped-slice :
      (t : TypeRef)
      → parse (format t) ≡ ok t
      → parse_stripped u parse (codes "[]" ++ format t) ≡ ok (slice t)
  unfolding parse_stripped after_prefix
  parse_stripped-slice t h = rw h

  parse_stripped-array :
      (ds e : Text)
      → 1 ≤ length ds
      → All (λ c. (c == b']') ≡ false) ds
      → parse_stripped u parse (b'[' ∷ (ds ++ e)) ≡ parse_array u parse (ds ++ e)
  unfolding parse_stripped after_prefix
  parse_stripped-array [] e le h = absurd (omega arith)
  parse_stripped-array (d ∷ ds) e le h = ground arith

  parse_stripped-function :
      (s : Text) → parse_stripped u parse (codes "fn(" ++ s) ≡ parse_function u parse (b'(' ∷ s)
  unfolding parse_stripped after_prefix
  parse_stripped-function s = refl

  parse_stripped-alone : (n : Text) → IsName u n → parse_stripped u parse n ≡ ok (named n)
  parse_stripped-alone n h =
      (rw append-nil at (parse_stripped-name u parse n [] h tt)) ∙ parse_named-name u parse n h

parse_fuel-name :
    {u : Unicode} (law : AsciiLaw u) (fuel : ℕ) (n : Text)
    → IsName u n
    → length n < fuel
    → parse_fuel u fuel n ≡ ok (named n)
unfolding format
parse_fuel-name law zero n h lt = absurd (omega arith)
parse_fuel-name {u} law (suc fuel) n h lt =
    parse_fuel-stripped law fuel (of_named h) (parse_stripped-alone u (parse_fuel u fuel) n h)

mutual
  unfolding format int_text

  parse_fuel-format :
      {u : Unicode} (law : AsciiLaw u) {r : TypeRef} (fuel : ℕ)
      → Canonical u r
      → length (format r) < fuel
      → parse_fuel u fuel (format r) ≡ ok r
  parse_fuel-format law zero c lt = absurd (omega arith)
  parse_fuel-format {u} law (suc fuel) (of_named {n} h) lt =
      parse_fuel-stripped law fuel (of_named h) (parse_stripped-alone u (parse_fuel u fuel) n h)
  parse_fuel-format {u} law (suc fuel) (of_pointer {t} nullable c) lt =
      parse_fuel-stripped law fuel (of_pointer nullable c) (
        parse_stripped-pointer u (parse_fuel u fuel) t nullable
          (parse_fuel-format law fuel c (star_shorter nullable t lt)))
  parse_fuel-format {u} law (suc fuel) (of_slice {t} c) lt =
      parse_fuel-stripped law fuel (of_slice c)
        (parse_stripped-slice u (parse_fuel u fuel) t (parse_fuel-format law fuel c (omega arith)))
  parse_fuel-format {u} law (suc fuel) (of_array {t} n h c) lt =
      parse_fuel-stripped law fuel (of_array n h c) (
        parse_stripped-array u (parse_fuel u fuel) (decimal_text n) (b']' ∷ format t)
          (decimal_text_pos n) (digits-Lack_bracket (decimal_text n) (decimal_text-IsDigit n))
        ∙ parse_array-format u law (parse_fuel u fuel) n t h (
            parse_fuel-format law fuel c
              (omega (arith, length-append (decimal_text n) (b']' ∷ format t)))))
  parse_fuel-format {u} law (suc fuel) (of_function {ps} {r} fallible e cs c) lt =
      parse_fuel-stripped law fuel (of_function fallible e cs c) (
        parse_stripped-function u (parse_fuel u fuel)
          (join_format ps ++ (codes ")->" ++ (format r ++ err_text fallible)))
        ∙ parse_function-format u law (parse_fuel u fuel) fallible e cs c
            (parse_fuel-each law fuel cs (omega (arith, rest-le-join ps, function_length)))
            (parse_fuel-format law fuel c (omega (arith, function_length))))
    where
      function_length :
          length (join_format ps ++ (codes ")->" ++ (format r ++ err_text fallible)))
          ≡ length (join_format ps) + 3 + length (format r) + length (err_text fallible)
      function_length = omega (
        arith,
        length-append (join_format ps) (codes ")->" ++ (format r ++ err_text fallible)),
        length-append (format r) (err_text fallible),
      )
  parse_fuel-format {u} law (suc fuel) (of_generic {n} {args} h cs) lt =
      parse_fuel-stripped law fuel (of_generic h cs) (
        parse_stripped-name u (parse_fuel u fuel) n (b'[' ∷ (join_format args ++ b']' ∷ [])) h refl
        ∙ parse_named-generic u law (parse_fuel u fuel) n args h cs
            (parse_fuel-name law fuel n h (omega (arith, generic_length)))
            (parse_fuel-each law fuel cs
              (omega (arith, rest-le-join args, IsName-pos u n h, generic_length))))
    where
      generic_length :
          length (n ++ (b'[' ∷ (join_format args ++ b']' ∷ [])))
          ≡ length n + 2 + length (join_format args)
      generic_length = omega (
        arith,
        length-append n (b'[' ∷ (join_format args ++ b']' ∷ [])),
        length-append (join_format args) (b']' ∷ []),
      )

  parse_fuel-each :
      {u : Unicode} (law : AsciiLaw u) {ts : TypeRefs} (fuel : ℕ)
      → CanonicalAll u ts
      → length (format_rest ts) ≤ fuel
      → EachParses (parse_fuel u fuel) ts
  parse_fuel-each law fuel of_nil le = tt
  parse_fuel-each law fuel (of_cons {t} {ts} c cs) le = (
    parse_fuel-format law fuel c (omega (arith, length-append (format t) (format_rest ts))),
    parse_fuel-each law fuel cs (omega (arith, length-append (format t) (format_rest ts))),
  )

-- Reading back a canonical string gives the type reference that it was written from, for every
-- canonical type reference: one whose names have no spaces, brackets, commas, stars or question marks,
-- whose array lengths are natural numbers within the limit on digits, whose generic types apply a
-- name, and in which no function that is not fallible has a result whose string ends in ` err`. Of the
-- Unicode tables it is assumed that the ASCII digits have their values and that digits and the
-- characters of type strings are no spaces.
pub parse_type_ref-format :
    {u : Unicode} (law : AsciiLaw u) {r : TypeRef}
    → Canonical u r
    → parse_type_ref u (format r) ≡ ok r
unfolding parse_type_ref
parse_type_ref-format law {r} c = parse_fuel-format law (suc (length (format r))) c (omega arith)
