-- ===== src/TypeRef/Parts.antt =====
-- compiler/type_ref.py: the parser on each part of a canonical string, for a parser of shorter texts
-- that is right on the parts.
use new_cl_lang.Base.{
  ℕ, suc, ◌+◌, ◌-◌, ◌≤◌, ◌≡◌, refl, ap, ◌∙◌, Bool, true, false, not, ◌||◌, List, [], ◌∷◌, ◌++◌,
  none, some, ◌==◌, leb, arith, append_assoc, append-nil, length, length-append, All, take, drop,
  take-append, drop-append, ok, ◌>>=◌, ==_iff,
}
use new_cl_lang.Base.Text.{Text, codes, after_prefix}
use new_cl_lang.Python.{
  Unicode, ℤ, pos, decimal_text, int_of, strip, find_char, ends_with, max_str_digits, skip_spaces,
  trim_end,
}
use new_cl_lang.TypeRef.Syntax.{TypeRef, TypeRefs, named, array, function, generic, nil, cons}
use new_cl_lang.TypeRef.Split.{split_from, split_step, keep_part, keep_parts, split_top_level}
use new_cl_lang.TypeRef.Format.{format, join_format, format_rest, err_text}
use new_cl_lang.TypeRef.Parse.{
  Parsed, parse_each, parse_args, parse_result, parse_function, parse_array, parse_named,
  parse_stripped,
}
use new_cl_lang.TypeRef.Brackets.{
  Balanced, split_from-Balanced, find_matching-Balanced, round_pair, square_pair,
}
use new_cl_lang.TypeRef.Decimal.{AsciiLaw, IsDigit, decimal_text-IsDigit, int_of-decimal_text}
use new_cl_lang.TypeRef.Canonical.{
  is_name_char, IsName, ends_fallible, Canonical, CanonicalAll, of_nil, of_cons, format-Balanced,
  join-Balanced,
}
use new_cl_lang.TypeRef.Edges.{
  strip-fixed, format-head, format-Ends, err-Ends, ends_with-format, ends_with_self, head_ok-append,
}

abbrev formats : TypeRefs → List Text
formats nil = []
formats (cons t ts) = format t ∷ formats ts

join_format-cons :
    (t : TypeRef) (ts : TypeRefs) → join_format (cons t ts) ≡ format t ++ format_rest ts
unfolding format
join_format-cons t ts = refl

split_from-rest :
    {u : Unicode} {ts : TypeRefs} (part : Text)
    → CanonicalAll u ts
    → split_from b',' (pos 0) (pos 0) part (format_rest ts) ≡ part ∷ formats ts
unfolding split_from split_step format
split_from-rest part of_nil = refl
split_from-rest part (of_cons {t} {ts} c cs) = ap (◌∷◌ part) (
    split_from-Balanced 0 0 [] (format_rest ts) (format-Balanced c) tt
    ∙ split_from-rest (format t) cs)

keep_part-nonempty : (s : Text) (r : List Text) → 1 ≤ length s → keep_part s r ≡ s ∷ r
keep_part-nonempty [] r h = absurd (omega arith)
keep_part-nonempty (c ∷ s) r h = refl

-- What stands between two brackets, and behind them.
take-before : (s rest : Text) → take (length s + 1 - 1) (s ++ rest) ≡ s
take-before s rest = ap (λ n. take n (s ++ rest)) (omega arith) ∙ take-append s rest

drop-suc-append : (s : Text) (c : ℕ) (rest : Text) → drop (suc (length s)) (s ++ (c ∷ rest)) ≡ rest
drop-suc-append [] c rest = refl
drop-suc-append (x ∷ s) c rest = drop-suc-append s c rest

drop-behind :
    (s : Text) (o c : ℕ) (rest : Text) → drop (length s + 1 + 1) (o ∷ (s ++ (c ∷ rest))) ≡ rest
drop-behind s o c rest =
    let e : length s + 1 + 1 ≡ suc (suc (length s)) = omega arith in rw e (drop-suc-append s c rest)

-- The parser is right on every member.
abbrev pub EachParses : (Text → Parsed) → TypeRefs → Type 0
EachParses parse nil = Unit
EachParses parse (cons t ts) = (parse (format t) ≡ ok t) × EachParses parse ts

module _ (u : Unicode) (law : AsciiLaw u) where
  strip-format : {r : TypeRef} → Canonical u r → strip u (format r) ≡ format r
  strip-format {r} c = strip-fixed u (format r) (format-head u law c) (format-Ends u law c)

  keep_parts-formats : {ts : TypeRefs} → CanonicalAll u ts → keep_parts u (formats ts) ≡ formats ts
  unfolding keep_parts
  keep_parts-formats of_nil = refl
  keep_parts-formats (of_cons {t} {ts} c cs) =
      rw (strip-format c, keep_parts-formats cs)
        (keep_part-nonempty (format t) (formats ts) (format-Ends u law c).nonempty)

  split_top_level-join :
      {ts : TypeRefs} → CanonicalAll u ts → split_top_level u b',' (join_format ts) ≡ formats ts
  unfolding split_top_level
  split_top_level-join of_nil =
      unfold split_from keep_parts format strip skip_spaces trim_end in refl
  split_top_level-join (of_cons {t} {ts} c cs) =
      ap (keep_parts u) (
        ap (split_from b',' (pos 0) (pos 0) []) (join_format-cons t ts)
        ∙ split_from-Balanced 0 0 [] (format_rest ts) (format-Balanced c) tt
        ∙ split_from-rest (format t) cs)
      ∙ keep_parts-formats (of_cons c cs)

  parse_each-formats :
      (parse : Text → Parsed) (ts : TypeRefs)
      → EachParses parse ts
      → parse_each parse (formats ts) ≡ ok ts
  unfolding parse_each
  parse_each-formats parse nil h = refl
  parse_each-formats parse (cons t ts) (h, hs) = rw (h, parse_each-formats parse ts hs)

  pub parse_args-join :
      (parse : Text → Parsed) {ts : TypeRefs}
      → CanonicalAll u ts
      → EachParses parse ts
      → parse_args u parse (join_format ts) ≡ ok ts
  unfolding parse_args
  parse_args-join parse {ts} cs h = rw (split_top_level-join cs) (parse_each-formats parse ts h)

  strip-result :
      {r : TypeRef} (fallible : Bool)
      → Canonical u r
      → strip u (format r ++ err_text fallible) ≡ format r ++ err_text fallible
  strip-result {r} fallible c =
      strip-fixed u (format r ++ err_text fallible)
        (head_ok-append u (format r) (err_text fallible) (format-head u law c))
        (err-Ends u law (format r) fallible (format-Ends u law c))

  take-result : (s : Text) → take (length (s ++ codes " err") - 4) (s ++ codes " err") ≡ s
  take-result s =
      ap (λ n. take n (s ++ codes " err")) (omega (arith, length-append s (codes " err")))
      ∙ take-append s (codes " err")

  pub parse_result-format :
      (parse : Text → Parsed) (ps : TypeRefs) {r : TypeRef} (fallible : Bool)
      → (fallible || not (ends_fallible r)) ≡ true
      → Canonical u r
      → parse (format r) ≡ ok r
      → parse_result u parse ps (format r ++ err_text fallible) ≡ ok (function ps r fallible)
  unfolding parse_result
  parse_result-format parse ps {r} true e c h = rw (
    strip-result true c,
    ends_with_self (format r) (codes " err"),
    take-result (format r),
    strip-format c,
    h,
  )
  parse_result-format parse ps {r} false e c h =
      rw (append-nil, strip-format c, ends_with-format c) (ground arith)

  parse_function-parts :
      (parse : Text → Parsed) (s ret : Text)
      → Balanced true s
      → parse_function u parse (b'(' ∷ (s ++ (b')' ∷ b'-' ∷ b'>' ∷ ret)))
        ≡ (parse_args u parse s >>= λ params. parse_result u parse params ret)
  unfolding parse_function after_prefix parse_args
  parse_function-parts parse s ret d = rw (
    find_matching-Balanced round_pair (b'-' ∷ b'>' ∷ ret) d,
    drop-behind s b'(' b')' (b'-' ∷ b'>' ∷ ret),
    take-before s (b')' ∷ b'-' ∷ b'>' ∷ ret),
    parse_function,
  )

  -- The text behind `fn`.
  pub parse_function-format :
      (parse : Text → Parsed) {ps : TypeRefs} {r : TypeRef} (fallible : Bool)
      → (fallible || not (ends_fallible r)) ≡ true
      → CanonicalAll u ps
      → Canonical u r
      → EachParses parse ps
      → parse (format r) ≡ ok r
      → parse_function u parse
          (b'(' ∷ (join_format ps ++ (codes ")->" ++ (format r ++ err_text fallible))))
        ≡ ok (function ps r fallible)
  parse_function-format parse {ps} {r} fallible e cs c hs h =
      parse_function-parts parse (join_format ps) (format r ++ err_text fallible) (join-Balanced cs)
      ∙ rw (parse_args-join parse cs hs) (parse_result-format parse ps fallible e c h)

find_char-first :
    (d : ℕ) (s rest : Text)
    → All (λ c. (c == d) ≡ false) s
    → find_char d (s ++ (d ∷ rest)) ≡ some (length s)
unfolding find_char
find_char-first d [] rest h = ground arith
find_char-first d (c ∷ s) rest h = rw (h.0, find_char-first d s rest h.1)

find_char-none : (d : ℕ) (s : Text) → All (λ c. (c == d) ≡ false) s → find_char d s ≡ none
unfolding find_char
find_char-none d [] h = refl
find_char-none d (c ∷ s) h = rw (h.0, find_char-none d s h.1)

pub digits-Lack_bracket : (t : Text) → All IsDigit t → All (λ c. (c == b']') ≡ false) t
digits-Lack_bracket [] h = tt
digits-Lack_bracket (c ∷ t) ((d, lt, e), h) = (ground arith, digits-Lack_bracket t h)

drop-one : (s : Text) (c : ℕ) (rest : Text) → drop (length s + 1) (s ++ (c ∷ rest)) ≡ rest
drop-one s c rest =
    let e : length s + 1 ≡ suc (length s) = omega arith in rw e (drop-suc-append s c rest)

parse_array-parts :
    (u : Unicode) (parse : Text → Parsed) (ds e : Text) (n : ℤ) (t : TypeRef)
    → All (λ c. (c == b']') ≡ false) ds
    → int_of u ds ≡ some n
    → parse e ≡ ok t
    → parse_array u parse (ds ++ (b']' ∷ e)) ≡ ok (array n t)
unfolding parse_array
parse_array-parts u parse ds e n t lacks i h = rw (
  find_char-first b']' ds e lacks,
  take-append ds (b']' ∷ e),
  i,
  drop-one ds b']' e,
  h,
  parse_array,
)

-- The text behind the bracket of an array type.
pub parse_array-format :
    (u : Unicode)
    → AsciiLaw u
    → (parse : Text → Parsed) (n : ℕ) (t : TypeRef)
    → leb (length (decimal_text n)) max_str_digits ≡ true
    → parse (format t) ≡ ok t
    → parse_array u parse (decimal_text n ++ (b']' ∷ format t)) ≡ ok (array (pos n) t)
parse_array-format u law parse n t short h =
    parse_array-parts u parse (decimal_text n) (format t) (pos n) t
      (digits-Lack_bracket (decimal_text n) (decimal_text-IsDigit n))
      (int_of-decimal_text u law n short) h

names-Lack :
    (u : Unicode) (n : Text)
    → All (λ d. is_name_char u d ≡ true) n
    → All (λ c. (c == b'[') ≡ false) n
names-Lack u [] h = tt
names-Lack u (c ∷ n) (h, hs) = (ground arith, names-Lack u n hs)

IsName-Lacks : (u : Unicode) (n : Text) → IsName u n → All (λ c. (c == b'[') ≡ false) n
IsName-Lacks u [] h = absurd h
IsName-Lacks u (c ∷ n) h = names-Lack u (c ∷ n) h

pub parse_named-name :
    (u : Unicode) (parse : Text → Parsed) (n : Text)
    → IsName u n
    → parse_named u parse n ≡ ok (named n)
unfolding parse_named
parse_named-name u parse n h = rw (find_char-none b'[' n (IsName-Lacks u n h), parse_named)

-- A name, alone or with a bracket behind it, passes the tests on the beginning of the text.
abbrev AloneOrApplied : Text → Type 0
AloneOrApplied [] = Unit
AloneOrApplied (c ∷ x) = c ≡ b'['

pub parse_stripped-name :
    (u : Unicode) (parse : Text → Parsed) (n x : Text)
    → IsName u n
    → AloneOrApplied x
    → parse_stripped u parse (n ++ x) ≡ parse_named u parse (n ++ x)
unfolding parse_stripped after_prefix
parse_stripped-name u parse [] x h a = absurd h
parse_stripped-name u parse (c ∷ []) [] h a = ground arith
parse_stripped-name u parse (c ∷ []) (y ∷ x) h a = ground arith
parse_stripped-name u parse (c ∷ d ∷ []) [] h a = ground arith
parse_stripped-name u parse (c ∷ d ∷ []) (y ∷ x) h a = ground arith
parse_stripped-name u parse (c ∷ d ∷ e ∷ n) x h a = ground arith

parse_named-parts :
    (u : Unicode) (parse : Text → Parsed) (n s : Text)
    → All (λ c. (c == b'[') ≡ false) n
    → Balanced true s
    → parse_named u parse (n ++ (b'[' ∷ (s ++ b']' ∷ [])))
      ≡ (parse n >>= λ base. parse_args u parse s >>= λ args. ok (generic base args))
unfolding parse_named
parse_named-parts u parse n s lacks d = rw (
  find_char-first b'[' n (s ++ b']' ∷ []) lacks,
  closes,
  drop-append n (b'[' ∷ (s ++ b']' ∷ [])),
  find_matching-Balanced square_pair [] d,
  at_end,
  take-append n (b'[' ∷ (s ++ b']' ∷ [])),
  drop-one n b'[' (s ++ b']' ∷ []),
  take-before s (b']' ∷ []),
  parse_named,
)
  where
    closes : ends_with (codes "]") (n ++ (b'[' ∷ (s ++ b']' ∷ []))) ≡ true
    closes =
        ap (ends_with (codes "]")) (simp append_assoc)
        ∙ ends_with_self (n ++ (b'[' ∷ s)) (codes "]")

    at_end : ((length n + (length s + 1)) == length (n ++ (b'[' ∷ (s ++ b']' ∷ []))) - 1) ≡ true
    at_end =
        (==_iff _ _).1
          (omega (arith, length-append n (b'[' ∷ (s ++ b']' ∷ [])), length-append s (b']' ∷ [])))

-- A name with type arguments in brackets behind it.
pub parse_named-generic :
    (u : Unicode)
    → AsciiLaw u
    → (parse : Text → Parsed) (n : Text) (args : TypeRefs) → IsName u n
    → CanonicalAll u args
    → parse n ≡ ok (named n)
    → EachParses parse args
    → parse_named u parse (n ++ (b'[' ∷ (join_format args ++ b']' ∷ [])))
      ≡ ok (generic (named n) args)
parse_named-generic u law parse n args h cs hn hs =
    parse_named-parts u parse n (join_format args) (IsName-Lacks u n h) (join-Balanced cs)
    ∙ rw (hn, parse_args-join u law parse cs hs)
