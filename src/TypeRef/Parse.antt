-- ===== src/TypeRef/Parse.antt =====
-- compiler/type_ref.py: `parse_type_ref` on a string. Its recursion goes to shorter texts, so fuel
-- above the length of the text is enough.
use new_cl_lang.Base.{
  ℕ, zero, suc, ◌+◌, ◌-◌, true, false, List, [], ◌∷◌, none, some, ◌==◌, if◌then◌else◌, length, take,
  drop, Outcome, ok, raised, out_of_fuel, ◌>>=◌,
}
use new_cl_lang.Base.Text.{Text, codes, after_prefix}
use new_cl_lang.Python.{Unicode, strip, int_of, find_char, ends_with}
use new_cl_lang.TypeRef.Syntax.{
  TypeRef, TypeRefs, named, pointer, slice, array, function, generic, nil, cons, TypeError,
  unclosed, invalid_array, invalid_function, length_not_integer,
}
use new_cl_lang.TypeRef.Split.{split_top_level, find_matching}

abbrev pub Parsed : Type 0
Parsed = Outcome TypeError TypeRef

-- `tuple(parse_type_ref(a) for a in parts)`, for a parser of one part
unfoldable pub parse_each : (Text → Parsed) → List Text → Outcome TypeError TypeRefs
parse_each parse [] = ok nil
parse_each parse (p ∷ ps) = parse p >>= λ t. parse_each parse ps >>= λ ts. ok (cons t ts)

-- `parts if args_s else ()`, then each parsed
unfoldable pub parse_args : Unicode → (Text → Parsed) → Text → Outcome TypeError TypeRefs
parse_args u parse s = parse_each parse (split_top_level u b',' s)

-- After `fn`: the parameters between the parentheses, `->`, the result, and ` err` at its end.
unfoldable pub parse_result : Unicode → (Text → Parsed) → TypeRefs → Text → Parsed
parse_result u parse params s =
    if ends_with (codes " err") (strip u s)
    then (parse (strip u (take (length (strip u s) - 4) (strip u s))) >>= λ r.
        ok (function params r true))
    else (parse (strip u s) >>= λ r. ok (function params r false))

-- `s` is `t[2:]`, which begins with the parenthesis, and `close` is counted from there.
unfoldable pub parse_function : Unicode → (Text → Parsed) → Text → Parsed
parse_function u parse s = elim (find_matching b'(' b')' s) [
  | none ↦ raised (unclosed b'(')
  | some close ↦ elim (after_prefix (codes "->") (drop (close + 1) s)) [
    | none ↦ raised invalid_function
    | some ret ↦ parse_args u parse (take (close - 1) (drop 1 s)) >>= λ params.
        parse_result u parse params ret
  ]
]

-- `s` is `t[1:]`, behind the bracket.
unfoldable pub parse_array : Unicode → (Text → Parsed) → Text → Parsed
parse_array u parse s = elim (find_char b']' s) [
  | none ↦ raised invalid_array
  | some close ↦ elim (int_of u (take close s)) [
    | none ↦ raised length_not_integer
    | some n ↦ parse (drop (close + 1) s) >>= λ elem. ok (array n elem)
  ]
]

-- A name, or a generic type: the text ends with the bracket that closes the first one.
unfoldable pub parse_named : Unicode → (Text → Parsed) → Text → Parsed
parse_named u parse t = elim (find_char b'[' t) [
  | none ↦ ok (named t)
  | some lb ↦
      if ends_with (codes "]") t
      then elim (find_matching b'[' b']' (drop lb t)) [
        | none ↦ raised (unclosed b'[')
        | some close ↦
            if lb + close == length t - 1
            then (parse (take lb t) >>= λ base.
                parse_args u parse (take (close - 1) (drop (lb + 1) t)) >>= λ args.
                ok (generic base args))
            else ok (named t)
      ]
      else ok (named t)
]

-- The tests on the beginning of the stripped text, in order.
unfoldable pub parse_stripped : Unicode → (Text → Parsed) → Text → Parsed
parse_stripped u parse t = elim (after_prefix (codes "?*") t) [
  | some inner ↦ parse inner >>= λ r. ok (pointer r true)
  | none ↦ elim (after_prefix (codes "*") t) [
    | some inner ↦ parse inner >>= λ r. ok (pointer r false)
    | none ↦ elim (after_prefix (codes "[]") t) [
      | some elem ↦ parse elem >>= λ r. ok (slice r)
      | none ↦ elim (after_prefix (codes "[") t) [
        | some s ↦ parse_array u parse s
        | none ↦ elim (after_prefix (codes "fn(") t) [
          | some _ ↦ parse_function u parse (drop 2 t)
          | none ↦ parse_named u parse t
        ]
      ]
    ]
  ]
]

unfoldable pub parse_fuel : Unicode → ℕ → Text → Parsed
parse_fuel u zero t = out_of_fuel
parse_fuel u (suc fuel) t = parse_stripped u (parse_fuel u fuel) (strip u t)

-- `parse_type_ref(t)`
unfoldable pub parse_type_ref : Unicode → Text → Parsed
parse_type_ref u t = parse_fuel u (suc (length t)) t
