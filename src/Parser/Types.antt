-- ===== src/Parser/Types.antt =====
-- compiler/parser.py: `_parse_type`, lists of type arguments and of type parameters.
use new_cl_lang.Base.{
  ℕ, zero, suc, true, false, List, [], ◌∷◌, Option, none, some, if◌then◌else◌, out_of_fuel,
}
use new_cl_lang.Base.Text.{Text, codes, one_of}
use new_cl_lang.Base.Dict.{Dict, insert_all}
use new_cl_lang.Python.{pos}
use new_cl_lang.Lexer.Token.{TokenKind, TokenValue, number, Token}
use new_cl_lang.TypeRef.Syntax.{
  TypeRef, TypeRefs, named, pointer, slice, array, function, generic, nil, cons,
}
use new_cl_lang.Parser.State.{
  Parser, pure, fail, ◌>>=◌, ◌>>◌, advance, expect, accept, at, expect_name, dotted, comma_list,
  malformed, suffixed_length, unknown_constraint,
}

-- `tuple(types)`
abbrev pub type_refs : List TypeRef → TypeRefs
type_refs [] = nil
type_refs (t ∷ ts) = cons t (type_refs ts)

-- The value of an INTEGER token in an array's length, which may have no suffix. Such a token has a
-- number with a suffix or none; the source also takes a value that is not a pair.
unfoldable pub length_value : Token → TokenValue → Parser ℕ
length_value t (number n none) = pure n
length_value t (number n (some s)) = fail suffixed_length
length_value t _ = fail (malformed t)

unfoldable pub length_of : Token → Parser ℕ
length_of t = length_value t t.value

-- The part between the brackets of `[N]T` and `[]T`.
unfoldable pub parse_length : Parser (Option ℕ)
parse_length =
    advance
    >> at TokenKind.rbracket (advance >> pure none) (
        expect TokenKind.integer >>= λ t.
        length_of t >>= λ n. expect TokenKind.rbracket >> pure (some n))

abbrev pub sequence_of : Option ℕ → TypeRef → TypeRef
sequence_of none elem = slice elem
sequence_of (some n) elem = array (pos n) elem

-- `[...]`, the list of type arguments, with a parser of one
unfoldable pub parse_type_args_with : ℕ → Parser TypeRef → Parser (List TypeRef)
parse_type_args_with fuel type =
    expect TokenKind.lbracket
    >> (comma_list fuel TokenKind.rbracket type >>= λ args. expect TokenKind.rbracket >> pure args)

-- A name, with its module, and perhaps with type arguments.
unfoldable pub parse_named_type : ℕ → Parser TypeRef → Parser TypeRef
parse_named_type fuel type = expect_name >>= λ n.
    at TokenKind.dot (advance >> dotted n) (pure n) >>= λ name.
    at TokenKind.lbracket
      (parse_type_args_with fuel type >>= λ args. pure (generic (named name) (type_refs args)))
      (pure (named name))

-- `fun(...) T err`, behind `fun`
unfoldable pub parse_function_type : ℕ → Parser TypeRef → Parser TypeRef
parse_function_type fuel type =
    expect TokenKind.lparen
    >> (comma_list fuel TokenKind.rparen type >>= λ params.
        expect TokenKind.rparen
        >> (type >>= λ ret. accept TokenKind.err_kw >>= λ fallible.
            pure (function (type_refs params) ret fallible)))

-- `_parse_type`, with a parser of the types in it
unfoldable pub parse_type_with : ℕ → Parser TypeRef → Parser TypeRef
parse_type_with fuel type =
    at TokenKind.question
      (advance >> (expect TokenKind.star >> (type >>= λ t. pure (pointer t true))))
      (at TokenKind.fun_kw (advance >> parse_function_type fuel type) (
        at TokenKind.star (advance >> (type >>= λ t. pure (pointer t false))) (
          at TokenKind.lbracket (parse_length >>= λ n. type >>= λ elem. pure (sequence_of n elem))
            (parse_named_type fuel type))))

-- On fuel: each type in a type has fewer tokens.
unfoldable pub parse_type : ℕ → Parser TypeRef
parse_type zero ts = out_of_fuel
parse_type (suc fuel) ts = parse_type_with fuel (parse_type fuel) ts

-- `KNOWN_CONSTRAINTS`
abbrev pub known_constraints : List Text
known_constraints =
    codes "any"
    ∷ codes "types.Eq"
    ∷ codes "types.Ord"
    ∷ codes "types.Hash"
    ∷ codes "types.Zero"
    ∷ []

unfoldable pub check_constraint : Text → Parser Text
check_constraint c = if one_of c known_constraints then pure c else fail (unknown_constraint c)

-- One type parameter with its constraint, which is `any` by default.
unfoldable pub parse_type_param : Parser (Text × Text)
parse_type_param = expect_name >>= λ name.
    at TokenKind.ident
      (expect_name >>= λ c. at TokenKind.dot (advance >> dotted c) (pure c) >>= λ constraint.
        check_constraint constraint)
      (pure (codes "any"))
    >>= λ constraint. pure (name, constraint)

abbrev pub TypeParams : Type 0
TypeParams = List Text × Dict Text

abbrev pub names_of : List (Text × Text) → List Text
names_of [] = []
names_of ((name, c) ∷ ps) = name ∷ names_of ps

-- `_parse_type_params`: the names in order, and the constraint of each.
unfoldable pub parse_type_params : ℕ → Parser TypeParams
parse_type_params fuel =
    at TokenKind.lbracket
      (advance
        >> (comma_list fuel TokenKind.rbracket parse_type_param >>= λ ps.
            expect TokenKind.rbracket >> pure (names_of ps, insert_all ps [])))
      (pure ([], []))
