-- ===== src/Parser/Primary.antt =====
-- compiler/parser.py: `parse_primary` and the scans by which it looks ahead.
use new_cl_lang.Base.{
  ℕ, Bool, true, false, ◌&&◌, List, [], ◌∷◌, Option, none, some, if◌then◌else◌, Outcome, ok, raised,
  out_of_fuel,
}
use new_cl_lang.Base.Text.{Text, codes, text_eq, one_of}
use new_cl_lang.Lexer.Token.{
  TokenKind, TokenValue, number, decimal, text, interpolated, code_point, truth, Token, Part,
  LexError,
}
use new_cl_lang.Lexer.Lex.{lex}
use new_cl_lang.TypeRef.Syntax.{TypeRef, named, generic}
use new_cl_lang.TypeRef.Format.{format}
use new_cl_lang.TypeRef.Split.{incr, decr, is_zero}
use new_cl_lang.Python.{ℤ, pos}
use new_cl_lang.Ast.{Expr, Stmt, Stmts, Exprs, OptBlock}
use new_cl_lang.Parser.State.{
  ParseError, Parser, pure, fail, ◌>>=◌, ◌>>◌, peek, advance, expect, at, look, kind_at, kind_in,
  same_kind, expect_name, dotted, comma_list, lex_error, malformed, unexpected, empty_map,
}
use new_cl_lang.Parser.Types.{parse_length, type_refs}
use new_cl_lang.Parser.Knot.{Parsers, Setting, type, parse_type_args}
use new_cl_lang.Parser.Blocks.{
  exprs_of, parse_block, parse_call_args, parse_struct_literal_fields, parse_map_literal_entries,
  parse_match_arms, parse_return, parse_err_return, parse_function_expr,
}

-- `MAGIC_CONSTS`
abbrev pub magic_consts : List Text
magic_consts =
    codes "__FILE__"
    ∷ codes "__LINE__"
    ∷ codes "__COL__"
    ∷ codes "__FUNC__"
    ∷ codes "__MODULE__"
    ∷ []

-- `_token_after_matching_bracket`: the token behind the bracket that closes the one at the cursor; the bracket
-- itself when nothing follows it. Where no bracket closes, the answer is the token at the cursor.
unfoldable pub after_bracket : ℤ → List Token → Option Token
after_bracket depth [] = none
after_bracket depth (t ∷ ts) =
    let deeper = after_bracket (incr depth) ts in
    let less = after_bracket (decr depth) ts in
    let same = after_bracket depth ts in
    if same_kind t.kind TokenKind.lbracket
    then deeper
    else if same_kind t.kind TokenKind.rbracket
    then (if is_zero (decr depth) then some (elim ts [ [] ↦ t | next ∷ rest ↦ next ]) else less)
    else same

unfoldable pub after_bracket_in : List TokenKind → List Token → Bool
after_bracket_in ks [] = false
after_bracket_in ks (t ∷ ts) = elim (after_bracket (pos 0) (t ∷ ts)) [
  | none ↦ kind_in t.kind ks
  | some after ↦ kind_in after.kind ks
]

-- `format_type_ref(GenericType(NamedType(name), tuple(args)))`
abbrev pub applied_name : Text → List TypeRef → Text
applied_name name args = format (generic (named name) (type_refs args))

unfoldable pub lexed : Outcome LexError (List Token) → Outcome ParseError (List Token)
lexed (ok ts) = ok ts
lexed (raised e) = raised (lex_error e)
lexed out_of_fuel = out_of_fuel

-- The expression of an interpolation: its source is lexed, and nothing may follow it.
unfoldable pub parse_part : Setting → Parsers → Text → Outcome ParseError Expr
parse_part setting self source = elim (lexed (lex setting.unicode source)) [
  | ok ts ↦ elim ((self.expression >>= λ e. expect TokenKind.eof >> pure e) ts) [
    | ok (e, r) ↦ ok e
    | raised x ↦ raised x
    | out_of_fuel ↦ out_of_fuel
  ]
  | raised x ↦ raised x
  | out_of_fuel ↦ out_of_fuel
]

-- `_parse_interpolated_parts`, which leaves the cursor alone
unfoldable pub parse_parts : Setting → Parsers → List Part → Parser (List Expr)
parse_parts setting self [] = pure []
parse_parts setting self (Part.literal s ∷ parts) =
    parse_parts setting self parts >>= λ es. pure (Expr.string_literal s ∷ es)
parse_parts setting self (Part.expr source ∷ parts) = λ ts. elim (parse_part setting self source) [
  | ok e ↦ (parse_parts setting self parts >>= λ es. pure (e ∷ es)) ts
  | raised x ↦ raised x
  | out_of_fuel ↦ out_of_fuel
]

-- The tokens that are expressions by themselves, each with a value of its kind's shape.
unfoldable pub string_value : Setting → Parsers → Token → TokenValue → Parser Expr
string_value setting self t (text s) = pure (Expr.string_literal s)
string_value setting self t (interpolated parts) =
    parse_parts setting self parts >>= λ es. pure (Expr.interpolated_string (exprs_of es))
string_value setting self t _ = fail (malformed t)

unfoldable pub string_of : Setting → Parsers → Token → Parser Expr
string_of setting self t = string_value setting self t t.value

unfoldable pub literal_value : Token → TokenKind → TokenValue → Parser Expr
literal_value t TokenKind.integer (number n suffix) = pure (Expr.integer_literal n suffix)
literal_value t TokenKind.float (decimal s suffix) = pure (Expr.float_literal s suffix)
literal_value t TokenKind.bool (truth b) = pure (Expr.bool_literal b)
literal_value t TokenKind.char (code_point n) = pure (Expr.rune_literal n)
literal_value t _ _ = fail (malformed t)

unfoldable pub literal_of : TokenKind → Token → Parser Expr
literal_of k t = literal_value t k t.value

-- `else if ...` and `else { ... }`
unfoldable pub parse_else : Parsers → Parser OptBlock
parse_else self =
    at TokenKind.else_kw
      (advance
        >> at TokenKind.if_kw
            (self.primary >>= λ e.
              pure (OptBlock.this_block (Stmts.stmt (Stmt.expression_statement e) Stmts.no_stmts)))
            (parse_block self >>= λ b. pure (OptBlock.this_block b)))
      (pure OptBlock.no_block)

unfoldable pub parse_if : Parsers → Parser Expr
parse_if self =
    advance
    >> (self.expression >>= λ condition. parse_block self >>= λ then_block.
        parse_else self >>= λ else_block. pure (Expr.if_expr condition then_block else_block))

unfoldable pub parse_match : Parsers → Parser Expr
parse_match self =
    advance
    >> (self.expression >>= λ scrutinee.
        parse_match_arms self >>= λ arms. pure (Expr.match_expr scrutinee arms))

unfoldable pub parse_new : Parsers → Parser Expr
parse_new self =
    advance
    >> (expect_name >>= λ n. at TokenKind.dot (advance >> dotted n) (pure n) >>= λ name.
        at TokenKind.lbracket (parse_type_args self >>= λ args. pure (applied_name name args))
          (pure name)
        >>= λ full.
            expect TokenKind.lbrace
            >> (parse_struct_literal_fields self >>= λ fs. pure (Expr.struct_literal full fs true)))

-- `[N]T { ... }`, `[]T { ... }` and `[] { ... }`
unfoldable pub parse_elements : Parsers → Parser Exprs
parse_elements self =
    expect TokenKind.lbrace
    >> (comma_list self.loops TokenKind.rbrace self.expression >>= λ es.
        expect TokenKind.rbrace >> pure (exprs_of es))

unfoldable pub parse_sequence_of : Parsers → Option ℕ → Parser Expr
parse_sequence_of self none =
    at TokenKind.lbrace (pure none) (type self >>= λ t. pure (some t)) >>= λ elem.
    parse_elements self >>= λ es. pure (Expr.slice_literal elem es)
parse_sequence_of self (some n) =
    type self >>= λ elem. parse_elements self >>= λ es. pure (Expr.array_literal n elem es)

unfoldable pub parse_sequence : Parsers → Parser Expr
parse_sequence self = parse_length >>= λ n. parse_sequence_of self n

-- Behind `map`: `[K,V]{ ... }`
unfoldable pub parse_typed_map : Parsers → Parser Expr
parse_typed_map self = parse_type_args self >>= λ args.
    expect TokenKind.lbrace
    >> (parse_map_literal_entries self >>= λ es.
        pure (Expr.map_literal (some (generic (named (codes "map")) (type_refs args))) es))

-- Behind `map`: `{ ... }`
unfoldable pub parse_untyped_map : Parsers → Parser Expr
parse_untyped_map self =
    advance
    >> at TokenKind.rbrace (fail empty_map)
        (parse_map_literal_entries self >>= λ es. pure (Expr.map_literal none es))

-- `::Variant`
unfoldable pub parse_variant : Text → Parser Expr
parse_variant name = advance >> (expect_name >>= λ variant. pure (Expr.enum_ref name variant))

-- `{ ... }` behind the name of a struct
unfoldable pub parse_struct_literal : Parsers → Text → Parser Expr
parse_struct_literal self name =
    advance >> (parse_struct_literal_fields self >>= λ fs. pure (Expr.struct_literal name fs false))

-- `.member::Variant` and `.member { ... }`
unfoldable pub parse_qualified : Parsers → Text → Parser Expr
parse_qualified self name =
    advance
    >> (dotted name >>= λ qname.
        at TokenKind.coloncolon (parse_variant qname)
          (at TokenKind.lbrace (parse_struct_literal self qname) (pure (Expr.identifier qname))))

-- The look behind a `{` that tells a struct literal from a block: `}`, or a name and a colon. The cursor stays.
unfoldable pub looks_like_struct : {A : Type 0} → Parser A → Parser A → Parser A
looks_like_struct p q ts =
    ((advance
          >> at TokenKind.rbrace (pure true) (
              at TokenKind.ident (advance >> at TokenKind.colon (pure true) (pure false))
                (pure false)))
        >>= λ b. λ _. if b then p ts else q ts)
      ts

-- The end of `parse_primary` at a name: a struct literal or the name alone.
unfoldable pub parse_plain_name : Parsers → Text → Parser Expr
parse_plain_name self name =
    at TokenKind.lbrace
      (looks_like_struct (parse_struct_literal self name) (pure (Expr.identifier name)))
      (pure (Expr.identifier name))

-- A name with `[...]` behind which `(` or `{` stands. The brackets are read as type arguments; behind a `{` that
-- begins no struct literal the cursor goes back, and the name stands alone.
unfoldable pub parse_applied_name : Parsers → Text → Parser Expr
parse_applied_name self name ts =
    (parse_type_args self >>= λ args.
    at TokenKind.lparen
      (advance >> (parse_call_args self >>= λ es. pure (Expr.function_call name es args)))
      (at TokenKind.lbrace
        (looks_like_struct (parse_plain_name self (applied_name name args))
          (λ _. parse_plain_name self name ts))
        (λ _. parse_plain_name self name ts)))
      ts

abbrev pub is_qualified : List Token → Bool
is_qualified ts =
    kind_at 0 (TokenKind.dot ∷ []) ts
    && kind_at 1 (TokenKind.ident ∷ []) ts
    && kind_at 2 (TokenKind.coloncolon ∷ TokenKind.lbrace ∷ []) ts

abbrev pub is_typed_map : Text → List Token → Bool
is_typed_map name ts =
    text_eq name (codes "map")
    && (kind_at 0 (TokenKind.lbracket ∷ []) ts && after_bracket_in (TokenKind.lbrace ∷ []) ts)

abbrev pub is_untyped_map : Text → List Token → Bool
is_untyped_map name ts = text_eq name (codes "map") && kind_at 0 (TokenKind.lbrace ∷ []) ts

abbrev pub is_applied : List Token → Bool
is_applied ts =
    kind_at 0 (TokenKind.lbracket ∷ []) ts
    && after_bracket_in (TokenKind.lparen ∷ TokenKind.lbrace ∷ []) ts

-- `parse_primary` behind a name.
unfoldable pub parse_name : Parsers → Text → Parser Expr
parse_name self name =
    if one_of name magic_consts
    then pure (Expr.magic_const name)
    else (peek
        >> look (is_typed_map name) (parse_typed_map self) (
            look (is_untyped_map name) (parse_untyped_map self) (
              look is_qualified (parse_qualified self name) (
                at TokenKind.coloncolon (parse_variant name)
                  (look is_applied (parse_applied_name self name) (parse_plain_name self name))))))

unfoldable pub parse_parenthesised : Parsers → Parser Expr
parse_parenthesised self = advance >> (self.expression >>= λ e. expect TokenKind.rparen >> pure e)

-- The branches of `parse_primary` from the literals on.
unfoldable pub parse_operand : Parsers → Parser Expr
parse_operand self = at TokenKind.new_kw (parse_new self) (
    at TokenKind.ident (expect_name >>= λ name. parse_name self name) (
      at TokenKind.lbracket (parse_sequence self)
        (at TokenKind.lparen (parse_parenthesised self) (peek >>= λ t. fail (unexpected t)))))

unfoldable pub parse_literal : Setting → Parsers → Parser Expr
parse_literal setting self = at TokenKind.string (advance >>= string_of setting self) (
    at TokenKind.integer (advance >>= literal_of TokenKind.integer) (
      at TokenKind.float (advance >>= literal_of TokenKind.float) (
        at TokenKind.bool (advance >>= literal_of TokenKind.bool) (
          at TokenKind.nil_kw (advance >> pure Expr.nil_literal) (
            at TokenKind.fun_kw (advance >> parse_function_expr self)
              (at TokenKind.char (advance >>= literal_of TokenKind.char) (parse_operand self)))))))

-- `parse_primary`
unfoldable pub parse_primary : Setting → Parsers → Parser Expr
parse_primary setting self = at TokenKind.if_kw (parse_if self) (
    at TokenKind.match_kw (parse_match self) (
      at TokenKind.ret_kw (parse_return self >>= λ e. pure (Expr.return_expr e)) (
        at TokenKind.err_kw (parse_err_return self >>= λ e. pure (Expr.err_return_expr e)) (
          at TokenKind.lbrace (parse_block self >>= λ b. pure (Expr.block_expr b))
            (parse_literal setting self)))))
