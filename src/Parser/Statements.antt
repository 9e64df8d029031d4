-- ===== src/Parser/Statements.antt =====
-- compiler/parser.py: statements.
use new_cl_lang.Base.{Bool, ◌&&◌, ◌||◌, List, [], ◌∷◌, Option, none, some}
use new_cl_lang.Base.Text.{Text}
use new_cl_lang.Lexer.Token.{TokenKind, Token}
use new_cl_lang.Ast.{Stmt, ErrorClause}
use new_cl_lang.Parser.State.{
  Parser, pure, fail, ◌>>=◌, ◌>>◌, peek, advance, expect, accept, at, at_any, look, kind_at,
  expect_name, operator, import_nested, extern_nested, iface_nested, alias_nested, not_a_function,
}
use new_cl_lang.Parser.Knot.{Parsers, Setting}
use new_cl_lang.Parser.Blocks.{
  parse_block, parse_return, parse_err_return, parse_function_expr, annotation,
}
use new_cl_lang.Parser.Postfix.{parse_expression}
use new_cl_lang.Parser.Declarations.{parse_function, parse_struct, parse_enum}

-- `_is_function_declaration_start`: a name behind `fun`, or a receiver `(name *T`.
unfoldable pub function_starts : List Token → Bool
function_starts ts =
    kind_at 0 (TokenKind.fun_kw ∷ []) ts
    && (kind_at 1 (TokenKind.ident ∷ []) ts
        || (kind_at 1 (TokenKind.lparen ∷ []) ts
            && kind_at 2 (TokenKind.ident ∷ []) ts
            && kind_at 3 (TokenKind.star ∷ []) ts
            && kind_at 4 (TokenKind.ident ∷ []) ts))

abbrev pub assign_ops : List TokenKind
assign_ops =
    TokenKind.eq ∷ TokenKind.pluseq ∷ TokenKind.minuseq ∷ TokenKind.stareq ∷ TokenKind.slasheq
    ∷ TokenKind.percenteq ∷ TokenKind.ampeq ∷ TokenKind.pipeeq ∷ TokenKind.careteq ∷ TokenKind.shleq
    ∷ TokenKind.shreq ∷ []

module _ (setting : Setting) (self : Parsers) where
  -- `_parse_let`
  unfoldable pub parse_let : Parser Stmt
  parse_let =
      advance
      >> (expect_name >>= λ name. annotation self >>= λ t.
          expect TokenKind.eq
          >> (self.expression >>= λ init.
              accept TokenKind.semi >> pure (Stmt.variable_declaration name init t)))

  -- An expression and a semicolon.
  unfoldable pub parse_expression_statement : Parser Stmt
  parse_expression_statement = parse_expression setting self >>= λ e.
      accept TokenKind.semi >> pure (Stmt.expression_statement e)

  unfoldable pub parse_spawn : Parser Stmt
  parse_spawn =
      advance
      >> at TokenKind.fun_kw
          (advance
            >> (parse_function_expr self >>= λ f. accept TokenKind.semi >> pure (Stmt.spawn f)))
          (peek >>= λ t. fail (not_a_function t))

  unfoldable pub parse_else_clause : Parser ErrorClause
  parse_else_clause =
      at TokenKind.else_kw
        (advance
          >> (expect_name >>= λ name. parse_block self >>= λ b. pure (ErrorClause.on_error name b)))
        (pure ErrorClause.no_clause)

  -- `name =` behind `try`
  unfoldable pub parse_success_name : Parser (Option Text)
  parse_success_name =
      peek
      >> look (λ ts. kind_at 0 (TokenKind.ident ∷ []) ts && kind_at 1 (TokenKind.eq ∷ []) ts)
          (expect_name >>= λ name. advance >> pure (some name)) (pure none)

  -- `_parse_try`
  unfoldable pub parse_try : Parser Stmt
  parse_try =
      advance
      >> (parse_success_name >>= λ name. self.expression >>= λ call. parse_block self >>= λ success.
          parse_else_clause >>= λ clause.
          accept TokenKind.semi >> pure (Stmt.try_statement call name success clause))

  unfoldable pub parse_for_condition : Parser Stmt
  parse_for_condition = self.expression >>= λ condition.
      parse_block self >>= λ body. accept TokenKind.semi >> pure (Stmt.for_condition condition body)

  -- `, value in iterable { ... }`
  unfoldable pub parse_for_in : Text → Parser Stmt
  parse_for_in index =
      advance
      >> (expect_name >>= λ value.
          expect TokenKind.in_kw
          >> (self.expression >>= λ iterable.
              parse_block self >>= λ body. pure (Stmt.for_in index value iterable body)))

  -- `in start..end { ... }`
  unfoldable pub parse_for_range : Text → Parser Stmt
  parse_for_range index =
      advance
      >> (self.expression >>= λ start.
          expect TokenKind.dotdot
          >> (self.expression >>= λ end.
              parse_block self >>= λ body. pure (Stmt.for_range index start end body)))

  -- At a name the kind of loop shows behind it; for a condition the cursor goes back.
  unfoldable pub parse_for_name : Parser Stmt
  parse_for_name ts =
      (expect_name >>= λ index.
      at TokenKind.comma (parse_for_in index)
        (at TokenKind.in_kw (parse_for_range index) (λ _. parse_for_condition ts)))
        ts

  -- `_parse_for`
  unfoldable pub parse_for : Parser Stmt
  parse_for = advance >> at TokenKind.ident parse_for_name parse_for_condition

  unfoldable pub parse_break : Parser Stmt
  parse_break = advance >> accept TokenKind.semi >> pure Stmt.break_statement

  -- `_parse_ident_stmt`: an assignment, an update, or an expression.
  unfoldable pub parse_ident_stmt : Parser Stmt
  parse_ident_stmt = parse_expression setting self >>= λ e.
      at_any assign_ops
        (operator >>= λ op. self.expression >>= λ rhs. pure (Stmt.assignment e rhs op))
        (at_any (TokenKind.plusplus ∷ TokenKind.minusminus ∷ [])
          (operator >>= λ op. pure (Stmt.update e op)) (pure (Stmt.expression_statement e)))
      >>= λ s. accept TokenKind.semi >> pure s

  -- The branches of `parse_statement` from `for` on.
  unfoldable pub parse_other_statement : Parser Stmt
  parse_other_statement = at TokenKind.for_kw parse_for (
      at TokenKind.err_kw (parse_err_return self >>= λ e. pure (Stmt.err_return e)) (
        at TokenKind.try_kw parse_try (
          at TokenKind.defer_kw (advance >> (parse_block self >>= λ b. pure (Stmt.defer b))) (
            at TokenKind.spawn_kw parse_spawn (
              at TokenKind.type_kw (fail alias_nested) (
                at TokenKind.break_kw parse_break
                  (at TokenKind.ident parse_ident_stmt parse_expression_statement)))))))

  -- `parse_statement`
  unfoldable pub parse_statement : Parser Stmt
  parse_statement = at TokenKind.import_kw (fail import_nested) (
      at TokenKind.extern_kw (fail extern_nested) (
        at TokenKind.let_kw parse_let (
          at TokenKind.if_kw parse_expression_statement (
            look function_starts (parse_function self >>= λ f. pure (Stmt.function_declaration f)) (
              at TokenKind.ret_kw (parse_return self >>= λ e. pure (Stmt.return_statement e)) (
                at TokenKind.struct_kw (parse_struct self) (
                  at TokenKind.enum_kw (parse_enum self)
                    (at TokenKind.iface_kw (fail iface_nested) parse_other_statement))))))))
