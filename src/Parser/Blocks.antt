-- ===== src/Parser/Blocks.antt =====
-- compiler/parser.py: blocks, parameters, and the pieces that declarations and expressions share.
use new_cl_lang.Base.{Bool, true, false, List, [], ◌∷◌, Option, none, some}
use new_cl_lang.Base.Text.{Text}
use new_cl_lang.Lexer.Token.{TokenKind}
use new_cl_lang.TypeRef.Syntax.{TypeRef}
use new_cl_lang.Ast.{Expr, Stmt, Stmts, OptExpr, Params, Exprs, Fields, Entries, Arms}
use new_cl_lang.Parser.State.{
  Parser, pure, fail, ◌>>=◌, ◌>>◌, advance, expect, accept, at, at_any, expect_name, many,
  comma_list, parameter_type_required, no_default_here, no_varargs,
}
use new_cl_lang.Parser.Knot.{Parsers, type}

abbrev pub stmts_of : List Stmt → Stmts
stmts_of [] = Stmts.no_stmts
stmts_of (s ∷ ss) = Stmts.stmt s (stmts_of ss)

abbrev pub exprs_of : List Expr → Exprs
exprs_of [] = Exprs.no_exprs
exprs_of (e ∷ es) = Exprs.expr e (exprs_of es)

abbrev pub Param : Type 0
Param = Text × Option TypeRef × OptExpr

abbrev pub params_of : List Param → Params
params_of [] = Params.no_params
params_of ((name, nc_type, default) ∷ ps) = Params.param name nc_type default (params_of ps)

abbrev pub fields_of : List (Text × Expr) → Fields
fields_of [] = Fields.no_fields
fields_of ((name, e) ∷ fs) = Fields.field name e (fields_of fs)

abbrev pub entries_of : List (Expr × Expr) → Entries
entries_of [] = Entries.no_entries
entries_of ((k, v) ∷ es) = Entries.entry k v (entries_of es)

abbrev pub arms_of : List (OptExpr × Expr) → Arms
arms_of [] = Arms.no_arms
arms_of ((p, b) ∷ as') = Arms.arm p b (arms_of as')

abbrev pub block_ends : List TokenKind
block_ends = TokenKind.rbrace ∷ TokenKind.eof ∷ []

-- `_parse_block`
unfoldable pub parse_block : Parsers → Parser Stmts
parse_block self =
    expect TokenKind.lbrace
    >> (many self.loops block_ends self.statement >>= λ ss.
        expect TokenKind.rbrace >> pure (stmts_of ss))

-- The type behind a colon, where there is one.
unfoldable pub annotation : Parsers → Parser (Option TypeRef)
annotation self = at TokenKind.colon (advance >> (type self >>= λ t. pure (some t))) (pure none)

unfoldable pub check_param : Text → Option TypeRef → OptExpr → Parser Param
check_param name none OptExpr.no_expr = fail parameter_type_required
check_param name nc_type default = pure (name, nc_type, default)

unfoldable pub parse_default : Parsers → (allow_default : Bool) → Parser OptExpr
parse_default self false = at TokenKind.eq (fail no_default_here) (pure OptExpr.no_expr)
parse_default self true =
    at TokenKind.eq (advance >> (self.expression >>= λ e. pure (OptExpr.this e)))
      (pure OptExpr.no_expr)

-- `_parse_param`
unfoldable pub parse_param : Parsers → (allow_default : Bool) → Parser Param
parse_param self allow_default = expect_name >>= λ name.
    at TokenKind.colon (annotation self)
      (at TokenKind.eq (pure none) (fail parameter_type_required))
    >>= λ nc_type. parse_default self allow_default >>= λ default. check_param name nc_type default

unfoldable pub no_dots : {A : Type 0} → (allow_default : Bool) → Parser A → Parser A
no_dots true p = p
no_dots false p = at_any (TokenKind.dot ∷ TokenKind.dotdot ∷ []) (fail no_varargs) p

-- `_parse_param_list`, between the parentheses
unfoldable pub parse_param_list : Parsers → (allow_default : Bool) → Parser (List Param)
parse_param_list self allow_default =
    comma_list self.loops TokenKind.rparen (no_dots allow_default (parse_param self allow_default))

-- `(params)`
unfoldable pub parse_params : Parsers → (allow_default : Bool) → Parser (List Param)
parse_params self allow_default =
    expect TokenKind.lparen
    >> (parse_param_list self allow_default >>= λ ps. expect TokenKind.rparen >> pure ps)

-- `_parse_call_args`, between the parentheses
unfoldable pub parse_call_args : Parsers → Parser Exprs
parse_call_args self = comma_list self.loops TokenKind.rparen self.expression >>= λ es.
    expect TokenKind.rparen >> pure (exprs_of es)

-- `name: expr`
unfoldable pub parse_field : Parsers → Parser (Text × Expr)
parse_field self =
    expect_name >>= λ name. expect TokenKind.colon >> (self.expression >>= λ e. pure (name, e))

-- `_parse_struct_literal_fields` and the brace behind the fields
unfoldable pub parse_struct_literal_fields : Parsers → Parser Fields
parse_struct_literal_fields self =
    comma_list self.loops TokenKind.rbrace (parse_field self) >>= λ fs.
    expect TokenKind.rbrace >> pure (fields_of fs)

unfoldable pub parse_entry : Parsers → Parser (Expr × Expr)
parse_entry self =
    self.expression >>= λ k. expect TokenKind.colon >> (self.expression >>= λ v. pure (k, v))

-- `_parse_map_literal_entries` and the brace behind the entries
unfoldable pub parse_map_literal_entries : Parsers → Parser Entries
parse_map_literal_entries self = comma_list self.loops TokenKind.rbrace (parse_entry self) >>= λ es.
    expect TokenKind.rbrace >> pure (entries_of es)

unfoldable pub parse_arm : Parsers → Parser (OptExpr × Expr)
parse_arm self =
    at TokenKind.else_kw (advance >> pure OptExpr.no_expr)
      (self.expression >>= λ e. pure (OptExpr.this e))
    >>= λ pattern.
        expect TokenKind.arrow
        >> (self.expression >>= λ body. accept TokenKind.semi >> pure (pattern, body))

-- `_parse_match_arms`
unfoldable pub parse_match_arms : Parsers → Parser Arms
parse_match_arms self =
    expect TokenKind.lbrace
    >> (many self.loops (TokenKind.rbrace ∷ []) (parse_arm self) >>= λ arms.
        expect TokenKind.rbrace >> pure (arms_of arms))

-- `_parse_return`, for a statement and for an expression
unfoldable pub parse_return : Parsers → Parser OptExpr
parse_return self =
    advance
    >> (at_any (TokenKind.semi ∷ TokenKind.rbrace ∷ []) (pure OptExpr.no_expr)
          (self.expression >>= λ e. pure (OptExpr.this e))
        >>= λ e. accept TokenKind.semi >> pure e)

-- `_parse_err_return`
unfoldable pub parse_err_return : Parsers → Parser Expr
parse_err_return self = advance >> (self.expression >>= λ e. accept TokenKind.semi >> pure e)

-- `_parse_function_expr`, behind `fun`
unfoldable pub parse_function_expr : Parsers → Parser Expr
parse_function_expr self = parse_params self false >>= λ ps. annotation self >>= λ ret.
    accept TokenKind.err_kw >>= λ fallible.
    parse_block self >>= λ body. pure (Expr.function_expr (params_of ps) ret body fallible)
