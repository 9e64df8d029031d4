-- ===== src/Parser/Postfix.antt =====
-- compiler/parser.py: `parse_postfix`, `parse_unary` and the chain of binary operators.
use new_cl_lang.Base.{
  ℕ, zero, suc, Bool, true, false, ◌&&◌, not, List, [], ◌∷◌, ◌++◌, Option, none, some,
  if◌then◌else◌, Outcome, ok, raised, out_of_fuel,
}
use new_cl_lang.Base.Text.{Text, codes, text_eq, one_of}
use new_cl_lang.Lexer.Token.{TokenKind, Token}
use new_cl_lang.TypeRef.Syntax.{TypeRef}
use new_cl_lang.TypeRef.Split.{incr, decr, is_zero}
use new_cl_lang.Python.{ℤ, pos}
use new_cl_lang.Ast.{Expr, OptExpr}
use new_cl_lang.Parser.State.{
  ParseError, Parser, pure, fail, ◌>>=◌, ◌>>◌, peek, advance, expect, at, at_any, look, kind_at,
  same_kind, expect_name, operator, only_names_called, is_caught,
}
use new_cl_lang.Parser.Knot.{Parsers, Setting, type, parse_type_args}
use new_cl_lang.Parser.Blocks.{
  parse_block, parse_call_args, parse_struct_literal_fields, parse_match_arms,
}
use new_cl_lang.Parser.Primary.{applied_name, parse_primary}

-- `expr` in the loop, with the attribute `generic_type_args` of a name.
pub record Postfix : Type 0 where
  pub node : Expr
  pub type_args : List TypeRef

abbrev pub plain : Expr → Postfix
plain e = record { node = e; type_args = [] }

-- `isinstance(expr, Identifier)`, with its name
abbrev pub name_of : Expr → Option Text
name_of (Expr.identifier n) = some n
name_of _ = none

-- `_matching_bracket_contains`
unfoldable pub bracket_contains : TokenKind → ℤ → List Token → Bool
bracket_contains sought depth [] = false
bracket_contains sought depth (t ∷ ts) =
    let deeper = bracket_contains sought (incr depth) ts in
    let less = bracket_contains sought (decr depth) ts in
    let same = bracket_contains sought depth ts in
    if same_kind t.kind TokenKind.lbracket
    then deeper
    else if same_kind t.kind TokenKind.rbracket
    then (if is_zero (decr depth) then false else less)
    else if is_zero (decr depth) && same_kind t.kind sought
    then true
    else same

-- `(...)` behind an expression: `size_of(T)`, or the call of a name.
unfoldable pub parse_call : Parsers → Postfix → Parser Postfix
parse_call self expr = advance >> elim (name_of expr.node) [
  | none ↦ parse_call_args self >>= λ args. fail only_names_called
  | some name ↦
      if text_eq name (codes "size_of")
      then (type self >>= λ t. expect TokenKind.rparen >> pure (plain (Expr.size_of_type t)))
      else (parse_call_args self >>= λ args.
          pure (plain (Expr.function_call name args expr.type_args)))
]

-- `try: ... except ParseError: None`; the cursor stays where the source sets it back to.
unfoldable pub attempt :
    {A : Type 0} → Parser A → List Token → Outcome ParseError (Option (A × List Token))
attempt p ts = elim (p ts) [
  | ok ar ↦ ok (some ar)
  | raised e ↦ if is_caught e then ok none else raised e
  | out_of_fuel ↦ out_of_fuel
]

-- `[index]` and `[start:end]`
unfoldable pub parse_index : Parsers → Expr → Option (List TypeRef) → Parser Postfix
parse_index self expr candidate =
    advance
    >> (self.expression >>= λ first.
        at TokenKind.colon
          (advance
            >> (at TokenKind.rbracket (pure OptExpr.no_expr)
                  (self.expression >>= λ e. pure (OptExpr.this e))
                >>= λ end.
                    expect TokenKind.rbracket >> pure (plain (Expr.slice_expr expr first end))))
          (expect TokenKind.rbracket >> pure (plain (Expr.index_access expr first candidate))))

-- The brackets behind the name `name`, which read as `args` up to `r`: type arguments where a call follows, or
-- where they hold a comma; otherwise an index.
unfoldable pub choose_brackets :
    Parsers → Expr → Text → Option (List TypeRef × List Token) → Parser Postfix
choose_brackets self expr name none ts = parse_index self expr none ts
choose_brackets self expr name (some (args, r)) ts =
    (peek >> λ _.
    if kind_at 0 (TokenKind.lparen ∷ []) r
    then pure (record { node = expr; type_args = args }) r
    else if bracket_contains TokenKind.comma (pos 0) ts
    then pure (plain (Expr.generic_function_value name args)) r
    else parse_index self expr (some args) ts)
      r

unfoldable pub parse_brackets : Parsers → Postfix → Parser Postfix
parse_brackets self expr = elim (name_of expr.node) [
  | none ↦ parse_index self expr.node none
  | some name ↦ λ ts. elim (attempt (parse_type_args self) ts) [
    | ok read ↦ choose_brackets self expr.node name read ts
    | raised e ↦ raised e
    | out_of_fuel ↦ out_of_fuel
  ]
]

-- `module.field[T]...`, at the brackets: a call, a struct literal, or a function value.
unfoldable pub parse_generic_member : Parsers → Text → Parser Postfix
parse_generic_member self qname = parse_type_args self >>= λ args.
    at TokenKind.lparen
      (advance >> (parse_call_args self >>= λ es. pure (plain (Expr.function_call qname es args))))
      (at TokenKind.lbrace
        (advance
          >> (parse_struct_literal_fields self >>= λ fs.
              pure (plain (Expr.struct_literal (applied_name qname args) fs false))))
        (pure (plain (Expr.generic_function_value qname args))))

-- `.field(...)`: a function of an imported module, or a method.
unfoldable pub parse_method : Setting → Parsers → Expr → Text → Parser Postfix
parse_method setting self expr field =
    advance
    >> (parse_call_args self >>= λ args. pure (
        plain (elim (name_of expr) [
          | none ↦ Expr.method_call expr field args
          | some name ↦
              if one_of name setting.imported
              then Expr.function_call (name ++ (b'.' ∷ field)) args []
              else Expr.method_call expr field args
        ])))

unfoldable pub is_module : Setting → Expr → Bool
is_module setting expr = elim (name_of expr) [
  | none ↦ false
  | some name ↦ one_of name setting.imported
]

-- `[` and a token that is no INTEGER
abbrev pub opens_types : List Token → Bool
opens_types [] = false
opens_types (t ∷ []) = false
opens_types (t ∷ next ∷ ts) =
    same_kind t.kind TokenKind.lbracket && not (same_kind next.kind TokenKind.integer)

abbrev pub qualified_name : Expr → Text → Text
qualified_name expr field = elim (name_of expr) [
  | none ↦ field
  | some name ↦ name ++ (b'.' ∷ field)
]

unfoldable pub parse_member : Setting → Parsers → Postfix → Parser Postfix
parse_member setting self expr =
    advance
    >> (expect_name >>= λ field.
        peek
        >> look (λ ts. opens_types ts && is_module setting expr.node)
            (parse_generic_member self (qualified_name expr.node field))
            (at TokenKind.lparen (parse_method setting self expr.node field)
              (pure (plain (Expr.field_access expr.node field)))))

-- `err ? name { ... }`
unfoldable pub parse_handler : Parsers → Postfix → Parser Postfix
parse_handler self expr =
    advance
    >> (advance
        >> (expect_name >>= λ name. parse_block self >>= λ handler.
            pure (plain (Expr.error_handler expr.node name handler))))

-- `match ? name { ... }`
unfoldable pub parse_error_match : Parsers → Postfix → Parser Postfix
parse_error_match self expr =
    advance
    >> (advance
        >> (expect_name >>= λ name.
            parse_match_arms self >>= λ arms. pure (plain (Expr.error_match expr.node name arms))))

abbrev pub is_suffix : TokenKind → List Token → Bool
is_suffix k ts = kind_at 0 (k ∷ []) ts && kind_at 1 (TokenKind.question ∷ []) ts

-- One round of the loop: `next` goes on with the new expression, `stop` is the break.
unfoldable pub postfix_step :
    {A : Type 0}
    → Setting
    → Parsers
    → Postfix
    → (next : Postfix → Parser A) → (stop : Parser A) → Parser A
postfix_step setting self expr next stop = at TokenKind.lparen (parse_call self expr >>= next) (
    at TokenKind.lbracket (parse_brackets self expr >>= next) (
      at TokenKind.dot (parse_member setting self expr >>= next) (
        at TokenKind.questionquestion
          (advance >> next (plain (Expr.fallible_op expr.node (codes "??"))))
          (at TokenKind.notnot (advance >> next (plain (Expr.fallible_op expr.node (codes "!!")))) (
            look (is_suffix TokenKind.err_kw) (parse_handler self expr >>= next)
              (look (is_suffix TokenKind.match_kw) (parse_error_match self expr >>= next) stop))))))

unfoldable pub postfix_loop : ℕ → Setting → Parsers → Postfix → Parser Expr
postfix_loop zero setting self expr ts = out_of_fuel
postfix_loop (suc fuel) setting self expr ts =
    postfix_step setting self expr (postfix_loop fuel setting self) (pure expr.node) ts

unfoldable pub parse_postfix : Setting → Parsers → Parser Expr
parse_postfix setting self =
    parse_primary setting self >>= λ e. postfix_loop self.loops setting self (plain e)

abbrev pub prefix_kinds : List TokenKind
prefix_kinds = TokenKind.not_op ∷ TokenKind.tilde ∷ TokenKind.minus ∷ []

unfoldable pub parse_unary : Setting → Parsers → Parser Expr
parse_unary setting self =
    at_any prefix_kinds
      (operator >>= λ op. self.unary >>= λ operand. pure (Expr.unary_op op operand))
      (parse_postfix setting self)

-- The loop of a level of binary operators, which are left-associative, and the level.
unfoldable pub binary_loop : ℕ → List TokenKind → Parser Expr → Expr → Parser Expr
binary_loop zero kinds operand left ts = out_of_fuel
binary_loop (suc fuel) kinds operand left ts =
    at_any kinds
      (operator >>= λ op.
        operand >>= λ right. binary_loop fuel kinds operand (Expr.binary_op left op right))
      (pure left) ts

unfoldable pub binary_level : ℕ → List TokenKind → Parser Expr → Parser Expr
binary_level fuel kinds operand = operand >>= λ left. binary_loop fuel kinds operand left

abbrev pub multiplicative_kinds : List TokenKind
multiplicative_kinds =
    TokenKind.star ∷ TokenKind.slash ∷ TokenKind.percent ∷ TokenKind.shl ∷ TokenKind.shr
    ∷ TokenKind.amp ∷ []

abbrev pub additive_kinds : List TokenKind
additive_kinds = TokenKind.plus ∷ TokenKind.minus ∷ TokenKind.pipe ∷ TokenKind.caret ∷ []

abbrev pub comparison_kinds : List TokenKind
comparison_kinds =
    TokenKind.gt ∷ TokenKind.lt ∷ TokenKind.ge ∷ TokenKind.le ∷ TokenKind.eqeq ∷ TokenKind.ne ∷ []

module _ (setting : Setting) (self : Parsers) where
  unfoldable pub parse_multiplicative : Parser Expr
  parse_multiplicative = binary_level self.loops multiplicative_kinds (parse_unary setting self)

  unfoldable pub parse_additive : Parser Expr
  parse_additive = binary_level self.loops additive_kinds parse_multiplicative

  unfoldable pub parse_comparison : Parser Expr
  parse_comparison = binary_level self.loops comparison_kinds parse_additive

  unfoldable pub parse_logic_and : Parser Expr
  parse_logic_and = binary_level self.loops (TokenKind.and ∷ []) parse_comparison

  unfoldable pub parse_logic_or : Parser Expr
  parse_logic_or = binary_level self.loops (TokenKind.or ∷ []) parse_logic_and

  unfoldable pub parse_expression : Parser Expr
  parse_expression = parse_logic_or
