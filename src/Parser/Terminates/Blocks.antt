-- ===== src/Parser/Terminates/Blocks.antt =====
-- The record of parsers ends, and then the parsers of blocks, parameters and lists end that use it.
use new_cl_lang.Base.{ℕ, suc, ◌≡◌, List, Option, none, some, Bool, true, false}
use new_cl_lang.Base.Text.{Text}
use new_cl_lang.Lexer.Token.{TokenKind}
use new_cl_lang.TypeRef.Syntax.{TypeRef}
use new_cl_lang.Ast.{OptExpr}
use new_cl_lang.Parser.State.{Parser, many, comma_list}
use new_cl_lang.Parser.Types.{parse_type, parse_type_args_with, parse_type_params}
use new_cl_lang.Parser.Knot.{Parsers}
use new_cl_lang.Parser.Blocks.{
  parse_block, annotation, check_param, parse_default, parse_param, no_dots, parse_param_list,
  parse_params, parse_call_args, parse_field, parse_struct_literal_fields, parse_entry,
  parse_map_literal_entries, parse_arm, parse_match_arms, parse_return, parse_err_return,
  parse_function_expr,
}
use new_cl_lang.Parser.Terminates.Rules.{
  First, Rest, endings, at-First, within, many-Rest, comma_list-Rest, pure-Rest, fail-Rest,
  >>=-First_same, at_any-First, fail-First,
}
use new_cl_lang.Parser.Terminates.Types.{
  parse_type-First, parse_type_args-First, parse_type_params-Rest,
}

-- The record's parsers end on tokens of weight below `n`, and its loops have fuel `n`.
pub record Fits (n : ℕ) (self : Parsers) : Type 0 where
  pub loops : self.loops ≡ n
  pub expression : First n self.expression
  pub unary : First n self.unary
  pub primary : First n self.primary
  pub statement : First n self.statement

module _ {n : ℕ} {self : Parsers} (fit : Fits n self) where
  pub many_loops :
      {A : Type 0} {item : Parser A}
      → First n item
      → (ends : List TokenKind) → Rest n (many self.loops ends item)
  many_loops h ends = rw (fit.loops) (many-Rest h ends)

  pub comma_loops :
      {A : Type 0} {item : Parser A}
      → First n item
      → (end : TokenKind) → Rest n (comma_list self.loops end item)
  comma_loops h end = rw (fit.loops) (comma_list-Rest h end)

  pub type-First : First n (parse_type self.loops)
  type-First = rw (fit.loops) (parse_type-First n)

  pub type_args-First : First (suc n) (parse_type_args_with self.loops (parse_type self.loops))
  type_args-First = rw (fit.loops) (parse_type_args-First (parse_type-First n))

  pub type_params-Rest : Rest n (parse_type_params self.loops)
  type_params-Rest = rw (fit.loops) (parse_type_params-Rest)

  pub parse_block-First : First (suc n) (parse_block self)
  unfolding parse_block
  parse_block-First = search (endings, many_loops, fit.statement) depth 30

  pub annotation-Rest : Rest n (annotation self)
  unfolding annotation
  annotation-Rest = search (endings, type-First) depth 30

  check_param-Rest :
      (name : Text) (t : Option TypeRef) (default : OptExpr) → Rest n (check_param name t default)
  unfolding check_param
  check_param-Rest name none OptExpr.no_expr = fail-Rest _
  check_param-Rest name none (OptExpr.this e) = pure-Rest _
  check_param-Rest name (some t) default = pure-Rest _

  parse_default-Rest : (allow_default : Bool) → Rest n (parse_default self allow_default)
  unfolding parse_default
  parse_default-Rest false = search endings depth 30
  parse_default-Rest true = search (endings, fit.expression) depth 30

  parse_param-First : (allow_default : Bool) → First (suc n) (parse_param self allow_default)
  unfolding parse_param
  parse_param-First allow_default =
      search (endings, annotation-Rest, parse_default-Rest, check_param-Rest) depth 30

  no_dots-First :
      {A : Type 0} {p : Parser A}
      → (allow_default : Bool) → First n p
      → First n (no_dots allow_default p)
  unfolding no_dots
  no_dots-First true h = h
  no_dots-First false h = at_any-First _ (fail-First _) h

  pub parse_params-First : (allow_default : Bool) → First (suc n) (parse_params self allow_default)
  unfolding parse_params parse_param_list
  parse_params-First allow_default =
      search (endings, comma_loops, no_dots-First allow_default, within, parse_param-First) depth 30

  pub parse_call_args-Rest : Rest n (parse_call_args self)
  unfolding parse_call_args
  parse_call_args-Rest = search (endings, comma_loops, fit.expression) depth 30

  parse_field-First : First (suc n) (parse_field self)
  unfolding parse_field
  parse_field-First = search (endings, fit.expression) depth 30

  pub parse_struct_literal_fields-Rest : Rest n (parse_struct_literal_fields self)
  unfolding parse_struct_literal_fields
  parse_struct_literal_fields-Rest =
      search (endings, comma_loops, within, parse_field-First) depth 30

  parse_entry-First : First n (parse_entry self)
  unfolding parse_entry
  parse_entry-First = >>=-First_same fit.expression (λ k. search (endings, fit.expression) depth 30)

  pub parse_map_literal_entries-Rest : Rest n (parse_map_literal_entries self)
  unfolding parse_map_literal_entries
  parse_map_literal_entries-Rest = search (endings, comma_loops, parse_entry-First) depth 30

  parse_arm-First : First n (parse_arm self)
  unfolding parse_arm
  parse_arm-First =
      >>=-First_same
        (at-First _ (within (search endings depth 30))
          (>>=-First_same fit.expression (λ e. pure-Rest _)))
        (λ pattern. search (endings, fit.expression) depth 30)

  pub parse_match_arms-First : First (suc n) (parse_match_arms self)
  unfolding parse_match_arms
  parse_match_arms-First = search (endings, many_loops, parse_arm-First) depth 30

  pub parse_return-First : First (suc n) (parse_return self)
  unfolding parse_return
  parse_return-First = search (endings, fit.expression) depth 30

  pub parse_err_return-First : First (suc n) (parse_err_return self)
  unfolding parse_err_return
  parse_err_return-First = search (endings, fit.expression) depth 30

  pub parse_function_expr-First : First (suc n) (parse_function_expr self)
  unfolding parse_function_expr
  parse_function_expr-First =
      search (endings, parse_params-First, annotation-Rest, parse_block-First) depth 30
