-- ===== src/Parser/Terminates/Statements.antt =====
-- Declarations and statements end.
use new_cl_lang.Base.{ℕ, suc, [], ◌∷◌, arith, Settles-weaken}
use new_cl_lang.Base.Text.{Text}
use new_cl_lang.Lexer.Token.{TokenKind}
use new_cl_lang.TypeRef.Syntax.{TypeRef, named}
use new_cl_lang.Python.{AlnumLaw}
use new_cl_lang.Parser.State.{ParseError, ◌>>=◌, expect_name}
use new_cl_lang.Parser.Types.{TypeParams}
use new_cl_lang.Parser.Knot.{Parsers, Setting}
use new_cl_lang.Parser.Declarations.{
  parse_receiver, parse_function, no_type_params, parse_symbol, parse_signature,
  parse_extern_function, parse_extern_block, parse_import, parse_type_alias, named_or_fail,
  parse_struct_field, parse_struct, parse_enum, parse_iface_method, parse_iface_member, parse_iface,
}
use new_cl_lang.Parser.Statements.{
  parse_let, parse_expression_statement, parse_spawn, parse_else_clause, parse_success_name,
  parse_try, parse_for_condition, parse_for_in, parse_for_range, parse_for_name, parse_for,
  parse_break, parse_ident_stmt, parse_other_statement, parse_statement,
}
use new_cl_lang.Parser.Terminates.Rules.{
  First, Rest, endings, pure-Rest, fail-Rest, fail-First, run_bind, within, >>=-First_same,
  at-First, at-Settles, expect-First, text_of-Rest, >>=-First, >>=-Rest, at_any-Rest,
}
use new_cl_lang.Parser.Terminates.Blocks.{
  Fits, type-First, comma_loops, many_loops, type_params-Rest, annotation-Rest, parse_block-First,
  parse_params-First, parse_return-First, parse_err_return-First, parse_function_expr-First,
}
use new_cl_lang.Parser.Terminates.Postfix.{parse_expression-First}

expect_name-First : {n : ℕ} → First n expect_name
expect_name-First = >>=-First_same (expect-First _) (λ t. text_of-Rest t)

module _ {n : ℕ} {self : Parsers} (fit : Fits n self) where
  parse_receiver-Rest : Rest n (parse_receiver self)
  unfolding parse_receiver
  parse_receiver-Rest = search (endings, type-First, fit) depth 30

  parse_function-First : First (suc n) (parse_function self)
  unfolding parse_function
  parse_function-First =
      search
        (
          endings, parse_receiver-Rest, type_params-Rest, parse_params-First, annotation-Rest,
          parse_block-First, fit,
        )
        depth 40

  no_type_params-Rest : (tps : TypeParams) → Rest n (no_type_params self tps)
  no_type_params-Rest ([], cs) = pure-Rest tt
  no_type_params-Rest (p ∷ ps, cs) = fail-Rest _

  parse_symbol-Rest : Rest n (parse_symbol self)
  unfolding parse_symbol
  parse_symbol-Rest = search endings depth 30

  parse_signature-First : First (suc n) (parse_signature self)
  unfolding parse_signature
  parse_signature-First =
      search
        (
          endings, type_params-Rest, no_type_params-Rest, parse_params-First, annotation-Rest,
          parse_symbol-Rest, fit,
        )
        depth 40

  parse_extern_function-First : First (suc n) (parse_extern_function self)
  unfolding parse_extern_function
  parse_extern_function-First = search (endings, parse_signature-First) depth 30

  pub parse_extern_block-First : First (suc n) (parse_extern_block self)
  unfolding parse_extern_block
  parse_extern_block-First =
      search (endings, many_loops fit (within parse_extern_function-First)) depth 30

  pub parse_import-First : First (suc n) (parse_import self)
  unfolding parse_import
  parse_import-First = search endings depth 30

  pub parse_type_alias-First : First (suc n) (parse_type_alias self)
  unfolding parse_type_alias
  parse_type_alias-First = search (endings, type-First, fit) depth 30

  named_or_fail-Rest : (e : ParseError) (t : TypeRef) → Rest n (named_or_fail e t)
  unfolding named_or_fail
  named_or_fail-Rest e (named name) = pure-Rest name
  named_or_fail-Rest e _ = fail-Rest e

  parse_struct_field-First : First n (parse_struct_field self)
  unfolding parse_struct_field
  parse_struct_field-First =
      >>=-First_same (type-First fit)
        (λ t. search (endings, type-First, named_or_fail-Rest, fit) depth 30)

  parse_struct-First : First (suc n) (parse_struct self)
  unfolding parse_struct
  parse_struct-First =
      search (endings, type_params-Rest, comma_loops, parse_struct_field-First, fit) depth 30

  parse_enum-First : First (suc n) (parse_enum self)
  unfolding parse_enum
  parse_enum-First = search (endings, comma_loops, expect_name-First, fit) depth 30

  parse_iface_method-First : First (suc n) (parse_iface_method self)
  unfolding parse_iface_method
  parse_iface_method-First = search (endings, parse_params-First, type-First, fit) depth 30

  parse_iface_member-First : First n (parse_iface_member self)
  unfolding parse_iface_member
  parse_iface_member-First = at-First _ (fail-First _) (
      at-First _ (within parse_iface_method-First)
        (>>=-First_same (type-First fit) (λ t. search endings depth 30)))

  pub parse_iface-First : First (suc n) (parse_iface self)
  unfolding parse_iface
  parse_iface-First = search (endings, many_loops, parse_iface_member-First, fit) depth 30

module _ {n : ℕ} {self : Parsers} (fit : Fits n self) (setting : Setting)
    (law : AlnumLaw setting.unicode) where
  parse_let-First : First (suc n) (parse_let setting self)
  unfolding parse_let
  parse_let-First = search (endings, annotation-Rest, fit.expression, fit) depth 30

  parse_expression_statement-First : First (suc n) (parse_expression_statement setting self)
  unfolding parse_expression_statement
  parse_expression_statement-First =
      search (endings, parse_expression-First fit setting law) depth 30

  parse_spawn-First : First (suc n) (parse_spawn setting self)
  unfolding parse_spawn
  parse_spawn-First = search (endings, parse_function_expr-First, fit) depth 30

  parse_else_clause-Rest : Rest n (parse_else_clause setting self)
  unfolding parse_else_clause
  parse_else_clause-Rest = search (endings, parse_block-First, fit) depth 30

  parse_success_name-Rest : Rest n (parse_success_name setting self)
  unfolding parse_success_name
  parse_success_name-Rest = search endings depth 30

  parse_try-First : First (suc n) (parse_try setting self)
  unfolding parse_try
  parse_try-First =
      search
        (
          endings, parse_success_name-Rest, fit.expression, parse_block-First,
          parse_else_clause-Rest, fit,
        )
        depth 30

  parse_for_condition-Rest : Rest n (parse_for_condition setting self)
  unfolding parse_for_condition
  parse_for_condition-Rest = search (endings, fit.expression, parse_block-First, fit) depth 30

  parse_for_in-First : (index : Text) → First (suc n) (parse_for_in setting self index)
  unfolding parse_for_in
  parse_for_in-First index = search (endings, fit.expression, parse_block-First, fit) depth 30

  parse_for_range-First : (index : Text) → First (suc n) (parse_for_range setting self index)
  unfolding parse_for_range
  parse_for_range-First index = search (endings, fit.expression, parse_block-First, fit) depth 30

  -- For a condition the cursor goes back to the name.
  parse_for_name-Rest : Rest n (parse_for_name setting self)
  unfolding parse_for_name ◌>>=◌
  parse_for_name-Rest = record {
    settles = λ ts lt. run_bind _ (expect_name-First.settles ts lt) λ index r le.
        at-Settles
          (λ r' lt'.
            Settles-weaken ((parse_for_in-First index).settles r' (omega arith))
              (λ x le'. omega arith))
          (at-Settles
            (λ r' lt'.
              Settles-weaken ((parse_for_range-First index).settles r' (omega arith))
                (λ x le'. omega arith))
            (λ r' lt'. parse_for_condition-Rest.settles ts lt) TokenKind.in_kw)
          TokenKind.comma r le;
  }

  parse_for-First : First (suc n) (parse_for setting self)
  unfolding parse_for
  parse_for-First = search (endings, parse_for_name-Rest, parse_for_condition-Rest) depth 30

  parse_break-First : First (suc n) (parse_break setting self)
  unfolding parse_break
  parse_break-First = search endings depth 30

  parse_ident_stmt-First : First (suc n) (parse_ident_stmt setting self)
  unfolding parse_ident_stmt
  parse_ident_stmt-First = >>=-First (parse_expression-First fit setting law) λ e.
      >>=-Rest (at_any-Rest _ (search (endings, fit.expression) depth 30) (search endings depth 30))
        (λ s. search endings depth 30)

  parse_other_statement-First : First (suc n) (parse_other_statement setting self)
  unfolding parse_other_statement
  parse_other_statement-First =
      search
        (
          endings, parse_for-First, parse_err_return-First, parse_try-First, parse_block-First,
          parse_spawn-First, parse_break-First, parse_ident_stmt-First,
          parse_expression_statement-First, fit,
        )
        depth 40

  pub parse_statement-First : First (suc n) (parse_statement setting self)
  unfolding parse_statement
  parse_statement-First =
      search
        (
          endings, parse_let-First, parse_expression_statement-First, parse_function-First,
          parse_return-First, parse_struct-First, parse_enum-First, parse_other_statement-First,
          fit,
        )
        depth 40
