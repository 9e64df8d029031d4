-- ===== src/Parser/Terminates/Program.antt =====
-- The record of parsers fits its fuel, and programs end.
use new_cl_lang.Base.{
  ℕ, zero, suc, refl, ◌≢◌, List, arith, Settles, returns, raises, Outcome, ok, raised, out_of_fuel,
  Settles-ne-out_of_fuel,
}
use new_cl_lang.Base.Text.{Text}
use new_cl_lang.Lexer.Token.{Token}
use new_cl_lang.Python.{Unicode, AlnumLaw}
use new_cl_lang.Ast.{Stmts}
use new_cl_lang.Parser.Weight.{weight}
use new_cl_lang.Parser.State.{ParseError}
use new_cl_lang.Parser.Knot.{Parsers, Setting}
use new_cl_lang.Parser.Program.{
  parsers, parse_top_level, parse_program, result, parse, imports_or_scan,
}
use new_cl_lang.Parser.Terminates.Rules.{
  First, Rest, at-First, within, First-zero, >>=-Rest, pure-Rest,
}
use new_cl_lang.Parser.Terminates.Blocks.{Fits, many_loops}
use new_cl_lang.Parser.Terminates.Primary.{parse_primary-First}
use new_cl_lang.Parser.Terminates.Postfix.{parse_unary-First, parse_expression-First}
use new_cl_lang.Parser.Terminates.Statements.{
  parse_statement-First, parse_import-First, parse_type_alias-First, parse_extern_block-First,
  parse_iface-First,
}

module _ (setting : Setting) (law : AlnumLaw setting.unicode) where
  pub parsers-Fits : (n : ℕ) → Fits n (parsers setting n)
  unfolding parsers
  parsers-Fits zero = record {
    loops = refl;
    expression = First-zero;
    unary = First-zero;
    primary = First-zero;
    statement = First-zero;
  }
  parsers-Fits (suc n) =
      let fit = parsers-Fits n in
      record {
        loops = refl;
        expression = parse_expression-First fit setting law;
        unary = parse_unary-First fit setting law;
        primary = parse_primary-First fit setting law;
        statement = parse_statement-First fit setting law;
      }

module _ {n : ℕ} {self : Parsers} (fit : Fits n self) where
  parse_top_level-First : First n (parse_top_level self)
  unfolding parse_top_level
  parse_top_level-First = at-First _ (within (parse_import-First fit)) (
      at-First _ (within (parse_type_alias-First fit)) (
        at-First _ (within (parse_extern_block-First fit))
          (at-First _ (within (parse_iface-First fit)) fit.statement)))

  parse_program-Rest : Rest n (parse_program self)
  unfolding parse_program
  parse_program-Rest = >>=-Rest (many_loops fit parse_top_level-First _) (λ ss. pure-Rest _)

result-Settles :
    {P : Stmts × List Token → Type 0} (o : Outcome ParseError (Stmts × List Token))
    → Settles P o
    → Settles {E = ParseError} (λ _. Unit {0}) (result o)
result-Settles (ok (a, r)) h = returns tt
result-Settles (raised e) h = raises
result-Settles out_of_fuel h = elim h [ ]

-- For every list of tokens, well-formed or not, and every set of imported modules, the parser ends: its recursion
-- and its loops never need more fuel than the weight of the tokens, and it raises an exception or returns a program.
-- That `isalpha` implies `isalnum` is assumed of the Unicode tables, for the lexer of interpolations.
pub parse-ne-out_of_fuel :
    (u : Unicode)
    → AlnumLaw u
    → (imported : List Text) (tokens : List Token) → parse u imported tokens ≢ out_of_fuel
unfolding parse
parse-ne-out_of_fuel u law imported tokens = Settles-ne-out_of_fuel (
    result-Settles _ (
      (parse_program-Rest (parsers-Fits setting law (suc (weight tokens)))).settles tokens
        (omega arith)))
  where
    setting : Setting
    setting = record { unicode = u; imported = imports_or_scan imported tokens }
