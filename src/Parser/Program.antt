-- ===== src/Parser/Program.antt =====
-- compiler/parser.py: the recursion tied, `parse_program`, `_scan_imports` and `parse`.
use new_cl_lang.Base.{
  ℕ, zero, suc, ◌&&◌, List, [], ◌∷◌, if◌then◌else◌, Outcome, ok, raised, out_of_fuel,
}
use new_cl_lang.Base.Text.{Text}
use new_cl_lang.Python.{Unicode}
use new_cl_lang.Lexer.Token.{TokenKind, TokenValue, text, Token}
use new_cl_lang.Ast.{Stmt, Stmts}
use new_cl_lang.Parser.Weight.{weight}
use new_cl_lang.Parser.State.{ParseError, Parser, pure, ◌>>=◌, at, many, same_kind}
use new_cl_lang.Parser.Knot.{Parsers, Setting}
use new_cl_lang.Parser.Blocks.{stmts_of}
use new_cl_lang.Parser.Primary.{parse_primary}
use new_cl_lang.Parser.Postfix.{parse_unary, parse_expression}
use new_cl_lang.Parser.Declarations.{
  parse_import, parse_type_alias, parse_extern_block, parse_iface,
}
use new_cl_lang.Parser.Statements.{parse_statement}

unfoldable pub parsers : Setting → ℕ → Parsers
parsers setting zero = record {
  loops = zero;
  expression = λ ts. out_of_fuel;
  unary = λ ts. out_of_fuel;
  primary = λ ts. out_of_fuel;
  statement = λ ts. out_of_fuel;
}
parsers setting (suc fuel) =
    let self = parsers setting fuel in
    record {
      loops = suc fuel;
      expression = parse_expression setting self;
      unary = parse_unary setting self;
      primary = parse_primary setting self;
      statement = parse_statement setting self;
    }

-- The statement of a program at the top level.
unfoldable pub parse_top_level : Parsers → Parser Stmt
parse_top_level self = at TokenKind.import_kw (parse_import self) (
    at TokenKind.type_kw (parse_type_alias self) (
      at TokenKind.extern_kw (parse_extern_block self)
        (at TokenKind.iface_kw (parse_iface self) self.statement)))

-- `parse_program`
unfoldable pub parse_program : Parsers → Parser Stmts
parse_program self =
    many self.loops (TokenKind.eof ∷ []) (parse_top_level self) >>= λ ss. pure (stmts_of ss)

-- `_scan_imports`: the names behind `import`. The set is a list, in which a name may stand twice.
unfoldable pub scan_imports : List Token → List Text
scan_imports [] = []
scan_imports (t ∷ []) = []
scan_imports (t ∷ next ∷ ts) =
    let rest = scan_imports (next ∷ ts) in
    if same_kind t.kind TokenKind.import_kw && same_kind next.kind TokenKind.ident
    then import_name next.value rest
    else rest
  where
    import_name : TokenValue → List Text → List Text
    import_name (text s) rest = s ∷ rest
    import_name _ rest = rest

-- `imported_modules or _scan_imports(tokens)`: an empty set counts as none.
abbrev pub imports_or_scan : List Text → List Token → List Text
imports_or_scan [] tokens = scan_imports tokens
imports_or_scan (m ∷ ms) tokens = m ∷ ms

abbrev pub result : {A : Type 0} → Outcome ParseError (A × List Token) → Outcome ParseError A
result (ok (a, r)) = ok a
result (raised e) = raised e
result out_of_fuel = out_of_fuel

-- `parse(tokens, imported_modules)`; None is [].
unfoldable pub parse : Unicode → List Text → List Token → Outcome ParseError Stmts
parse u imported tokens = result (
    parse_program
      (parsers (record { unicode = u; imported = imports_or_scan imported tokens })
        (suc (weight tokens)))
      tokens)
