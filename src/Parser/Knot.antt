-- ===== src/Parser/Knot.antt =====
-- compiler/parser.py: the calls by which the parser's methods recur, as a record of parsers. A method takes the
-- record and the methods that call it without moving the cursor take the method; so each use of the
-- record has read a token, and the record at one unit of fuel less serves.
use new_cl_lang.Base.{ℕ, List}
use new_cl_lang.Base.Text.{Text}
use new_cl_lang.Python.{Unicode}
use new_cl_lang.TypeRef.Syntax.{TypeRef}
use new_cl_lang.Ast.{Expr, Stmt}
use new_cl_lang.Parser.State.{Parser}
use new_cl_lang.Parser.Types.{parse_type, parse_type_args_with}

-- `loops` is the fuel of loops, and of `_parse_type`.
pub record Parsers : Type 0 where
  pub loops : ℕ
  pub expression : Parser Expr
  pub unary : Parser Expr
  pub primary : Parser Expr
  pub statement : Parser Stmt

-- What the parser is run with: the Unicode tables of the lexer that reads interpolations, and
-- `imported_modules`.
pub record Setting : Type 0 where
  pub unicode : Unicode
  pub imported : List Text

module _ (self : Parsers) where
  abbrev pub type : Parser TypeRef
  type = parse_type self.loops

  abbrev pub parse_type_args : Parser (List TypeRef)
  parse_type_args = parse_type_args_with self.loops type
