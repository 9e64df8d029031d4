-- ===== src/Parser/Declarations.antt =====
-- compiler/parser.py: functions, structs, enums, interfaces, imports, type aliases and extern blocks.
use new_cl_lang.Base.{
  Bool, true, false, List, [], ◌∷◌, ◌++◌, Option, none, some, if◌then◌else◌, ◌==◌,
}
use new_cl_lang.Base.Text.{Text, codes}
use new_cl_lang.Lexer.Token.{TokenKind, TokenValue}
use new_cl_lang.TypeRef.Syntax.{TypeRef, named, pointer}
use new_cl_lang.Ast.{Stmt, Stmts, Function, Functions, Methods}
use new_cl_lang.Parser.State.{
  ParseError, Parser, pure, fail, ◌>>=◌, ◌>>◌, advance, expect, accept, at, expect_name, many,
  comma_list, deep_import, selective_import, unterminated_extern, extern_not_function,
  extern_method, extern_generic, extern_body, field_name, embedded_field, unterminated_iface,
  iface_receiver, iface_body,
}
use new_cl_lang.Parser.Types.{TypeParams, parse_type_params}
use new_cl_lang.Parser.Knot.{Parsers, type}
use new_cl_lang.Parser.Blocks.{Param, params_of, parse_block, parse_params, annotation}

module _ (self : Parsers) where
  -- `(name *T)`, the receiver of a method
  unfoldable pub parse_receiver : Parser (Option (Text × TypeRef))
  parse_receiver =
      at TokenKind.lparen
        (advance
          >> (expect_name >>= λ name.
              expect TokenKind.star
              >> (type self >>= λ t.
                  expect TokenKind.rparen >> pure (some (name, pointer t false)))))
        (pure none)

  -- `_parse_function`
  unfoldable pub parse_function : Parser Function
  parse_function =
      advance
      >> (parse_receiver >>= λ receiver. expect_name >>= λ name.
          parse_type_params self.loops >>= λ tps. parse_params self true >>= λ ps.
          annotation self >>= λ ret. accept TokenKind.err_kw >>= λ fallible.
          parse_block self >>= λ body.
          accept TokenKind.semi
          >> pure (
              Function.function name (params_of ps) ret body receiver false none fallible tps.0
                tps.1))

  abbrev pub no_type_params : TypeParams → Parser (Unit {0})
  no_type_params ([], cs) = pure tt
  no_type_params (p ∷ ps, cs) = fail extern_generic

  -- `= "symbol"`
  unfoldable pub parse_symbol : Parser (Option TokenValue)
  parse_symbol =
      at TokenKind.eq (advance >> (expect TokenKind.string >>= λ t. pure (some t.value)))
        (pure none)

  -- `_parse_function_signature_only`
  unfoldable pub parse_signature : Parser Function
  parse_signature =
      advance
      >> at TokenKind.lparen (fail extern_method) (
          expect_name >>= λ name. parse_type_params self.loops >>= λ tps.
          no_type_params tps
          >> (parse_params self false >>= λ ps. annotation self >>= λ ret.
              accept TokenKind.err_kw >>= λ fallible. parse_symbol >>= λ symbol.
              at TokenKind.lbrace (fail extern_body) (
                pure (
                  Function.function name (params_of ps) ret Stmts.no_stmts none true symbol fallible
                    [] []))))

  abbrev functions_of : List Function → Functions
  functions_of [] = Functions.no_functions
  functions_of (f ∷ fs) = Functions.function_cons f (functions_of fs)

  unfoldable pub parse_extern_function : Parser Function
  parse_extern_function = at TokenKind.eof (fail unterminated_extern) (
      at TokenKind.fun_kw (parse_signature >>= λ f. accept TokenKind.semi >> pure f)
        (fail extern_not_function))

  -- `_parse_extern_block`
  unfoldable pub parse_extern_block : Parser Stmt
  parse_extern_block =
      advance
      >> (at TokenKind.string (advance >>= λ t. pure (some t.value)) (pure none) >>= λ lib.
          expect TokenKind.lbrace
          >> (many self.loops (TokenKind.rbrace ∷ []) parse_extern_function >>= λ fs.
              expect TokenKind.rbrace
              >> accept TokenKind.semi
              >> pure (Stmt.extern_block lib (functions_of fs))))

  -- `_parse_import`
  unfoldable pub parse_import : Parser Stmt
  parse_import =
      advance
      >> (expect_name >>= λ name. at TokenKind.dot (fail deep_import) (
          at TokenKind.lbrace (fail selective_import)
            (accept TokenKind.semi >> pure (Stmt.import_decl name))))

  -- `_parse_type_alias`
  unfoldable pub parse_type_alias : Parser Stmt
  parse_type_alias =
      advance
      >> (expect_name >>= λ name.
          expect TokenKind.eq
          >> (type self >>= λ t. accept TokenKind.semi >> pure (Stmt.type_alias name t)))

-- `name.split(".")[-1]`, with what stands since the last dot
unfoldable pub last_part : Text → Text → Text
last_part part [] = part
last_part part (c ∷ t) = if c == b'.' then last_part [] t else last_part (part ++ c ∷ []) t

-- A field's name, type, and whether it is embedded.
abbrev pub StructField : Type 0
StructField = Text × TypeRef × Bool

-- `isinstance(name_or_type, NamedType)`, with its name
unfoldable pub named_or_fail : ParseError → TypeRef → Parser Text
named_or_fail e (named n) = pure n
named_or_fail e _ = fail e

abbrev pub field_types : List StructField → List (Text × TypeRef)
field_types [] = []
field_types ((name, t, embedded) ∷ fs) = (name, t) ∷ field_types fs

abbrev pub embedded_names : List StructField → List Text
embedded_names [] = []
embedded_names ((name, t, embedded) ∷ fs) =
    if embedded then name ∷ embedded_names fs else embedded_names fs

abbrev pub methods_of : List (Text × List Param × TypeRef × Bool) → Methods
methods_of [] = Methods.no_methods
methods_of ((name, ps, ret, fallible) ∷ ms) =
    Methods.method name (params_of ps) ret fallible (methods_of ms)

-- What stands in an interface: a method, or an embedded interface.
pub data Member : Type 0 where
  declares : (Text × List Param × TypeRef × Bool) → Member
  embeds : TypeRef → Member

abbrev pub members_methods : List Member → List (Text × List Param × TypeRef × Bool)
members_methods [] = []
members_methods (declares m ∷ ms) = m ∷ members_methods ms
members_methods (embeds t ∷ ms) = members_methods ms

abbrev pub members_embeds : List Member → List TypeRef
members_embeds [] = []
members_embeds (declares m ∷ ms) = members_embeds ms
members_embeds (embeds t ∷ ms) = t ∷ members_embeds ms

module _ (self : Parsers) where
  -- `_parse_struct_field`
  unfoldable pub parse_struct_field : Parser StructField
  parse_struct_field = type self >>= λ t.
      at TokenKind.colon
        (advance
          >> (named_or_fail field_name t >>= λ name. type self >>= λ ft. pure (name, ft, false)))
        (named_or_fail embedded_field t >>= λ name. pure (last_part [] name, t, true))

  -- `_parse_struct`
  unfoldable pub parse_struct : Parser Stmt
  parse_struct =
      advance
      >> (expect_name >>= λ name. parse_type_params self.loops >>= λ tps.
          expect TokenKind.lbrace
          >> (comma_list self.loops TokenKind.rbrace parse_struct_field >>= λ fs.
              expect TokenKind.rbrace
              >> accept TokenKind.semi
              >> pure (Stmt.struct_decl name (field_types fs) (embedded_names fs) tps.0 tps.1)))

  -- `_parse_enum`
  unfoldable pub parse_enum : Parser Stmt
  parse_enum =
      advance
      >> (expect_name >>= λ name.
          expect TokenKind.lbrace
          >> (comma_list self.loops TokenKind.rbrace expect_name >>= λ vs.
              expect TokenKind.rbrace >> accept TokenKind.semi >> pure (Stmt.enum_decl name vs)))

  unfoldable pub parse_iface_method : Parser Member
  parse_iface_method =
      advance
      >> at TokenKind.lparen (fail iface_receiver) (
          expect_name >>= λ name. parse_params self false >>= λ ps.
          at TokenKind.colon (advance >> type self) (pure (named (codes "void"))) >>= λ ret.
          accept TokenKind.err_kw >>= λ fallible.
          at TokenKind.lbrace (fail iface_body)
            (accept TokenKind.semi >> pure (declares (name, ps, ret, fallible))))

  unfoldable pub parse_iface_member : Parser Member
  parse_iface_member = at TokenKind.eof (fail unterminated_iface) (
      at TokenKind.fun_kw parse_iface_method
        (type self >>= λ t. accept TokenKind.semi >> pure (embeds t)))

  -- `_parse_iface`
  unfoldable pub parse_iface : Parser Stmt
  parse_iface =
      advance
      >> (expect_name >>= λ name.
          expect TokenKind.lbrace
          >> (many self.loops (TokenKind.rbrace ∷ []) parse_iface_member >>= λ ms.
              expect TokenKind.rbrace
              >> accept TokenKind.semi
              >> pure (Stmt.iface_decl name (methods_of (members_methods ms)) (members_embeds ms))))
