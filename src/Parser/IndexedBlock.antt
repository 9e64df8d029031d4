-- ===== src/Parser/IndexedBlock.antt =====
-- compiler/parser.py, `parse_primary`: an element or a field in front of a block.
use new_cl_lang.Base.{ℕ, suc, ◌≡◌, refl, false, List, ◌∷◌, ◌++◌, raised, Bool-cases, inl, inr}
use new_cl_lang.Base.Text.{Text, codes, text_eq, one_of}
use new_cl_lang.Lexer.Token.{TokenKind, TokenValue, text, Token}
use new_cl_lang.Parser.State.{
  ParseError, Parser, expected, pure, ◌>>=◌, ◌>>◌, peek, at, look, kind_at, kind_in, same_kind,
  kind_value, advance, expect, text_of, text_value, comma_list, comma_items, dotted,
}
use new_cl_lang.Parser.Types.{parse_type, parse_type_with, parse_named_type, parse_type_args_with}
use new_cl_lang.Ast.{Expr}
use new_cl_lang.Parser.Knot.{Parsers, Setting}
use new_cl_lang.Parser.Blocks.{parse_struct_literal_fields, parse_field}
use new_cl_lang.Parser.Primary.{
  magic_consts, after_bracket, after_bracket_in, parse_primary, parse_literal, parse_operand,
  parse_name, parse_applied_name, parse_qualified, parse_struct_literal,
}

abbrev pub sign : TokenKind → TokenValue → ℕ → Token
sign k v p = record { kind = k; value = v; pos = p }

-- `name[number] {`
abbrev pub indexed_block :
    Text → TokenValue → TokenValue → (a b c d e : ℕ) → List Token → List Token
indexed_block name value bracket a b c d e rest =
    sign TokenKind.ident (text name) a
    ∷ sign TokenKind.lbracket bracket b
    ∷ sign TokenKind.integer value c
    ∷ sign TokenKind.rbracket bracket d
    ∷ sign TokenKind.lbrace bracket e
    ∷ rest

-- A name that is no magic constant and not `map`, with a number in brackets and an opening brace behind, as in the
-- condition of `if flags[0] { ... }`, is refused whatever follows: the number is expected to be the name of a type.
pub parse_primary-indexed_block :
    (setting : Setting) (self : Parsers) (m : ℕ) (name : Text) (value bracket : TokenValue)
    (a b c d e : ℕ) (rest : List Token)
    → self.loops ≡ suc m
    → one_of name magic_consts ≡ false
    → text_eq name (codes "map") ≡ false
    → parse_primary setting self (indexed_block name value bracket a b c d e rest)
      ≡ raised (expected TokenKind.ident (sign TokenKind.integer value c))
unfolding parse_primary parse_literal parse_operand parse_name at same_kind kind_value ◌>>=◌ ◌>>◌
    expect text_of text_value peek look kind_at kind_in pure parse_applied_name parse_type_args_with
    comma_list comma_items parse_type parse_type_with parse_named_type after_bracket_in
    after_bracket
parse_primary-indexed_block setting self m name value bracket a b c d e rest loops plain other =
    rw (plain, other, loops) refl

-- `name.field {` and the first token of the block
abbrev pub qualified_block :
    Text → Text → TokenValue → (a b c d : ℕ) → Token → List Token → List Token
qualified_block name field sep a b c d t rest =
    sign TokenKind.ident (text name) a
    ∷ sign TokenKind.dot sep b
    ∷ sign TokenKind.ident (text field) c
    ∷ sign TokenKind.lbrace sep d
    ∷ t
    ∷ rest

bind-raised :
    {A B : Type 0} (p : Parser A) (f : A → Parser B) (ts : List Token) {e : ParseError}
    → p ts ≡ raised e
    → (p >>= f) ts ≡ raised e
unfolding ◌>>=◌
bind-raised p f ts h = rw (h, ◌>>=◌) refl

module _ {A : Type 0} (item : Parser A) (m : ℕ) (end : TokenKind) (t : Token)
    (rest : List Token) where
  comma_items-raised :
      {e : ParseError}
      → item (t ∷ rest) ≡ raised e
      → comma_items (suc m) end item (t ∷ rest) ≡ raised e
  unfolding comma_items
  comma_items-raised h = bind-raised _ _ _ h

  comma_list-raised :
      {e : ParseError}
      → same_kind t.kind end ≡ false
      → item (t ∷ rest) ≡ raised e
      → comma_list (suc m) end item (t ∷ rest) ≡ raised e
  unfolding comma_list at
  comma_list-raised other h = rw other (comma_items-raised h)

parse_field-raised :
    (self : Parsers) (t : Token) (rest : List Token)
    → same_kind t.kind TokenKind.ident ≡ false
    → parse_field self (t ∷ rest) ≡ raised (expected TokenKind.ident t)
unfolding parse_field ◌>>=◌ expect
parse_field-raised self t rest other = rw (other, ◌>>=◌) refl

fields-raised :
    (self : Parsers) (m : ℕ) (t : Token) (rest : List Token)
    → self.loops ≡ suc m
    → same_kind t.kind TokenKind.ident ≡ false
    → same_kind t.kind TokenKind.rbrace ≡ false
    → parse_struct_literal_fields self (t ∷ rest) ≡ raised (expected TokenKind.ident t)
unfolding parse_struct_literal_fields
fields-raised self m t rest loops other open_ended = bind-raised _ _ _ (fuel_of self.loops loops)
  where
    fuel_of :
        (n : ℕ)
        → n ≡ suc m
        → comma_list n TokenKind.rbrace (parse_field self) (t ∷ rest)
          ≡ raised (expected TokenKind.ident t)
    fuel_of n e = rw e (
        comma_list-raised (parse_field self) m TokenKind.rbrace t rest open_ended
          (parse_field-raised self t rest other))

-- A name that is no magic constant, with a field and an opening brace behind, as in the condition of
-- `if p.ok { ret 1 }`, is refused when the block begins with neither a name nor its closing brace: the name of a
-- field is expected, since the block is taken for a struct literal.
pub parse_primary-qualified_block :
    (setting : Setting) (self : Parsers) (m : ℕ) (name field : Text) (sep : TokenValue)
    (a b c d : ℕ) (t : Token) (rest : List Token)
    → self.loops ≡ suc m
    → one_of name magic_consts ≡ false
    → same_kind t.kind TokenKind.ident ≡ false
    → same_kind t.kind TokenKind.rbrace ≡ false
    → parse_primary setting self (qualified_block name field sep a b c d t rest)
      ≡ raised (expected TokenKind.ident t)
unfolding parse_primary parse_literal parse_operand parse_name at kind_value ◌>>=◌ ◌>>◌ expect
    text_of text_value peek look kind_at kind_in pure advance dotted parse_qualified
    parse_struct_literal same_kind
parse_primary-qualified_block setting self m name field sep a b c d t rest loops plain other
      open_ended =
    elim (Bool-cases (text_eq name (codes "map"))) [
      | inl map ↦ rw (plain, map) literal_raised
      | inr h ↦ rw (plain, h) literal_raised
    ]
  where
    fields : parse_struct_literal_fields self (t ∷ rest) ≡ raised (expected TokenKind.ident t)
    fields = fields-raised self m t rest loops other open_ended

    literal_raised :
        (parse_struct_literal_fields self >>= λ fs.
        pure (Expr.struct_literal (name ++ (b'.' ∷ field)) fs false))
          (t ∷ rest)
        ≡ raised (expected TokenKind.ident t)
    literal_raised =
        bind-raised (parse_struct_literal_fields self)
          (λ fs. pure (Expr.struct_literal (name ++ (b'.' ∷ field)) fs false)) (t ∷ rest) fields
