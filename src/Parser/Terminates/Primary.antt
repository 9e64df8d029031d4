-- ===== src/Parser/Terminates/Primary.antt =====
-- `parse_primary` ends, the expressions in interpolated strings included.
use new_cl_lang.Base.{
  ℕ, suc, ◌+◌, ◌<◌, List, [], ◌∷◌, Option, none, some, true, false, arith, Settles, returns, raises,
  Outcome, ok, raised, out_of_fuel, length, Settles-if, Settles-weaken,
}
use new_cl_lang.Base.Text.{Text, one_of}
use new_cl_lang.Lexer.Token.{TokenKind, TokenValue, Token, Part, LexError}
use new_cl_lang.TypeRef.Syntax.{TypeRef}
use new_cl_lang.Parser.State.{ParseError, Parser, pure, advance, expect, at, ◌>>◌, ◌>>=◌}
use new_cl_lang.Python.{AlnumLaw}
use new_cl_lang.Lexer.Lex.{lex}
use new_cl_lang.Ast.{Expr}
use new_cl_lang.Parser.Weight.{weight, parts_weight, value_weight}
use new_cl_lang.Parser.Knot.{Parsers, Setting}
use new_cl_lang.Parser.Blocks.{parse_call_args}
use new_cl_lang.Parser.Primary.{
  parse_else, parse_if, parse_match, parse_new, parse_elements, parse_sequence_of, parse_sequence,
  parse_typed_map, parse_untyped_map, parse_variant, parse_struct_literal, parse_qualified,
  looks_like_struct, parse_plain_name, parse_applied_name, parse_name, parse_parenthesised,
  parse_operand, parse_literal, parse_primary, magic_consts, lexed, parse_part, parse_parts,
  string_value, string_of, applied_name, literal_of, literal_value,
}
use new_cl_lang.Parser.Terminates.Rules.{
  First, Rest, endings, pure-Rest, fail-Rest, Rest-if, run_bind, at-Settles, at-First_suc,
  >>=-First, >>=-First_look, peek-Rest, fail-First, >>=-Rest, advance-First,
}
use new_cl_lang.Parser.Terminates.Types.{parse_length-First}
use new_cl_lang.Parser.Terminates.Sources.{lex-weight}
use new_cl_lang.Parser.Terminates.Blocks.{
  Fits, type-First, type_args-First, comma_loops, parse_block-First, parse_call_args-Rest,
  parse_struct_literal_fields-Rest, parse_map_literal_entries-Rest, parse_match_arms-First,
  parse_return-First, parse_err_return-First, parse_function_expr-First,
}

module _ {n : ℕ} {self : Parsers} (fit : Fits n self) where
  parse_else-Rest : Rest n (parse_else self)
  unfolding parse_else
  parse_else-Rest = search (endings, fit.primary, parse_block-First, fit) depth 30

  parse_if-First : First (suc n) (parse_if self)
  unfolding parse_if
  parse_if-First =
      search (endings, fit.expression, parse_block-First, parse_else-Rest, fit) depth 30

  parse_match-First : First (suc n) (parse_match self)
  unfolding parse_match
  parse_match-First = search (endings, fit.expression, parse_match_arms-First, fit) depth 30

  parse_new-First : First (suc n) (parse_new self)
  unfolding parse_new
  parse_new-First =
      search (endings, type_args-First, parse_struct_literal_fields-Rest, fit) depth 30

  parse_elements-First : First (suc n) (parse_elements self)
  unfolding parse_elements
  parse_elements-First = search (endings, comma_loops, fit.expression, fit) depth 30

  parse_sequence_of-Rest : (k : Option ℕ) → Rest n (parse_sequence_of self k)
  unfolding parse_sequence_of
  parse_sequence_of-Rest none = search (endings, type-First, parse_elements-First, fit) depth 30
  parse_sequence_of-Rest (some k) = search (endings, type-First, parse_elements-First, fit) depth 30

  parse_sequence-First : First (suc n) (parse_sequence self)
  unfolding parse_sequence
  parse_sequence-First = search (endings, parse_length-First, parse_sequence_of-Rest) depth 30

  parse_typed_map-First : First (suc n) (parse_typed_map self)
  unfolding parse_typed_map
  parse_typed_map-First =
      search (endings, type_args-First, parse_map_literal_entries-Rest, fit) depth 30

  parse_untyped_map-First : First (suc n) (parse_untyped_map self)
  unfolding parse_untyped_map
  parse_untyped_map-First = search (endings, parse_map_literal_entries-Rest, fit) depth 30

  parse_variant-First : (name : Text) → First (suc n) (parse_variant name)
  unfolding parse_variant
  parse_variant-First name = search endings depth 30

  parse_struct_literal-First : (name : Text) → First (suc n) (parse_struct_literal self name)
  unfolding parse_struct_literal
  parse_struct_literal-First name = search (endings, parse_struct_literal_fields-Rest, fit) depth 30

  parse_qualified-First : (name : Text) → First (suc n) (parse_qualified self name)
  unfolding parse_qualified
  parse_qualified-First name =
      search (endings, parse_variant-First, parse_struct_literal-First) depth 30

-- The look ahead settles, and then one of the two parsers runs, on the tokens from before the look.
looks_like_struct-Settles :
    {A : Type 0} {Q : A × List Token → Type 0} (p q : Parser A) (ts : List Token)
    → Settles {E = ParseError} Q (p ts)
    → Settles {E = ParseError} Q (q ts)
    → Settles {E = ParseError} Q (looks_like_struct p q ts)
unfolding looks_like_struct ◌>>=◌
looks_like_struct-Settles p q ts hp hq =
    run_bind _ ((look_ahead (suc (weight ts))).settles ts (omega arith))
      (λ b r _. Settles-if b (λ _. hp) (λ _. hq))
  where
    look_ahead :
        (n : ℕ)
        → Rest n (
            advance
            >> at TokenKind.rbrace (pure true) (
                at TokenKind.ident
                  (advance >> at TokenKind.colon (pure true) (pure false))
                  (pure false)))
    look_ahead n = search endings depth 30

module _ {n : ℕ} {self : Parsers} (fit : Fits n self) where
  looks_like_struct-Rest :
      {A : Type 0} {p q : Parser A} → Rest n p → Rest n q → Rest n (looks_like_struct p q)
  looks_like_struct-Rest hp hq = record {
    settles = λ ts lt. looks_like_struct-Settles _ _ ts (hp.settles ts lt) (hq.settles ts lt);
  }

  parse_plain_name-Rest : (name : Text) → Rest n (parse_plain_name self name)
  unfolding parse_plain_name
  parse_plain_name-Rest name =
      search (endings, looks_like_struct-Rest, parse_struct_literal-First fit) depth 30

  -- Where the cursor goes back, the plain name is read on the tokens at the brackets.
  parse_applied_name-Rest : (name : Text) → Rest n (parse_applied_name self name)
  unfolding parse_applied_name ◌>>=◌
  parse_applied_name-Rest name = record {
    settles = λ ts lt. run_bind _ ((type_args-First fit).settles ts (omega arith)) (λ args r le.
        at-Settles
          (λ r' lt'. Settles-weaken ((call args).settles r' (omega arith)) (λ x le'. omega arith))
          (at-Settles
            (λ r' lt'.
              looks_like_struct-Settles _ _ r'
                (Settles-weaken
                  ((parse_plain_name-Rest (applied_name name args)).settles r' (omega arith))
                  (λ x le'. omega arith))
                ((parse_plain_name-Rest name).settles ts lt))
            (λ r' lt'. (parse_plain_name-Rest name).settles ts lt) TokenKind.lbrace)
          TokenKind.lparen r le);
  }
    where
      call :
          (args : List TypeRef)
          → Rest n
              (advance >> (parse_call_args self >>= λ es. pure (Expr.function_call name es args)))
      call args = search (endings, parse_call_args-Rest, fit) depth 30

  parse_name-Rest : (name : Text) → Rest n (parse_name self name)
  unfolding parse_name
  parse_name-Rest name = Rest-if (one_of name magic_consts) (pure-Rest _) (
      search
        (
          endings, parse_typed_map-First, parse_untyped_map-First, parse_qualified-First,
          parse_variant-First, parse_applied_name-Rest, parse_plain_name-Rest, fit,
        )
        depth 30)

  parse_parenthesised-First : First (suc n) (parse_parenthesised self)
  unfolding parse_parenthesised
  parse_parenthesised-First = search (endings, fit.expression) depth 30

  pub parse_operand-First : First (suc n) (parse_operand self)
  unfolding parse_operand
  parse_operand-First =
      at-First_suc (parse_new-First fit)
        (at-First_suc (>>=-First (search endings depth 30) (λ name. parse_name-Rest name))
          (at-First_suc (parse_sequence-First fit)
            (at-First_suc parse_parenthesised-First (>>=-First_look peek-Rest (λ t. fail-First _))
              _)
            _)
          _)
        _

-- The expressions of a string's interpolations are parsed on tokens that weigh less than the string.
module _ {n : ℕ} {self : Parsers} (fit : Fits n self) (setting : Setting)
    (law : AlnumLaw setting.unicode) where
  abbrev Ends : {A : Type 0} → Outcome ParseError A → Type 0
  Ends = Settles (λ _. Unit {0})

  parsed-Ends :
      (o : Outcome LexError (List Token))
      → Settles (λ ts. weight ts < n) o
      → Ends (elim (lexed o) [
        | ok ts ↦ elim ((self.expression >>= λ e. expect TokenKind.eof >> pure e) ts) [
          | ok (e, r) ↦ ok e
          | raised x ↦ raised x
          | out_of_fuel ↦ out_of_fuel
        ]
        | raised x ↦ raised x
        | out_of_fuel ↦ out_of_fuel
      ])
  unfolding lexed
  parsed-Ends (raised e) h = raises
  parsed-Ends (ok ts) (returns lt) = result_of _ (whole.settles ts lt)
    where
      whole : Rest n (self.expression >>= λ e. expect TokenKind.eof >> pure e)
      whole = search (endings, fit.expression) depth 30

      result_of :
          {P : Expr × List Token → Type 0} (o : Outcome ParseError (Expr × List Token))
          → Settles P o
          → Ends (elim o [ ok (e, r) ↦ ok e | raised x ↦ raised x | out_of_fuel ↦ out_of_fuel ])
      result_of (ok (e, r)) h = returns tt
      result_of (raised x) h = raises
      result_of out_of_fuel h = elim h [ ]
  parsed-Ends out_of_fuel h = elim h [ ]

  parse_part-Ends : (source : Text) → length source + 1 < n → Ends (parse_part setting self source)
  unfolding parse_part
  parse_part-Ends source lt =
      parsed-Ends (lex setting.unicode source)
        (Settles-weaken (lex-weight setting.unicode law source) (λ ts le. omega arith))

  parse_parts-Rest :
      (parts : List Part) → parts_weight parts < n → Rest n (parse_parts setting self parts)
  unfolding parse_parts parts_weight
  parse_parts-Rest [] lt = pure-Rest []
  parse_parts-Rest (Part.literal s ∷ parts) lt =
      >>=-Rest (parse_parts-Rest parts lt) (λ es. pure-Rest _)
  parse_parts-Rest (Part.expr source ∷ parts) lt =
      after (parse_part setting self source) (parse_part-Ends source (omega arith))
        (parse_parts-Rest parts (omega arith))
    where
      after :
          {rest : Parser (List Expr)} (o : Outcome ParseError Expr)
          → Ends o
          → Rest n rest
          → Rest n (λ ts. elim o [
            | ok e ↦ (rest >>= λ es. pure (e ∷ es)) ts
            | raised x ↦ raised x
            | out_of_fuel ↦ out_of_fuel
          ])
      after (ok e) h hr = record { settles = (>>=-Rest hr (λ es. pure-Rest (e ∷ es))).settles }
      after (raised x) h hr = record { settles = λ ts lt. raises }
      after out_of_fuel h hr = elim h [ ]

  string_value-Rest :
      (t : Token) (v : TokenValue) → value_weight v < n → Rest n (string_value setting self t v)
  unfolding string_value value_weight
  string_value-Rest t (TokenValue.text s) lt = pure-Rest _
  string_value-Rest t (TokenValue.interpolated parts) lt =
      >>=-Rest (parse_parts-Rest parts lt) (λ es. pure-Rest _)
  string_value-Rest t _ lt = fail-Rest _

  string-Settles :
      (ts : List Token)
      → weight ts < suc n
      → Settles {E = ParseError}
          (λ (x : Expr × List Token). weight x.1 < weight ts)
          ((advance >>= string_of setting self) ts)
  unfolding ◌>>=◌ advance string_of weight
  string-Settles [] lt = raises
  string-Settles (t ∷ ts) lt =
      Settles-weaken ((string_value-Rest t t.value (omega arith)).settles ts (omega arith))
        (λ x le. omega arith)

  literal_value-Rest : (t : Token) (k : TokenKind) (v : TokenValue) → Rest n (literal_value t k v)
  unfolding literal_value
  literal_value-Rest t TokenKind.integer (TokenValue.number m s) = pure-Rest _
  literal_value-Rest t TokenKind.float (TokenValue.decimal m s) = pure-Rest _
  literal_value-Rest t TokenKind.bool (TokenValue.truth b) = pure-Rest _
  literal_value-Rest t TokenKind.char (TokenValue.code_point c) = pure-Rest _
  literal_value-Rest t _ _ = fail-Rest _

  literal_of-First : (k : TokenKind) → First (suc n) (advance >>= literal_of k)
  unfolding literal_of
  literal_of-First k = >>=-First advance-First (λ t. literal_value-Rest t k t.value)

  parse_literal-First : First (suc n) (parse_literal setting self)
  unfolding parse_literal
  parse_literal-First =
      at-First_suc (record { settles = string-Settles })
        (search (endings, literal_of-First, parse_function_expr-First, parse_operand-First, fit)
          depth 30)
        _

  pub parse_primary-First : First (suc n) (parse_primary setting self)
  unfolding parse_primary
  parse_primary-First =
      search
        (
          endings, parse_if-First, parse_match-First, parse_return-First, parse_err_return-First,
          parse_block-First, parse_literal-First, fit,
        )
        depth 30
