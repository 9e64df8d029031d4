-- ===== src/Parser/State.antt =====
-- compiler/parser.py: the cursor of `Parser` and the methods that move it. The state is the list of the tokens
-- from the cursor on; where the source saves `pos` and sets it back, the saved list is used again.
use new_cl_lang.Base.{
  ℕ, zero, suc, Bool, true, false, List, [], ◌∷◌, ◌++◌, ◌==◌, if◌then◌else◌, Outcome, ok, raised,
  out_of_fuel,
}
use new_cl_lang.Base.Text.{Text}
use new_cl_lang.Lexer.Token.{TokenKind, TokenValue, text, Token, LexError}

-- The ParseErrors, by message. The others are no ParseErrors: `no_token` is the IndexError of a cursor behind the
-- last token, `lex_error` the SyntaxError of the lexer in an interpolated string, and `malformed` stands for what
-- becomes of a token whose value is not of its kind's shape.
pub data ParseError : Type 0 where
  expected : TokenKind → Token → ParseError
  unexpected not_a_function : Token → ParseError
  import_nested extern_nested iface_nested alias_nested : ParseError
  deep_import selective_import : ParseError
  unterminated_extern extern_not_function extern_method extern_generic extern_body : ParseError
  suffixed_length : ParseError
  unknown_constraint : Text → ParseError
  parameter_type_required no_default_here no_varargs : ParseError
  field_name embedded_field : ParseError
  unterminated_iface iface_receiver iface_body : ParseError
  only_names_called empty_map : ParseError
  no_token : ParseError
  lex_error : LexError → ParseError
  malformed : Token → ParseError

-- `except ParseError`
abbrev pub is_caught : ParseError → Bool
is_caught no_token = false
is_caught (lex_error e) = false
is_caught (malformed t) = false
is_caught _ = true

-- The value of the member in the enum, `auto()`.
unfoldable pub kind_value : TokenKind → ℕ
kind_value TokenKind.integer = 1
kind_value TokenKind.float = 2
kind_value TokenKind.string = 3
kind_value TokenKind.char = 4
kind_value TokenKind.bool = 5
kind_value TokenKind.ident = 6
kind_value TokenKind.let_kw = 7
kind_value TokenKind.if_kw = 8
kind_value TokenKind.else_kw = 9
kind_value TokenKind.type_kw = 10
kind_value TokenKind.fun_kw = 11
kind_value TokenKind.ret_kw = 12
kind_value TokenKind.err_kw = 13
kind_value TokenKind.try_kw = 14
kind_value TokenKind.struct_kw = 15
kind_value TokenKind.iface_kw = 16
kind_value TokenKind.enum_kw = 17
kind_value TokenKind.match_kw = 18
kind_value TokenKind.for_kw = 19
kind_value TokenKind.in_kw = 20
kind_value TokenKind.break_kw = 21
kind_value TokenKind.new_kw = 22
kind_value TokenKind.defer_kw = 23
kind_value TokenKind.nil_kw = 24
kind_value TokenKind.import_kw = 25
kind_value TokenKind.extern_kw = 26
kind_value TokenKind.spawn_kw = 27
kind_value TokenKind.plus = 28
kind_value TokenKind.minus = 29
kind_value TokenKind.star = 30
kind_value TokenKind.slash = 31
kind_value TokenKind.percent = 32
kind_value TokenKind.amp = 33
kind_value TokenKind.pipe = 34
kind_value TokenKind.caret = 35
kind_value TokenKind.tilde = 36
kind_value TokenKind.shl = 37
kind_value TokenKind.shr = 38
kind_value TokenKind.eq = 39
kind_value TokenKind.pluseq = 40
kind_value TokenKind.minuseq = 41
kind_value TokenKind.stareq = 42
kind_value TokenKind.slasheq = 43
kind_value TokenKind.percenteq = 44
kind_value TokenKind.ampeq = 45
kind_value TokenKind.pipeeq = 46
kind_value TokenKind.careteq = 47
kind_value TokenKind.shleq = 48
kind_value TokenKind.shreq = 49
kind_value TokenKind.plusplus = 50
kind_value TokenKind.minusminus = 51
kind_value TokenKind.gt = 52
kind_value TokenKind.lt = 53
kind_value TokenKind.ge = 54
kind_value TokenKind.le = 55
kind_value TokenKind.eqeq = 56
kind_value TokenKind.ne = 57
kind_value TokenKind.and = 58
kind_value TokenKind.or = 59
kind_value TokenKind.not_op = 60
kind_value TokenKind.question = 61
kind_value TokenKind.questionquestion = 62
kind_value TokenKind.notnot = 63
kind_value TokenKind.lparen = 64
kind_value TokenKind.rparen = 65
kind_value TokenKind.lbrace = 66
kind_value TokenKind.rbrace = 67
kind_value TokenKind.semi = 68
kind_value TokenKind.comma = 69
kind_value TokenKind.colon = 70
kind_value TokenKind.coloncolon = 71
kind_value TokenKind.dotdot = 72
kind_value TokenKind.arrow = 73
kind_value TokenKind.lbracket = 74
kind_value TokenKind.rbracket = 75
kind_value TokenKind.dot = 76
kind_value TokenKind.eof = 77

unfoldable pub same_kind : TokenKind → TokenKind → Bool
unfolding kind_value
same_kind k l = kind_value k == kind_value l

-- `kind in kinds`
unfoldable pub kind_in : TokenKind → List TokenKind → Bool
kind_in k [] = false
kind_in k (l ∷ ls) = let rest = kind_in k ls in if same_kind k l then true else rest

abbrev pub Parser : Type 0 → Type 0
Parser A = List Token → Outcome ParseError (A × List Token)

unfoldable pub pure : {A : Type 0} → A → Parser A
pure a ts = ok (a, ts)

unfoldable pub fail : {A : Type 0} → ParseError → Parser A
fail e ts = raised e

module _ {A B : Type 0} where
  infixl 1 ◌>>=◌ ◌>>◌
  unfoldable pub ◌>>=◌ : Parser A → (A → Parser B) → Parser B
  (p >>= f) ts = elim (p ts) [ ok (a, r) ↦ f a r | raised e ↦ raised e | out_of_fuel ↦ out_of_fuel ]

  unfoldable pub ◌>>◌ : Parser A → Parser B → Parser B
  (p >> q) ts = elim (p ts) [ ok (a, r) ↦ q r | raised e ↦ raised e | out_of_fuel ↦ out_of_fuel ]

-- `self.peek()`
unfoldable pub peek : Parser Token
peek [] = raised no_token
peek (t ∷ ts) = ok (t, t ∷ ts)

unfoldable pub advance : Parser Token
advance [] = raised no_token
advance (t ∷ ts) = ok (t, ts)

unfoldable pub expect : TokenKind → Parser Token
expect k [] = raised no_token
expect k (t ∷ ts) = if same_kind t.kind k then ok (t, ts) else raised (expected k t)

-- `self.match(kind)`
unfoldable pub accept : TokenKind → Parser Bool
accept k [] = raised no_token
accept k (t ∷ ts) = if same_kind t.kind k then ok (true, ts) else ok (false, t ∷ ts)

-- `if self.peek().kind in kinds:` and its else
unfoldable pub at_any : {A : Type 0} → List TokenKind → Parser A → Parser A → Parser A
at_any ks p q [] = raised no_token
at_any ks p q (t ∷ ts) = if kind_in t.kind ks then p (t ∷ ts) else q (t ∷ ts)

-- `if self.peek().kind == kind:` and its else
unfoldable pub at : {A : Type 0} → TokenKind → Parser A → Parser A → Parser A
at k p q [] = raised no_token
at k p q (t ∷ ts) = if same_kind t.kind k then p (t ∷ ts) else q (t ∷ ts)

-- A test that looks ahead without moving the cursor.
unfoldable pub look : {A : Type 0} → (List Token → Bool) → Parser A → Parser A → Parser A
look test p q ts = if test ts then p ts else q ts

-- `self.tokens[self.pos + n].kind in kinds`, false where there is no such token
unfoldable pub kind_at : ℕ → List TokenKind → List Token → Bool
kind_at n ks [] = false
kind_at zero ks (t ∷ ts) = kind_in t.kind ks
kind_at (suc n) ks (t ∷ ts) = kind_at n ks ts

-- A token's text: a name, an operator, the source of a float.
unfoldable pub text_value : Token → TokenValue → Parser Text
text_value t (text s) = pure s
text_value t _ = fail (malformed t)

unfoldable pub text_of : Token → Parser Text
text_of t = text_value t t.value

abbrev pub expect_text : TokenKind → Parser Text
expect_text k = expect k >>= text_of

abbrev pub expect_name : Parser Text
expect_name = expect_text TokenKind.ident

-- `self.advance().value`
abbrev pub operator : Parser Text
operator = advance >>= text_of

-- The name behind a dot, put behind `name`: `f"{name}.{...}"`.
unfoldable pub dotted : Text → Parser Text
dotted name = expect_name >>= λ member. pure (name ++ (b'.' ∷ member))

-- `while self.peek().kind not in ends: items.append(item())`, on fuel
unfoldable pub many : {A : Type 0} → ℕ → List TokenKind → Parser A → Parser (List A)
many zero ends item ts = out_of_fuel
many (suc fuel) ends item ts =
    at_any ends (pure []) (item >>= λ x. many fuel ends item >>= λ xs. pure (x ∷ xs)) ts

-- The loop of `_parse_comma_list`, on fuel: a comma may stand before the end.
unfoldable pub comma_items : {A : Type 0} → ℕ → TokenKind → Parser A → Parser (List A)
comma_items zero end item ts = out_of_fuel
comma_items (suc fuel) end item ts =
    (item >>= λ x.
    at TokenKind.comma
      (advance >> at end (pure (x ∷ [])) (comma_items fuel end item >>= λ xs. pure (x ∷ xs)))
      (pure (x ∷ [])))
      ts

unfoldable pub comma_list : {A : Type 0} → ℕ → TokenKind → Parser A → Parser (List A)
comma_list fuel end item = at end (pure []) (comma_items fuel end item)
