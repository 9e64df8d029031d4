-- ===== src/Lexer/Token.antt =====
-- compiler/lexer.py: `TokenKind`, `Token`, `KEYWORDS`, the suffix sets, and the errors raised.
use new_cl_lang.Base.{ℕ, Bool, List, [], ◌∷◌, Option, if◌then◌else◌}
use new_cl_lang.Base.Text.{Text, codes, text_eq}

pub data TokenKind : Type 0 where
  integer float string char bool ident : TokenKind
  let_kw if_kw else_kw type_kw fun_kw ret_kw err_kw try_kw struct_kw iface_kw : TokenKind
  enum_kw match_kw for_kw in_kw break_kw new_kw defer_kw nil_kw import_kw : TokenKind
  extern_kw spawn_kw : TokenKind
  plus minus star slash percent amp pipe caret tilde shl shr : TokenKind
  eq pluseq minuseq stareq slasheq percenteq ampeq pipeeq careteq shleq shreq : TokenKind
  plusplus minusminus gt lt ge le eqeq ne and or not_op : TokenKind
  question questionquestion notnot : TokenKind
  lparen rparen lbrace rbrace semi comma colon coloncolon dotdot arrow : TokenKind
  lbracket rbracket dot eof : TokenKind

-- A part of an interpolated string: `("literal", text)` or `("expr", source)`.
pub data Part : Type 0 where
  literal expr : Text → Part

-- `Token.value`: each kind of token has one of these shapes.
pub data TokenValue : Type 0 where
  number : ℕ → Option Text → TokenValue
  decimal : Text → Option Text → TokenValue
  text : Text → TokenValue
  interpolated : List Part → TokenValue
  code_point : ℕ → TokenValue
  truth : Bool → TokenValue

pub record Token : Type 0 where
  pub kind : TokenKind
  pub value : TokenValue
  pub pos : ℕ

-- The exceptions: one constructor for each `SyntaxError` message, with the position that it names.
-- `value_error` is the ValueError of Python's `int` and `chr`, where the source does not catch it.
pub data LexError : Type 0 where
  unterminated_escape unterminated_unicode invalid_unicode : ℕ → LexError
  invalid_code_point : ℕ → ℕ → LexError
  empty_interpolation unbalanced_interpolation unterminated_interpolation : ℕ → LexError
  unescaped_brace unterminated_string : ℕ → LexError
  unterminated_char empty_char char_not_single : ℕ → LexError
  invalid_float invalid_float_suffix invalid_integer_suffix : ℕ → LexError
  unexpected_character : ℕ → ℕ → LexError
  value_error : LexError

-- `KEYWORDS`
abbrev pub keywords : List (Text × TokenKind)
keywords =
    (codes "let", let_kw)
    ∷ (codes "if", if_kw)
    ∷ (codes "else", else_kw)
    ∷ (codes "fun", fun_kw)
    ∷ (codes "ret", ret_kw)
    ∷ (codes "err", err_kw)
    ∷ (codes "try", try_kw)
    ∷ (codes "struct", struct_kw)
    ∷ (codes "iface", iface_kw)
    ∷ (codes "enum", enum_kw)
    ∷ (codes "match", match_kw)
    ∷ (codes "for", for_kw)
    ∷ (codes "in", in_kw)
    ∷ (codes "break", break_kw)
    ∷ (codes "new", new_kw)
    ∷ (codes "defer", defer_kw)
    ∷ (codes "nil", nil_kw)
    ∷ (codes "import", import_kw)
    ∷ (codes "extern", extern_kw)
    ∷ (codes "spawn", spawn_kw)
    ∷ (codes "type", type_kw)
    ∷ (codes "true", bool)
    ∷ (codes "false", bool)
    ∷ []

-- `INTEGER_SUFFIXES`
abbrev pub integer_suffixes : List Text
integer_suffixes =
    codes "i8"
    ∷ codes "i16"
    ∷ codes "i32"
    ∷ codes "i64"
    ∷ codes "u8"
    ∷ codes "u16"
    ∷ codes "u32"
    ∷ codes "u64"
    ∷ []

-- `FLOAT_SUFFIXES`
abbrev pub float_suffixes : List Text
float_suffixes = codes "f32" ∷ codes "f64" ∷ []

-- `table.get(word, default)`
unfoldable pub kind_of : List (Text × TokenKind) → Text → TokenKind → TokenKind
unfolding text_eq
kind_of [] word default = default
kind_of ((w, k) ∷ table) word default = if text_eq word w then k else kind_of table word default
