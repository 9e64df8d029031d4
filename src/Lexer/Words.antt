-- ===== src/Lexer/Words.antt =====
-- compiler/lexer.py: the number and the word branches of `lex`.
use new_cl_lang.Base.{
  ℕ, ◌+◌, Bool, false, not, ◌&&◌, List, [], ◌∷◌, ◌++◌, Option, none, some, ◌==◌, if◌then◌else◌,
  length, Outcome, ok, raised,
}
use new_cl_lang.Base.Text.{Text, codes, text_eq, one_of}
use new_cl_lang.Lexer.Token.{
  TokenKind, Token, TokenValue, number, decimal, text, truth, integer, float, bool, ident, LexError,
  invalid_float, invalid_float_suffix, invalid_integer_suffix, value_error, keywords,
  integer_suffixes, float_suffixes, kind_of,
}
use new_cl_lang.Python.{Unicode, int_base10}
use new_cl_lang.Lexer.Chars.{span, is_word_char}

-- The token read, and the cursor behind it.
abbrev pub Lexed : Type 0
Lexed = Token × ℕ × Text

-- `source[suffix_start:i] or None`
abbrev pub or_none : Text → Option Text
or_none [] = none
or_none (c ∷ cs) = some (c ∷ cs)

-- `suffix is not None and suffix not in suffixes`
abbrev pub bad_suffix : Text → List Text → Bool
bad_suffix [] suffixes = false
bad_suffix (c ∷ cs) suffixes = not (one_of (c ∷ cs) suffixes)

-- A dot that begins a fraction: one with no second dot after it. The text is what follows it.
abbrev pub fraction : Text → Option Text
fraction [] = none
fraction (c ∷ []) = if c == b'.' then some [] else none
fraction (c ∷ d ∷ t) = if c == b'.' && not (d == b'.') then some (d ∷ t) else none

-- The suffix and the token of an integer literal with the digits `ds`, from its position.
unfoldable pub finish_integer : Unicode → ℕ → Text → Text → Outcome LexError Lexed
unfolding one_of span int_base10
finish_integer u start ds r =
    let (suffix, rest) = span (is_word_char u) r in
    if bad_suffix suffix integer_suffixes
    then raised (invalid_integer_suffix (start + length ds))
    else elim (int_base10 u ds) [
      | none ↦ raised value_error
      | some n ↦ ok (
        record { kind = integer; value = number n (or_none suffix); pos = start },
        start + length ds + length suffix,
        rest,
      )
    ]

-- The same for a float literal, whose text before the suffix is `literal`.
unfoldable pub finish_float : Unicode → ℕ → Text → Text → Outcome LexError Lexed
unfolding one_of span
finish_float u start literal r =
    let (suffix, rest) = span (is_word_char u) r in
    if bad_suffix suffix float_suffixes
    then raised (invalid_float_suffix (start + length literal))
    else ok (
      record { kind = float; value = decimal literal (or_none suffix); pos = start },
      start + length literal + length suffix,
      rest,
    )

-- After `ds` and a dot: a digit must follow.
unfoldable pub fraction_digits : Unicode → ℕ → Text → Text → Outcome LexError Lexed
unfolding span finish_float
fraction_digits u start ds t =
    let (fs, r) = span u.is_digit t in
    elim fs [
      | [] ↦ raised (invalid_float start)
      | f ∷ fs' ↦ finish_float u start (ds ++ b'.' ∷ f ∷ fs') r
    ]

-- A literal that begins with a digit.
unfoldable pub lex_number : Unicode → ℕ → Text → Outcome LexError Lexed
unfolding span finish_integer fraction_digits
lex_number u start t =
    let (ds, r) = span u.is_digit t in
    elim (fraction r) [
      | some after_dot ↦ fraction_digits u start ds after_dot
      | none ↦ finish_integer u start ds r
    ]

-- `(word == "true") if kind == TokenKind.BOOL else word`
abbrev pub word_value : TokenKind → Text → TokenValue
word_value bool word = truth (text_eq word (codes "true"))
word_value k word = text word

-- A keyword, a truth value or an identifier.
unfoldable pub lex_word : Unicode → ℕ → Text → Lexed
unfolding span kind_of
lex_word u start t =
    let (word, rest) = span (is_word_char u) t in
    let k = kind_of keywords word ident in
    (record { kind = k; value = word_value k word; pos = start }, start + length word, rest)
