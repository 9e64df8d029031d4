-- ===== src/Lexer/Escape.antt =====
-- compiler/lexer.py: `_decode_escape`. A cursor of the source, `source[i]`, is here the position `i`
-- with the text from there on, so `i + 1 < n` is a test that this text has a second character.
use new_cl_lang.Base.{
  ℕ, ◌+◌, Bool, ◌&&◌, ◌||◌, [], ◌∷◌, Option, none, some, ltb, leb, ◌==◌, if◌then◌else◌, length,
  Outcome, ok, raised, ◌>>=◌,
}
use new_cl_lang.Base.Text.{Text}
use new_cl_lang.Lexer.Token.{
  LexError, unterminated_escape, unterminated_unicode, invalid_unicode, invalid_code_point,
  value_error,
}
use new_cl_lang.Python.{Unicode, pos, negsuc, int_base16}

-- The text before the first `}` and the text after it.
unfoldable pub until_brace : Text → Option (Text × Text)
until_brace [] = none
until_brace (c ∷ t) =
    let rest = until_brace t in
    if c == b'}' then some ([], t) else elim rest [ none ↦ none | some (ds, r) ↦ some (c ∷ ds, r) ]

-- The code points that a `char` may hold: not above U+10FFFF, and no surrogate.
abbrev pub is_scalar_value : ℕ → Bool
is_scalar_value cp = leb cp 0x10FFFF && (ltb cp 0xD800 || ltb 0xDFFF cp)

-- What stands between the braces of `\u{...}`. `chr` raises ValueError for a negative number, which
-- the range test lets through.
unfoldable pub code_point_of : Unicode → ℕ → Text → Outcome LexError ℕ
code_point_of u i [] = raised (invalid_unicode i)
code_point_of u i (d ∷ ds) = elim (int_base16 u (d ∷ ds)) [
  | none ↦ raised (invalid_unicode i)
  | some (pos cp) ↦ if is_scalar_value cp then ok cp else raised (invalid_code_point cp i)
  | some (negsuc n) ↦ raised value_error
]

-- After `\u`: a `{` starts a code point, and anything else makes `\u` the letter u.
unfoldable pub unicode_escape : Unicode → ℕ → ℕ → Text → Outcome LexError (Text × ℕ × Text)
unfolding until_brace code_point_of
unicode_escape u i ec [] = ok (ec ∷ [], i + 2, [])
unicode_escape u i ec (c ∷ t) =
    if c == b'{'
    then elim (until_brace t) [
      | none ↦ raised (unterminated_unicode i)
      | some (ds, r) ↦ code_point_of u i ds >>= λ cp. ok (cp ∷ [], i + 3 + length ds + 1, r)
    ]
    else ok (ec ∷ [], i + 2, c ∷ t)

-- `_decode_escape(source, i, quote)`, on the text after the backslash at `i`: the decoded text, the
-- position after the escape, and the text from there on.
unfoldable pub decode_escape : Unicode → ℕ → ℕ → Text → Outcome LexError (Text × ℕ × Text)
unfolding unicode_escape
decode_escape u i quote [] = raised (unterminated_escape i)
decode_escape u i quote (ec ∷ t) =
    if ec == b'n'
    then ok (b'\n' ∷ [], i + 2, t)
    else if ec == b't'
    then ok (b'\t' ∷ [], i + 2, t)
    else if ec == b'r'
    then ok (b'\r' ∷ [], i + 2, t)
    else if ec == b'\\'
    then ok (b'\\' ∷ [], i + 2, t)
    else if ec == quote
    then ok (quote ∷ [], i + 2, t)
    else if ec == b'"'
    then ok (b'"' ∷ [], i + 2, t)
    else if ec == b'\''
    then ok (b'\'' ∷ [], i + 2, t)
    else if ec == b'u'
    then unicode_escape u i ec t
    else ok (ec ∷ [], i + 2, t)
