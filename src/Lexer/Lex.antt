-- ===== src/Lexer/Lex.antt =====
-- compiler/lexer.py: `lex`, whose tokens are consumed as one list.
use new_cl_lang.Base.{
  ℕ, zero, suc, ◌+◌, Bool, ◌||◌, List, [], ◌∷◌, none, some, ◌==◌, not, if◌then◌else◌, length,
  Outcome, ok, raised, out_of_fuel, ◌>>=◌,
}
use new_cl_lang.Base.Text.{Text, after_prefix}
use new_cl_lang.Lexer.Token.{
  Token, string, char, eof, text, code_point, LexError, unexpected_character,
}
use new_cl_lang.Python.{Unicode}
use new_cl_lang.Lexer.Chars.{span}
use new_cl_lang.Lexer.Strings.{scan_string, scan_char}
use new_cl_lang.Lexer.Words.{lex_number, lex_word}
use new_cl_lang.Lexer.Symbols.{symbols, match_symbol}

-- One round of the loop passes over characters, or yields a token.
pub data LexStep : Type 0 where
  passed : ℕ → Text → LexStep
  yields : Token → ℕ → Text → LexStep

abbrev pub is_blank : ℕ → Bool
is_blank c = c == b' ' || c == b'\t' || c == b'\n' || c == b'\r'

-- The token of a string literal has the position behind it, not the one of its quote.
unfoldable pub lex_string : Unicode → ℕ → Text → Outcome LexError LexStep
lex_string u i t = scan_string u i t >>= λ (v, j, r).
    ok (yields (record { kind = string; value = v; pos = j }) j r)

-- So has the token of a character literal.
unfoldable pub lex_char : Unicode → ℕ → Text → Outcome LexError LexStep
lex_char u i t = scan_char u i t >>= λ (v, j, r).
    ok (yields (record { kind = char; value = code_point v; pos = j }) j r)

unfoldable pub lex_symbol : ℕ → ℕ → Text → Outcome LexError LexStep
lex_symbol i c t = elim (match_symbol symbols (c ∷ t)) [
  | some (w, k, r) ↦ ok (yields (record { kind = k; value = text w; pos = i }) (i + length w) r)
  | none ↦ raised (unexpected_character c i)
]

-- One round at position `i`, where the text goes on with `c` and `t`.
unfoldable pub lex_step : Unicode → ℕ → ℕ → Text → Outcome LexError LexStep
lex_step u i c t =
    if is_blank c
    then ok (passed (i + 1) t)
    else if c == b'#'
    then (let (comment, r) = span (λ d. not (d == b'\n')) (c ∷ t) in
        ok (passed (i + length comment) r))
    else if u.is_digit c
    then (lex_number u i (c ∷ t) >>= λ (token, j, r). ok (yields token j r))
    else if c == b'"'
    then lex_string u i t
    else if c == b'\''
    then lex_char u i t
    else if u.is_alpha c || c == b'_'
    then (let (token, j, r) = lex_word u i (c ∷ t) in ok (yields token j r))
    else lex_symbol i c t

-- The loop, on fuel: each round takes at least one character.
unfoldable pub lex_from : Unicode → ℕ → ℕ → Text → Outcome LexError (List Token)
lex_from u zero i t = out_of_fuel
lex_from u (suc fuel) i [] = ok (record { kind = eof; value = text []; pos = i } ∷ [])
lex_from u (suc fuel) i (c ∷ t) = lex_step u i c t >>= λ step. elim step [
  | passed j r ↦ lex_from u fuel j r
  | yields token j r ↦ lex_from u fuel j r >>= λ tokens. ok (token ∷ tokens)
]

-- `list(lex(source))`
unfoldable pub lex : Unicode → Text → Outcome LexError (List Token)
unfolding lex_from lex_step lex_string lex_char lex_symbol match_symbol after_prefix span lex_number
    lex_word scan_string scan_char
lex u source = lex_from u (suc (length source)) 0 source
