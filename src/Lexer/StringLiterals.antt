-- ===== src/Lexer/StringLiterals.antt =====
-- compiler/lexer.py: every text can be written as a string literal, and is read back from it.
use new_cl_lang.Base.{
  ℕ, zero, suc, ◌+◌, ◌≤◌, ◌<◌, ◌≡◌, refl, ◌∙◌, false, [], ◌∷◌, ◌++◌, append_assoc, append-nil,
  length, length-append, arith, ok, ◌==◌, if◌then◌else◌,
}
use new_cl_lang.Base.Text.{Text}
use new_cl_lang.Lexer.Token.{text, string, eof}
use new_cl_lang.Python.{Unicode}
use new_cl_lang.Lexer.Escape.{decode_escape}
use new_cl_lang.Lexer.Strings.{
  StringScan, push, close_string, string_escape, open_brace, close_brace, string_step, string_from,
  scan_string,
}
use new_cl_lang.Lexer.Lex.{lex, lex_from, lex_step, lex_string}

-- How one character is written between the quotes.
abbrev pub quoted_char : ℕ → Text
quoted_char c =
    if c == b'"'
    then b'\\' ∷ b'"' ∷ []
    else if c == b'\\'
    then b'\\' ∷ b'\\' ∷ []
    else if c == b'{'
    then b'{' ∷ b'{' ∷ []
    else if c == b'}'
    then b'}' ∷ b'}' ∷ []
    else c ∷ []

abbrev pub quoted : Text → Text
quoted [] = []
quoted (c ∷ cs) = quoted_char c ++ quoted cs

-- The literal: the quoted characters between two quotes.
abbrev pub string_literal : Text → Text
string_literal s = b'"' ∷ (quoted s ++ b'"' ∷ [])

-- One round of the loop reads one written character.
string_step-quoted_char :
    (u : Unicode) (start c : ℕ) (s : StringScan) (r : Text)
    → string_step u start s (quoted_char c ++ r) ≡ ok (push s c (s.at + length (quoted_char c)) r)
unfolding string_step string_escape decode_escape open_brace close_brace
string_step-quoted_char u start c s r = ground arith

abbrev reading : ℕ → Text → Text → StringScan
reading i unread chars = record {
  at = i;
  unread = unread;
  chars = chars;
  parts = [];
  has_expr = false;
}

string_from-close :
    (u : Unicode) (start fuel i : ℕ) (ds r : Text)
    → string_from u start (suc fuel) (reading i (b'"' ∷ r) ds) ≡ ok (text ds, i + 1, r)
unfolding string_from string_step close_string
string_from-close u start fuel i ds r = refl

string_from-quoted :
    (u : Unicode) (start fuel i : ℕ) (cs ds r : Text)
    → length cs < fuel
    → string_from u start fuel (reading i (quoted cs ++ (b'"' ∷ r)) ds)
      ≡ ok (text (ds ++ cs), i + length (quoted cs) + 1, r)
unfolding string_from
string_from-quoted u start zero i cs ds r h = absurd (omega arith)
string_from-quoted u start (suc fuel) i [] ds r h =
    string_from-close u start fuel i ds r ∙ ground (arith, append-nil ds)
string_from-quoted u start (suc fuel) i (c ∷ cs) ds r h =
    rw
      (
        append_assoc (quoted_char c) (quoted cs) (b'"' ∷ r),
        string_step-quoted_char u start c
            (reading i (quoted_char c ++ (quoted cs ++ (b'"' ∷ r))) ds) (quoted cs ++ (b'"' ∷ r)),
      )
      (string_from-quoted u start fuel (i + length (quoted_char c)) cs (ds ++ c ∷ []) r
          (omega arith)
        ∙ ground (arith, append_assoc ds (c ∷ []) cs, length-append (quoted_char c) (quoted cs)))

length-quoted : (cs : Text) → length cs ≤ length (quoted cs)
length-quoted [] = omega arith
length-quoted (c ∷ cs) =
    omega (arith, length-quoted cs, length-append (quoted_char c) (quoted cs), quoted_char_pos)
  where
    quoted_char_pos : 1 ≤ length (quoted_char c)
    quoted_char_pos = ground arith

-- Whatever follows, a written text is read back whole, and the cursor stands behind its last quote.
pub scan_string-quoted :
    (u : Unicode) (i : ℕ) (cs r : Text)
    → scan_string u i (quoted cs ++ (b'"' ∷ r)) ≡ ok (text cs, i + 1 + length (quoted cs) + 1, r)
unfolding scan_string
scan_string-quoted u i cs r =
    string_from-quoted u i (suc (length (quoted cs ++ (b'"' ∷ r)))) (i + 1) cs [] r
      (omega (arith, length-quoted cs, length-append (quoted cs) (b'"' ∷ r)))

lex_from-string_literal :
    (u : Unicode) (fuel : ℕ) (s : Text)
    → u.is_digit b'"' ≡ false
    → lex_from u (suc (suc fuel)) 0 (string_literal s)
      ≡ ok (
          record { kind = string; value = text s; pos = length (string_literal s) }
          ∷ record { kind = eof; value = text []; pos = length (string_literal s) }
          ∷ [])
unfolding lex_from lex_step lex_string
lex_from-string_literal u fuel s h =
    rw (h, scan_string-quoted u 0 s []) (ground (arith, length-append (quoted s) (b'"' ∷ [])))

-- For every text there is a source, the text with its quotes, backslashes and braces escaped between
-- two quotes, that lexes to one STRING token whose value is the text, and EOF. The position of
-- the STRING token is the end of the literal, as is the one of EOF. It is assumed that the quote is
-- no digit in the Unicode tables.
pub lex-string_literal :
    (u : Unicode) (s : Text)
    → u.is_digit b'"' ≡ false
    → lex u (string_literal s)
      ≡ ok (
          record { kind = string; value = text s; pos = length (string_literal s) }
          ∷ record { kind = eof; value = text []; pos = length (string_literal s) }
          ∷ [])
unfolding lex
lex-string_literal u s h = lex_from-string_literal u _ s h
