-- ===== src/Lexer/Symbols.antt =====
-- compiler/lexer.py: operators and delimiters. The source compares the next three, two and one
-- characters with each symbol in turn; here the symbols stand in tables in the same order.
use new_cl_lang.Base.{List, [], ◌∷◌, Option, none, some, ◌++◌}
use new_cl_lang.Base.Text.{Text, codes, after_prefix}
use new_cl_lang.Lexer.Token.{
  TokenKind, plus, minus, star, slash, percent, amp, pipe, caret, tilde, shl, shr, eq, pluseq,
  minuseq, stareq, slasheq, percenteq, ampeq, pipeeq, careteq, shleq, shreq, plusplus, minusminus,
  gt, lt, ge, le, eqeq, ne, and, or, not_op, question, questionquestion, notnot, lparen, rparen,
  lbrace, rbrace, semi, comma, colon, coloncolon, dotdot, arrow, lbracket, rbracket, dot,
}

abbrev pub SymbolTable : Type 0
SymbolTable = List (Text × TokenKind)

abbrev pub three_char_symbols : SymbolTable
three_char_symbols = (codes "<<=", shleq) ∷ (codes ">>=", shreq) ∷ []

abbrev pub two_char_symbols : SymbolTable
two_char_symbols =
    (codes "+=", pluseq)
    ∷ (codes "-=", minuseq)
    ∷ (codes "*=", stareq)
    ∷ (codes "/=", slasheq)
    ∷ (codes "%=", percenteq)
    ∷ (codes "&=", ampeq)
    ∷ (codes "|=", pipeeq)
    ∷ (codes "^=", careteq)
    ∷ (codes "++", plusplus)
    ∷ (codes "--", minusminus)
    ∷ (codes "<<", shl)
    ∷ (codes ">>", shr)
    ∷ (codes ">=", ge)
    ∷ (codes "<=", le)
    ∷ (codes "==", eqeq)
    ∷ (codes "!=", ne)
    ∷ (codes "!!", notnot)
    ∷ (codes "&&", and)
    ∷ (codes "||", or)
    ∷ (codes "::", coloncolon)
    ∷ (codes "->", arrow)
    ∷ (codes "??", questionquestion)
    ∷ []

-- The single characters; at a dot the source first looks for a second one.
abbrev pub one_char_symbols : SymbolTable
one_char_symbols =
    (codes "+", plus)
    ∷ (codes "-", minus)
    ∷ (codes "*", star)
    ∷ (codes "/", slash)
    ∷ (codes "%", percent)
    ∷ (codes "&", amp)
    ∷ (codes "|", pipe)
    ∷ (codes "^", caret)
    ∷ (codes "~", tilde)
    ∷ (codes "=", eq)
    ∷ (codes ">", gt)
    ∷ (codes "<", lt)
    ∷ (codes "(", lparen)
    ∷ (codes ")", rparen)
    ∷ (codes "{", lbrace)
    ∷ (codes "}", rbrace)
    ∷ (codes ";", semi)
    ∷ (codes ",", comma)
    ∷ (codes ":", colon)
    ∷ (codes "..", dotdot)
    ∷ (codes ".", dot)
    ∷ (codes "[", lbracket)
    ∷ (codes "]", rbracket)
    ∷ (codes "!", not_op)
    ∷ (codes "?", question)
    ∷ []

abbrev pub symbols : SymbolTable
symbols = three_char_symbols ++ (two_char_symbols ++ one_char_symbols)

-- The first symbol of the table with which the text begins, and the text after it.
unfoldable pub match_symbol : SymbolTable → Text → Option (Text × TokenKind × Text)
match_symbol [] t = none
match_symbol ((w, k) ∷ table) t =
    let later = match_symbol table t in
    elim (after_prefix w t) [ some r ↦ some (w, k, r) | none ↦ later ]
