-- ===== src/Lexer.antt =====
-- compiler/lexer.py: source text to tokens.
pub mod Token
pub mod Chars
pub mod Escape
pub mod Strings
pub mod Words
pub mod Symbols
pub mod Lex
pub mod Progress
pub mod Kinded
pub mod StringLiterals
pub mod LongestMatch
pub mod CodePoints
