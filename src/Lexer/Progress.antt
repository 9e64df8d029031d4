-- ===== src/Lexer/Progress.antt =====
-- The cursor of the lexer: each piece of compiler/lexer.py that reads at a position returns the
-- position behind what it read, and the text from there on.
mod Cursor
mod Escapes
mod Strings
mod Words
mod Tokens
pub use Cursor.*
pub use Escapes.*
pub use Strings.*
pub use Words.*
pub use Tokens.*
