-- ===== src/Lexer/Chars.antt =====
-- compiler/lexer.py: the character loops of `lex`.
use new_cl_lang.Base.{ℕ, Bool, ◌||◌, [], ◌∷◌, ◌==◌, if◌then◌else◌}
use new_cl_lang.Base.Text.{Text}
use new_cl_lang.Python.{Unicode}

-- Characters up to the first that fails the test, and what follows: `while i < n and test: i += 1`.
unfoldable pub span : (ℕ → Bool) → Text → Text × Text
span p [] = ([], [])
span p (c ∷ t) = let (ds, r) = span p t in if p c then (c ∷ ds, r) else ([], c ∷ t)

-- `source[i].isalnum() or source[i] == "_"`
abbrev pub is_word_char : Unicode → ℕ → Bool
is_word_char u c = u.is_alnum c || c == b'_'
