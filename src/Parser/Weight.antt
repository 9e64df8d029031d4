-- ===== src/Parser/Weight.antt =====
-- compiler/parser.py: the measure by which the parser ends.
use new_cl_lang.Base.{ℕ, suc, ◌+◌, List, [], ◌∷◌, length}
use new_cl_lang.Lexer.Token.{Token, TokenValue, interpolated, Part}

-- The number of tokens, with the characters of interpolations: those are read as programs of their own.
unfoldable pub parts_weight : List Part → ℕ
parts_weight [] = 0
parts_weight (Part.literal s ∷ ps) = parts_weight ps
parts_weight (Part.expr s ∷ ps) = length s + 1 + parts_weight ps

unfoldable pub value_weight : TokenValue → ℕ
value_weight (interpolated ps) = parts_weight ps
value_weight _ = 0

unfoldable pub weight : List Token → ℕ
weight [] = 0
weight (t ∷ ts) = suc (value_weight t.value + weight ts)
