-- ===== src/Parser/LeftAssociative.antt =====
-- compiler/parser.py: the loops over binary operators join their operands from the left.
use new_cl_lang.Base.{ℕ, zero, suc, ◌<◌, ◌≡◌, true, false, List, [], ◌∷◌, length, arith, ok}
use new_cl_lang.Base.Text.{Text}
use new_cl_lang.Lexer.Token.{TokenKind, TokenValue, Token}
use new_cl_lang.Ast.{Expr}
use new_cl_lang.Parser.State.{Parser, kind_in, at_any}
use new_cl_lang.Parser.Postfix.{binary_loop, binary_level}
use new_cl_lang.Parser.Grammar.Runs.{Run, bind-Run, pure-Run, advance-Run, text_of-Run}

-- No operator of the level follows.
abbrev pub Ends : List TokenKind → List Token → Type 0
Ends kinds [] = ⊥
Ends kinds (t ∷ ts) = kind_in t.kind kinds ≡ false

-- Operators with their right operands, read one after the other until no operator of the level follows.
pub data Rounds (kinds : List TokenKind) (operand : Parser Expr)
    : List Token → List (Text × Expr) → List Token → Type 0 where
  done : {r : List Token} → Ends kinds r → Rounds kinds operand r [] r
  round :
      {o : Token} {op : Text} {e : Expr} {ts us r : List Token} {rounds : List (Text × Expr)}
      → kind_in o.kind kinds ≡ true
      → o.value ≡ TokenValue.text op
      → operand ts ≡ ok (e, us)
      → Rounds kinds operand us rounds r
      → Rounds kinds operand (o ∷ ts) ((op, e) ∷ rounds) r

-- `((first op1 e1) op2 e2) ...`
abbrev pub joined : Expr → List (Text × Expr) → Expr
joined first [] = first
joined first ((op, e) ∷ rounds) = joined (Expr.binary_op first op e) rounds

module _ {A : Type 0} (kinds : List TokenKind) (p q : Parser A) where
  at_any-Run :
      (t : Token) (ts : List Token) {a : A} {r : List Token}
      → kind_in t.kind kinds ≡ true
      → Run p (t ∷ ts) a r
      → Run (at_any kinds p q) (t ∷ ts) a r
  unfolding at_any
  at_any-Run t ts h k = rw h k

  at_any-Run_else :
      (ts : List Token) {a : A} {r : List Token}
      → Ends kinds ts
      → Run q ts a r
      → Run (at_any kinds p q) ts a r
  unfolding at_any
  at_any-Run_else (t ∷ ts) h k = rw h k
  at_any-Run_else [] h k = absurd h

module _ (kinds : List TokenKind) (operand : Parser Expr) where
  binary_loop-joined :
      {us r : List Token} {rounds : List (Text × Expr)} (fuel : ℕ) (left : Expr)
      → Rounds kinds operand us rounds r
      → length rounds < fuel
      → binary_loop fuel kinds operand left us ≡ ok (joined left rounds, r)
  unfolding binary_loop
  binary_loop-joined zero left h lt = absurd (omega arith)
  binary_loop-joined (suc fuel) left (done h) lt = at_any-Run_else _ _ _ _ h (pure-Run _ _)
  binary_loop-joined (suc fuel) left (round is_op value reads h) lt = at_any-Run _ _ _ _ _ is_op (
      bind-Run _ _ _ (bind-Run _ _ _ (advance-Run _ _) (text_of-Run _ _ _ value))
        (bind-Run _ _ _ reads (binary_loop-joined fuel _ h (omega arith))))

  -- Where the tokens are an operand and then operators of the level, each with its right operand, until no operator of
  -- the level follows, the level returns the operands joined from the left and leaves the rest, given that its fuel is
  -- above the number of the operators.
  pub binary_level-joined :
      (fuel : ℕ) (ts us r : List Token) (first : Expr) (rounds : List (Text × Expr))
      → operand ts ≡ ok (first, us)
      → Rounds kinds operand us rounds r
      → length rounds < fuel
      → binary_level fuel kinds operand ts ≡ ok (joined first rounds, r)
  unfolding binary_level
  binary_level-joined fuel ts us r first rounds reads h lt =
      bind-Run _ _ ts reads (binary_loop-joined fuel first h lt)
