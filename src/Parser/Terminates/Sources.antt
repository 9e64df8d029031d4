-- ===== src/Parser/Terminates/Sources.antt =====
-- The tokens of a source weigh at most one more than the source has characters.
use new_cl_lang.Base.{
  ℕ, zero, suc, ◌+◌, ◌≤◌, ◌<◌, ◌≡◌, refl, false, ◌||◌, List, [], ◌∷◌, length, arith, Settles,
  returns, raises, Settles-if, Settles-bind, Settles-weaken, Settles-both, inl, inr, Option-cases,
  ok, ◌==◌, ◌>>=◌,
}
use new_cl_lang.Base.Text.{Text}
use new_cl_lang.Python.{Unicode, AlnumLaw}
use new_cl_lang.Lexer.Token.{Token, TokenValue}
use new_cl_lang.Lexer.Lex.{
  LexStep, passed, yields, lex_string, lex_char, lex_symbol, lex_step, lex_from, lex, is_blank,
}
use new_cl_lang.Lexer.Progress.{Reads-length, lex_step-Fits, StepFits, scan_char-Moves}
use new_cl_lang.Lexer.Symbols.{symbols, match_symbol}
use new_cl_lang.Lexer.Kinded.{has_parts, lex_number-shape, lex_word-shape}
use new_cl_lang.Parser.Weight.{value_weight, weight}
use new_cl_lang.Parser.Terminates.Tokens.{scan_string-Holds}

abbrev StepWeighs : ℕ → LexStep → Type 0
StepWeighs n (passed j r) = Unit {0}
StepWeighs n (yields token j r) = value_weight token.value + length r < n

weight-cons :
    (t : Token) (ts : List Token) → weight (t ∷ ts) ≡ suc (value_weight t.value + weight ts)
unfolding weight
weight-cons t ts = refl

has_parts-value_weight : (v : TokenValue) → has_parts v ≡ false → value_weight v ≡ 0
unfolding has_parts value_weight
has_parts-value_weight (TokenValue.interpolated ps) h = cc
has_parts-value_weight _ h = refl

lex_symbol-Weighs :
    (i c : ℕ) (t : Text)
    → Settles
        (λ step. StepFits i (c ∷ t) step → StepWeighs (length (c ∷ t)) step)
        (lex_symbol i c t)
unfolding lex_symbol value_weight
lex_symbol-Weighs i c t = elim (Option-cases (match_symbol symbols (c ∷ t))) [
  | inl none_fits ↦ rw (none_fits, lex_symbol) raises
  | inr ((w, k, r), found) ↦
      rw (found, lex_symbol) (returns (λ fits. omega (arith, Reads-length fits.0)))
]

-- What a round yields weighs less than what it read; that it read something is known.
lex_step-Weighs :
    (u : Unicode) (i c : ℕ) (t : Text)
    → Settles
        (λ step. StepFits i (c ∷ t) step → StepWeighs (length (c ∷ t)) step)
        (lex_step u i c t)
unfolding lex_step lex_string lex_char value_weight
lex_step-Weighs u i c t =
    Settles-if (is_blank c) (λ _. returns (λ fits. tt))
      λ _.
        Settles-if (c == b'#') (λ _. returns (λ fits. tt))
          λ _.
            Settles-if (u.is_digit c)
              (λ _. Settles-bind (lex_number-shape u i (c ∷ t)) (λ (token, j, r) a. returns (λ fits.
                omega (arith, has_parts-value_weight token.value a.1, Reads-length fits.0))))
              λ _.
                Settles-if (c == b'"')
                  (λ _.
                    Settles-bind (scan_string-Holds u i t)
                      (λ (v, j, r) a. returns (λ fits. omega arith)))
                  λ _.
                    Settles-if (c == b'\'')
                      (λ _.
                        Settles-bind (scan_char-Moves u i c t)
                          (λ (v, j, r) a. returns (λ fits. omega (arith, Reads-length fits.0))))
                      λ _.
                        Settles-if (u.is_alpha c || c == b'_')
                          (λ _. returns (λ fits. omega (
                            arith,
                            has_parts-value_weight _ (lex_word-shape u i (c ∷ t)).1,
                            Reads-length fits.0,
                          )))
                          λ _. lex_symbol-Weighs i c t

lex_from-weight :
    (u : Unicode)
    → AlnumLaw u
    → (fuel i : ℕ) (t : Text) → length t < fuel
    → Settles (λ tokens. weight tokens ≤ length t + 1) (lex_from u fuel i t)
unfolding lex_from weight value_weight
lex_from-weight u law zero i t h = absurd (omega arith)
lex_from-weight u law (suc fuel) i [] h = returns (omega arith)
lex_from-weight u law (suc fuel) i (c ∷ t) h =
    Settles-bind (Settles-both (lex_step-Weighs u i c t) (lex_step-Fits u law i c t))
      (next λ j r le. lex_from-weight u law fuel j r le)
  where
    next :
        ((j : ℕ) (r : Text)
          → length r < fuel
          → Settles (λ tokens. weight tokens ≤ length r + 1) (lex_from u fuel j r))
        → (step : LexStep)
        → (StepFits i (c ∷ t) step → StepWeighs (length (c ∷ t)) step) × StepFits i (c ∷ t) step
        → Settles
            (λ tokens. weight tokens ≤ length (c ∷ t) + 1)
            (elim step [
              | passed j r ↦ lex_from u fuel j r
              | yields token j r ↦ lex_from u fuel j r >>= λ tokens. ok (token ∷ tokens)
            ])
    next ih (passed j r) (a, m) =
        Settles-weaken (ih j r (omega (arith, Reads-length m)))
          (λ tokens le. omega (arith, Reads-length m))
    next ih (yields token j r) (a, fits) =
        Settles-bind (ih j r (omega (arith, Reads-length fits.0)))
          λ tokens le. returns (omega (arith, weight-cons token tokens, a fits))

pub lex-weight :
    (u : Unicode)
    → AlnumLaw u
    → (source : Text) → Settles (λ tokens. weight tokens ≤ length source + 1) (lex u source)
unfolding lex
lex-weight u law source = lex_from-weight u law (suc (length source)) 0 source (omega arith)
