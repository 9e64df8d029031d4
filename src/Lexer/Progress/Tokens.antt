-- ===== src/Lexer/Progress/Tokens.antt =====
-- The whole lexer: its loop ends within its fuel, and the tokens' positions follow the source.
use new_cl_lang.Base.{
  ℕ, zero, suc, ◌+◌, ◌≤◌, ◌<◌, ◌≡◌, refl, ap, true, false, not, ◌||◌, inl, inr, Bool, List, [], ◌∷◌,
  ◌++◌, length, length-append, arith, some, Option-cases, Settles, returns, raises, Settles-if,
  Settles-bind, Settles-weaken, ok, ◌>>=◌, ◌==◌,
}
use new_cl_lang.Base.Text.{Text, after_prefix}
use new_cl_lang.Lexer.Token.{Token, TokenKind}
use new_cl_lang.Python.{Unicode, AlnumLaw}
use new_cl_lang.Lexer.Chars.{is_word_char}
use new_cl_lang.Lexer.Symbols.{SymbolTable, symbols, match_symbol}
use new_cl_lang.Lexer.Lex.{
  LexStep, passed, yields, lex_string, lex_char, lex_symbol, lex_step, lex_from, lex, is_blank,
}
use new_cl_lang.Lexer.Progress.Cursor.{
  Reads, Reads-one, Reads-less, Reads-span, span_pos, after_prefix-append,
}
use new_cl_lang.Lexer.Progress.Escapes.{scan_char-Moves}
use new_cl_lang.Lexer.Progress.Strings.{scan_string-Moves, Reads-length}
use new_cl_lang.Lexer.Progress.Words.{is_eof, no_eof, lex_number-Moves, lex_word-Moves}

-- One round of the loop takes a character or more, and the token's position lies in what it took.
abbrev pub StepFits : ℕ → Text → LexStep → Type 0
StepFits i t (passed j r) = Reads 1 i t j r
StepFits i t (yields token j r) =
    Reads 1 i t j r × (i ≤ token.pos) × (token.pos ≤ j) × (is_eof token.kind ≡ false)

Reads-le : {n i j : ℕ} {t r : Text} → Reads n i t j r → i ≤ j
Reads-le a = omega (arith, a.moved)

Reads-rest : {m i j n : ℕ} {t r : Text} → Reads m i t j r → i + length t ≡ n → j + length r ≡ n
Reads-rest {r = r} a e = omega (arith, a.moved, ap length a.splits, length-append a.piece r)

lex_string-Fits :
    (u : Unicode) (i c : ℕ) (t : Text) → Settles (StepFits i (c ∷ t)) (lex_string u i t)
unfolding lex_string is_eof
lex_string-Fits u i c t =
    Settles-bind (scan_string-Moves u i c t)
      λ (v, j, r) a. returns (Reads-less 2 1 a (omega arith) refl, Reads-le a, omega arith, refl)

lex_char-Fits : (u : Unicode) (i c : ℕ) (t : Text) → Settles (StepFits i (c ∷ t)) (lex_char u i t)
unfolding lex_char is_eof
lex_char-Fits u i c t =
    Settles-bind (scan_char-Moves u i c t)
      λ (v, j, r) a. returns (Reads-less 2 1 a (omega arith) refl, Reads-le a, omega arith, refl)

no_empty : SymbolTable → Bool
no_empty [] = true
no_empty (([], k) ∷ table) = false
no_empty ((c ∷ w, k) ∷ table) = no_empty table

match_symbol-append :
    (table : SymbolTable) (t w : Text) (k : TokenKind) (r : Text)
    → no_eof table ≡ true
    → no_empty table ≡ true
    → match_symbol table t ≡ some (w, k, r)
    → (t ≡ w ++ r) × (1 ≤ length w) × (is_eof k ≡ false)
unfolding match_symbol no_eof no_empty
match_symbol-append [] t w k r he hn e = cc
match_symbol-append (([], l) ∷ table) t w k r he hn e = cc
match_symbol-append ((c ∷ v, l) ∷ table) t w k r he hn e =
    elim (Option-cases (after_prefix (c ∷ v) t)) [
      | inl other ↦ ground (arith, match_symbol-append table t w k r)
      | inr (q, found) ↦ ground (arith, after_prefix-append (c ∷ v) t q found)
    ]

lex_symbol-Fits : (i c : ℕ) (t : Text) → Settles (StepFits i (c ∷ t)) (lex_symbol i c t)
unfolding lex_symbol no_eof is_eof no_empty
lex_symbol-Fits i c t = elim (Option-cases (match_symbol symbols (c ∷ t))) [
  | inl none_fits ↦ rw (none_fits, lex_symbol) raises
  | inr ((w, k, r), found) ↦
      let (splits, nonempty, not_eof) = match_symbol-append symbols (c ∷ t) w k r refl refl found in
      rw (found, lex_symbol)
        (returns (
          record { piece = w; splits = splits; moved = refl; enough = nonempty },
          omega arith,
          omega arith,
          not_eof,
        ))
]

pub lex_step-Fits :
    (u : Unicode)
    → AlnumLaw u
    → (i c : ℕ) (t : Text) → Settles (StepFits i (c ∷ t)) (lex_step u i c t)
unfolding lex_step
lex_step-Fits u law i c t =
    Settles-if (is_blank c) (λ _. returns (Reads-one i c t))
      λ _.
        Settles-if (c == b'#')
          (λ hash. returns (
            Reads-less _ 1 (Reads-span (λ d. not (d == b'\n')) i (c ∷ t))
              (span_pos (λ d. not (d == b'\n')) c t (ground arith)) refl))
          λ _.
            Settles-if (u.is_digit c)
              (λ digit.
                Settles-bind (lex_number-Moves u i c t digit)
                  λ (token, j, r) (a, p, k). returns (a, omega arith, omega (arith, Reads-le a), k))
              λ _.
                Settles-if (c == b'"') (λ _. lex_string-Fits u i c t)
                  λ _.
                    Settles-if (c == b'\'') (λ _. lex_char-Fits u i c t)
                      λ _.
                        Settles-if (u.is_alpha c || c == b'_')
                          (λ starts.
                            let (a, p, k) = lex_word-Moves u i c t (word_char starts) in
                            returns (a, omega arith, omega (arith, Reads-le a), k))
                          λ _. lex_symbol-Fits i c t
  where
    word_char : (u.is_alpha c || c == b'_') ≡ true → is_word_char u c ≡ true
    word_char h = ground (arith, law.alnum_of_alpha c)

-- The tokens' positions: each is at or behind the one before, none is behind the source's end at `n`,
-- and the list ends with the one EOF token, at `n`.
abbrev pub InOrder : ℕ → ℕ → List Token → Type 0
InOrder i n [] = ⊥
InOrder i n (token ∷ []) = (i ≤ n) × (is_eof token.kind ≡ true) × (token.pos ≡ n)
InOrder i n (token ∷ next ∷ tokens) =
    (i ≤ token.pos) × (is_eof token.kind ≡ false) × InOrder token.pos n (next ∷ tokens)

InOrder-less : (i j n : ℕ) (tokens : List Token) → i ≤ j → InOrder j n tokens → InOrder i n tokens
InOrder-less i j n [] le h = h
InOrder-less i j n (token ∷ []) le h = (omega arith, h.1, h.2)
InOrder-less i j n (token ∷ next ∷ tokens) le h = (omega arith, h.1, h.2)

InOrder-cons :
    (i j n : ℕ) (token : Token) (tokens : List Token)
    → i ≤ token.pos
    → token.pos ≤ j
    → is_eof token.kind ≡ false
    → InOrder j n tokens
    → InOrder i n (token ∷ tokens)
InOrder-cons i j n token [] a b k h = absurd h
InOrder-cons i j n token (next ∷ tokens) a b k h =
    (a, k, InOrder-less token.pos j n (next ∷ tokens) b h)

lex_from-InOrder :
    (u : Unicode)
    → AlnumLaw u
    → (fuel i n : ℕ) (t : Text) → length t < fuel
    → i + length t ≡ n
    → Settles (InOrder i n) (lex_from u fuel i t)
unfolding lex_from is_eof
lex_from-InOrder u law zero i n t h e = absurd (omega arith)
lex_from-InOrder u law (suc fuel) i n [] h e = returns (omega arith, refl, omega arith)
lex_from-InOrder u law (suc fuel) i n (c ∷ t) h e =
    Settles-bind (lex_step-Fits u law i c t)
      (next λ j r le e'. lex_from-InOrder u law fuel j n r le e')
  where
    next :
        ((j : ℕ) (r : Text)
          → length r < fuel
          → j + length r ≡ n
          → Settles (InOrder j n) (lex_from u fuel j r))
        → (step : LexStep) → StepFits i (c ∷ t) step
        → Settles (InOrder i n) (elim step [
          | passed j r ↦ lex_from u fuel j r
          | yields token j r ↦ lex_from u fuel j r >>= λ tokens. ok (token ∷ tokens)
        ])
    next ih (passed j r) a =
        Settles-weaken (ih j r (omega (arith, Reads-length a)) (Reads-rest a e))
          λ tokens. InOrder-less i j n tokens (Reads-le a)
    next ih (yields token j r) (a, lo, hi, k) =
        Settles-bind (ih j r (omega (arith, Reads-length a)) (Reads-rest a e))
          λ tokens fits. returns (InOrder-cons i j n token tokens lo hi k fits)

-- For every source text the lexer's loop ends within its fuel: it raises an exception, or its tokens
-- have positions that never go back, none behind the end of the source, and end with the only EOF
-- token, whose position is the length of the source. That `isalpha` implies `isalnum` is assumed of
-- the Unicode tables.
pub lex-InOrder :
    (u : Unicode)
    → AlnumLaw u
    → (source : Text) → Settles (InOrder 0 (length source)) (lex u source)
unfolding lex
lex-InOrder u law source =
    lex_from-InOrder u law (suc (length source)) 0 (length source) source (omega arith)
      (omega arith)
