-- ===== src/Lexer/Progress/Words.antt =====
-- Number literals and words move the cursor by what they read.
use new_cl_lang.Base.{
  ℕ, ◌+◌, ◌≡◌, refl, sym, ap, true, false, not, inl, inr, List, [], ◌∷◌, ◌++◌, append_assoc, ◌∙◌,
  length, length-append, arith, some, Option-cases, Settles, returns, raises, Settles-if,
  Settles-weaken, Bool, ◌&&◌,
}
use new_cl_lang.Base.Text.{Text}
use new_cl_lang.Lexer.Token.{
  Token, TokenKind, eof, ident, keywords, kind_of, integer_suffixes, float_suffixes,
}
use new_cl_lang.Python.{Unicode, int_base10}
use new_cl_lang.Lexer.Chars.{span, is_word_char}
use new_cl_lang.Lexer.Words.{
  bad_suffix, fraction, finish_integer, finish_float, fraction_digits, lex_number, lex_word,
}
use new_cl_lang.Lexer.Progress.Cursor.{Reads, Reads-span, Reads-less, span-append, span_pos}

unfoldable pub is_eof : TokenKind → Bool
is_eof eof = true
is_eof _ = false

unfoldable pub no_eof : List (Text × TokenKind) → Bool
no_eof [] = true
no_eof ((w, k) ∷ table) = not (is_eof k) && no_eof table

kind_of-not_eof :
    (table : List (Text × TokenKind)) (w : Text) (k : TokenKind)
    → no_eof table ≡ true
    → is_eof k ≡ false
    → is_eof (kind_of table w k) ≡ false
unfolding no_eof kind_of
kind_of-not_eof [] w k h e = e
kind_of-not_eof ((v, l) ∷ table) w k h e = ground (arith, kind_of-not_eof table w k)

-- A token read at `i`: the cursor moves, the token has the position `i`, and it is no EOF.
abbrev pub LexedAt : (least i : ℕ) (t : Text) → Token × ℕ × Text → Type 0
LexedAt least i t (token, j, r) =
    Reads least i t j r × (token.pos ≡ i) × (is_eof token.kind ≡ false)

-- A piece `ds` at the front and the characters that pass the test behind it.
Reads-piece-span :
    (p : ℕ → Bool) (i : ℕ) (t ds r : Text)
    → t ≡ ds ++ r
    → Reads (length ds) i t (i + length ds + length (span p r).0) (span p r).1
Reads-piece-span p i t ds r e = record {
  piece = ds ++ (span p r).0;
  splits = e ∙ ap (◌++◌ ds) (span-append p r) ∙ sym (append_assoc ds _ _);
  moved = omega (arith, length-append ds (span p r).0);
  enough = omega (arith, length-append ds (span p r).0);
}

finish_integer-Moves :
    (u : Unicode) (i : ℕ) (t ds r : Text)
    → t ≡ ds ++ r
    → Settles (LexedAt (length ds) i t) (finish_integer u i ds r)
unfolding finish_integer is_eof
finish_integer-Moves u i t ds r e =
    Settles-if (bad_suffix (span (is_word_char u) r).0 integer_suffixes) (λ _. raises)
      λ _. elim (Option-cases (int_base10 u ds)) [
        | inl refused ↦ rw refused raises
        | inr (n, value) ↦
            rw value (returns (Reads-piece-span (is_word_char u) i t ds r e, refl, refl))
      ]

finish_float-Moves :
    (u : Unicode) (i : ℕ) (t ds r : Text)
    → t ≡ ds ++ r
    → Settles (LexedAt (length ds) i t) (finish_float u i ds r)
unfolding finish_float is_eof
finish_float-Moves u i t ds r e =
    Settles-if (bad_suffix (span (is_word_char u) r).0 float_suffixes) (λ _. raises)
      λ _. returns (Reads-piece-span (is_word_char u) i t ds r e, refl, refl)

fraction-append : (r after : Text) → fraction r ≡ some after → r ≡ b'.' ∷ after
fraction-append [] after e = cc
fraction-append (c ∷ []) after e = ground arith
fraction-append (c ∷ d ∷ r) after e = ground arith

fraction_digits-Moves :
    (u : Unicode) (i : ℕ) (t ds after : Text)
    → t ≡ ds ++ (b'.' ∷ after)
    → Settles (LexedAt (length ds) i t) (fraction_digits u i ds after)
unfolding fraction_digits
fraction_digits-Moves u i t ds after e = split (span u.is_digit after).0 refl
  where
    split :
        (fs : Text)
        → (span u.is_digit after).0 ≡ fs
        → Settles (LexedAt (length ds) i t) (fraction_digits u i ds after)
    split [] h = rw (h, fraction_digits) raises
    split (f ∷ fs) h =
        rw (h, fraction_digits)
          (Settles-weaken
            (finish_float-Moves u i t (ds ++ b'.' ∷ f ∷ fs) (span u.is_digit after).1 (
              e
              ∙ ap (λ s. ds ++ (b'.' ∷ s)) (span-append u.is_digit after ∙ rw h)
              ∙ sym (append_assoc ds _ _)))
            λ (v, j, r) (a, p, k). (
              Reads-less _ (length ds) a (omega (arith, length-append ds (b'.' ∷ f ∷ fs))) refl,
              p,
              k,
            ))

pub lex_number-Moves :
    (u : Unicode) (i c : ℕ) (t : Text)
    → u.is_digit c ≡ true
    → Settles (LexedAt 1 i (c ∷ t)) (lex_number u i (c ∷ t))
unfolding lex_number
lex_number-Moves u i c t h = elim (Option-cases (fraction (span u.is_digit (c ∷ t)).1)) [
  | inl no_dot ↦
      rw (no_dot, lex_number)
        (Settles-weaken
          (finish_integer-Moves u i (c ∷ t) (span u.is_digit (c ∷ t)).0 (span u.is_digit (c ∷ t)).1
            (span-append u.is_digit (c ∷ t)))
          λ (v, j, r) (a, p, k). (Reads-less _ 1 a (span_pos u.is_digit c t h) refl, p, k))
  | inr (after, dotted) ↦
      rw (dotted, lex_number)
        (Settles-weaken
          (fraction_digits-Moves u i (c ∷ t) (span u.is_digit (c ∷ t)).0 after (
            span-append u.is_digit (c ∷ t)
            ∙ ap (◌++◌ (span u.is_digit (c ∷ t)).0) (fraction-append _ after dotted)))
          λ (v, j, r) (a, p, k). (Reads-less _ 1 a (span_pos u.is_digit c t h) refl, p, k))
]

pub lex_word-Moves :
    (u : Unicode) (i c : ℕ) (t : Text)
    → is_word_char u c ≡ true
    → LexedAt 1 i (c ∷ t) (lex_word u i (c ∷ t))
unfolding lex_word no_eof is_eof
lex_word-Moves u i c t h = (
  Reads-less _ 1 (Reads-span (is_word_char u) i (c ∷ t)) (span_pos (is_word_char u) c t h) refl,
  refl,
  kind_of-not_eof keywords (span (is_word_char u) (c ∷ t)).0 ident refl refl,
)
