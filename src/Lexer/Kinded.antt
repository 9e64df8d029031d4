-- ===== src/Lexer/Kinded.antt =====
-- compiler/lexer.py: the shape of each token's value.
use new_cl_lang.Base.{
  ℕ, zero, suc, ◌+◌, ◌<◌, ◌≡◌, refl, true, false, ◌&&◌, ◌||◌, inl, inr, Bool, List, [], ◌∷◌, ◌++◌,
  length, arith, some, Option-cases, Settles, returns, raises, Settles-if, Settles-bind,
  Settles-both, Bool-cases, ok, ◌>>=◌, ◌==◌,
}
use new_cl_lang.Base.Text.{Text, after_prefix}
use new_cl_lang.Lexer.Token.{
  Token, TokenKind, TokenValue, number, decimal, text, interpolated, code_point, truth, keywords,
  kind_of, integer_suffixes, float_suffixes,
}
use new_cl_lang.Python.{Unicode, AlnumLaw, int_base10}
use new_cl_lang.Lexer.Chars.{span, is_word_char}
use new_cl_lang.Lexer.Strings.{
  StringScan, StringStep, more, finished, close_string, string_escape, string_interpolation,
  open_brace, close_brace, string_step, string_from, scan_string,
}
use new_cl_lang.Lexer.Progress.{
  Reads-length, decode_escape-Moves, scan_interpolation_expr-Moves, string_step-Moves, StepMoves,
  scan_char-Moves, lex_step-Fits, StepFits,
}
use new_cl_lang.Lexer.Words.{
  bad_suffix, fraction, finish_integer, finish_float, fraction_digits, lex_number, lex_word,
  word_value,
}
use new_cl_lang.Lexer.Symbols.{SymbolTable, symbols, match_symbol}
use new_cl_lang.Lexer.Lex.{
  LexStep, passed, yields, lex_string, lex_char, lex_symbol, lex_step, lex_from, lex, is_blank,
}

-- The shapes that values have by their token's kind.
pub data Shape : Type 0 where
  numeric fractional quoted coded boolean plain : Shape

unfoldable pub shape_of : TokenKind → Shape
shape_of TokenKind.integer = numeric
shape_of TokenKind.float = fractional
shape_of TokenKind.string = quoted
shape_of TokenKind.char = coded
shape_of TokenKind.bool = boolean
shape_of _ = plain

unfoldable pub has_shape : Shape → TokenValue → Bool
has_shape numeric (number n suffix) = true
has_shape fractional (decimal s suffix) = true
has_shape quoted (text s) = true
has_shape quoted (interpolated parts) = true
has_shape coded (code_point c) = true
has_shape boolean (truth b) = true
has_shape plain (text s) = true
has_shape _ _ = false

abbrev pub well_kinded : Token → Bool
well_kinded t = has_shape (shape_of t.kind) t.value

unfoldable pub all_well_kinded : List Token → Bool
all_well_kinded [] = true
all_well_kinded (t ∷ ts) = well_kinded t && all_well_kinded ts

unfoldable is_plain : Shape → Bool
is_plain plain = true
is_plain _ = false

plain-text : (s : Shape) (w : Text) → is_plain s ≡ true → has_shape s (text w) ≡ true
unfolding is_plain has_shape
plain-text plain w h = refl
plain-text _ w h = cc

-- A word or a symbol has its text as its value; only true and false have a truth value.
unfoldable wordy : TokenKind → Bool
unfolding shape_of
wordy k = elim (shape_of k) [ boolean ↦ true | plain ↦ true | _ ↦ false ]

word_value-shape :
    (k : TokenKind) (w : Text) → wordy k ≡ true → has_shape (shape_of k) (word_value k w) ≡ true
unfolding wordy shape_of has_shape
word_value-shape TokenKind.integer w h = cc
word_value-shape TokenKind.float w h = cc
word_value-shape TokenKind.string w h = cc
word_value-shape TokenKind.char w h = cc
word_value-shape TokenKind.bool w h = refl
word_value-shape _ w h = refl

unfoldable all_wordy : List (Text × TokenKind) → Bool
all_wordy [] = true
all_wordy ((w, k) ∷ table) = wordy k && all_wordy table

kind_of-wordy :
    (table : List (Text × TokenKind)) (w : Text) (k : TokenKind)
    → all_wordy table ≡ true
    → wordy k ≡ true
    → wordy (kind_of table w k) ≡ true
unfolding all_wordy kind_of
kind_of-wordy [] w k h e = e
kind_of-wordy ((v, l) ∷ table) w k h e = ground (arith, kind_of-wordy table w k)

unfoldable pub has_parts : TokenValue → Bool
has_parts (interpolated parts) = true
has_parts _ = false

-- A token that is no string has its value, and no interpolation.
abbrev pub TokenShape : Token × ℕ × Text → Type 0
TokenShape (token, j, r) = (well_kinded token ≡ true) × (has_parts token.value ≡ false)

word_value-has_parts : (k : TokenKind) (w : Text) → has_parts (word_value k w) ≡ false
unfolding has_parts
word_value-has_parts TokenKind.bool w = refl
word_value-has_parts _ w = refl

pub lex_word-shape : (u : Unicode) (i : ℕ) (t : Text) → TokenShape (lex_word u i t)
unfolding lex_word all_wordy wordy shape_of
lex_word-shape u i t = (
  word_value-shape _ _
      (kind_of-wordy keywords (span (is_word_char u) t).0 TokenKind.ident refl refl),
  word_value-has_parts _ _,
)

finish_integer-shape :
    (u : Unicode) (i : ℕ) (ds r : Text) → Settles TokenShape (finish_integer u i ds r)
unfolding finish_integer shape_of has_shape has_parts
finish_integer-shape u i ds r =
    Settles-if (bad_suffix (span (is_word_char u) r).0 integer_suffixes) (λ _. raises)
      λ _. elim (Option-cases (int_base10 u ds)) [
        | inl refused ↦ rw refused raises
        | inr (n, value) ↦ rw value (returns (refl, refl))
      ]

finish_float-shape :
    (u : Unicode) (i : ℕ) (ds r : Text) → Settles TokenShape (finish_float u i ds r)
unfolding finish_float shape_of has_shape has_parts
finish_float-shape u i ds r =
    Settles-if (bad_suffix (span (is_word_char u) r).0 float_suffixes) (λ _. raises)
      (λ _. returns (refl, refl))

fraction_digits-shape :
    (u : Unicode) (i : ℕ) (ds after : Text) → Settles TokenShape (fraction_digits u i ds after)
unfolding fraction_digits
fraction_digits-shape u i ds after = split (span u.is_digit after).0 refl
  where
    split :
        (fs : Text)
        → (span u.is_digit after).0 ≡ fs
        → Settles TokenShape (fraction_digits u i ds after)
    split [] h = rw (h, fraction_digits) raises
    split (f ∷ fs) h =
        rw (h, fraction_digits)
          (finish_float-shape u i (ds ++ b'.' ∷ f ∷ fs) (span u.is_digit after).1)

pub lex_number-shape : (u : Unicode) (i : ℕ) (t : Text) → Settles TokenShape (lex_number u i t)
unfolding lex_number
lex_number-shape u i t = elim (Option-cases (fraction (span u.is_digit t).1)) [
  | inl no_dot ↦
      rw (no_dot, lex_number) (finish_integer-shape u i (span u.is_digit t).0 (span u.is_digit t).1)
  | inr (after, dotted) ↦
      rw (dotted, lex_number) (fraction_digits-shape u i (span u.is_digit t).0 after)
]

-- A string's value is a text or has parts.
abbrev Finishes : StringStep → Type 0
Finishes (more s) = Unit {0}
Finishes (finished v j r) = has_shape quoted v ≡ true

close_string-shape : (s : StringScan) (t : Text) → Finishes (close_string s t)
unfolding close_string has_shape
close_string-shape s t = elim (Bool-cases s.has_expr) [ inl h ↦ rw h refl | inr h ↦ rw h refl ]

open_brace-shape : (u : Unicode) (s : StringScan) (t : Text) → Settles Finishes (open_brace u s t)
unfolding open_brace string_interpolation
open_brace-shape u s [] =
    Settles-bind (scan_interpolation_expr-Moves u (s.at + 1) []) (λ x _. returns tt)
open_brace-shape u s (d ∷ t) =
    Settles-if (d == b'{') (λ _. returns tt)
      (λ _. Settles-bind (scan_interpolation_expr-Moves u (s.at + 1) (d ∷ t)) (λ x _. returns tt))

close_brace-shape : (s : StringScan) (t : Text) → Settles Finishes (close_brace s t)
unfolding close_brace
close_brace-shape s [] = raises
close_brace-shape s (d ∷ t) = Settles-if (d == b'}') (λ _. returns tt) (λ _. raises)

string_step-shape :
    (u : Unicode) (start : ℕ) (s : StringScan) (t : Text)
    → Settles Finishes (string_step u start s t)
unfolding string_step string_escape
string_step-shape u start s [] = raises
string_step-shape u start s (c ∷ t) =
    Settles-if (c == b'"') (λ _. returns (close_string-shape s t))
      λ _.
        Settles-if (c == b'\\')
          (λ _. Settles-bind (decode_escape-Moves u s.at b'"' c t) (λ x _. returns tt))
          λ _.
            Settles-if (c == b'{') (λ _. open_brace-shape u s t)
              λ _. Settles-if (c == b'}') (λ _. close_brace-shape s t) λ _. returns tt

abbrev Quoted : TokenValue × ℕ × Text → Type 0
Quoted (v, j, r) = has_shape quoted v ≡ true

string_from-shape :
    (u : Unicode) (start fuel : ℕ) (s : StringScan)
    → length s.unread < fuel
    → Settles Quoted (string_from u start fuel s)
unfolding string_from
string_from-shape u start zero s h = absurd (omega arith)
string_from-shape u start (suc fuel) s h =
    Settles-bind
      (Settles-both (string_step-shape u start s s.unread) (string_step-Moves u start s s.unread))
      (next λ s' h'. string_from-shape u start fuel s' h')
  where
    next :
        ((s' : StringScan) → length s'.unread < fuel → Settles Quoted (string_from u start fuel s'))
        → (step : StringStep) → Finishes step × StepMoves s.at s.unread step
        → Settles Quoted
            (elim step [ more s' ↦ string_from u start fuel s' | finished v i r ↦ ok (v, i, r) ])
    next ih (more s') (a, m) = ih s' (omega (arith, Reads-length m))
    next ih (finished v i r) (a, m) = returns a

scan_string-shape : (u : Unicode) (start : ℕ) (t : Text) → Settles Quoted (scan_string u start t)
unfolding scan_string
scan_string-shape u start t =
    string_from-shape u start (suc (length t))
      (record { at = start + 1; unread = t; chars = []; parts = []; has_expr = false })
      (omega arith)

unfoldable all_plain : SymbolTable → Bool
all_plain [] = true
all_plain ((w, k) ∷ table) = is_plain (shape_of k) && all_plain table

match_symbol-plain :
    (table : SymbolTable) (t w : Text) (k : TokenKind) (r : Text)
    → all_plain table ≡ true
    → match_symbol table t ≡ some (w, k, r)
    → is_plain (shape_of k) ≡ true
unfolding match_symbol all_plain
match_symbol-plain [] t w k r h e = cc
match_symbol-plain ((v, l) ∷ table) t w k r h e = elim (Option-cases (after_prefix v t)) [
  | inl other ↦ ground (arith, match_symbol-plain table t w k r)
  | inr (q, found) ↦ ground arith
]

abbrev pub StepShape : LexStep → Type 0
StepShape (passed j r) = Unit {0}
StepShape (yields token j r) = well_kinded token ≡ true

lex_symbol-shape : (i c : ℕ) (t : Text) → Settles StepShape (lex_symbol i c t)
unfolding lex_symbol all_plain is_plain shape_of
lex_symbol-shape i c t = elim (Option-cases (match_symbol symbols (c ∷ t))) [
  | inl none_fits ↦ rw (none_fits, lex_symbol) raises
  | inr ((w, k, r), found) ↦
      rw (found, lex_symbol)
        (returns (plain-text (shape_of k) w (match_symbol-plain symbols (c ∷ t) w k r refl found)))
]

pub lex_step-shape : (u : Unicode) (i c : ℕ) (t : Text) → Settles StepShape (lex_step u i c t)
unfolding lex_step lex_string lex_char shape_of has_shape
lex_step-shape u i c t =
    Settles-if (is_blank c) (λ _. returns tt)
      λ _.
        Settles-if (c == b'#') (λ _. returns tt)
          λ _.
            Settles-if (u.is_digit c)
              (λ _. Settles-bind (lex_number-shape u i (c ∷ t)) (λ (token, j, r) a. returns a.0))
              λ _.
                Settles-if (c == b'"')
                  (λ _. Settles-bind (scan_string-shape u i t) (λ (v, j, r) a. returns a))
                  λ _.
                    Settles-if (c == b'\'')
                      (λ _. Settles-bind (scan_char-Moves u i c t) (λ (v, j, r) a. returns refl))
                      λ _.
                        Settles-if (u.is_alpha c || c == b'_')
                          (λ _. returns (lex_word-shape u i (c ∷ t)).0) λ _. lex_symbol-shape i c t

all_well_kinded-cons :
    (t : Token) (ts : List Token)
    → well_kinded t ≡ true
    → all_well_kinded ts ≡ true
    → all_well_kinded (t ∷ ts) ≡ true
unfolding all_well_kinded
all_well_kinded-cons t ts h hs = ground arith

lex_from-shape :
    (u : Unicode)
    → AlnumLaw u
    → (fuel i : ℕ) (t : Text) → length t < fuel
    → Settles (λ tokens. all_well_kinded tokens ≡ true) (lex_from u fuel i t)
unfolding lex_from all_well_kinded shape_of has_shape
lex_from-shape u law zero i t h = absurd (omega arith)
lex_from-shape u law (suc fuel) i [] h = returns refl
lex_from-shape u law (suc fuel) i (c ∷ t) h =
    Settles-bind (Settles-both (lex_step-shape u i c t) (lex_step-Fits u law i c t))
      (next λ j r le. lex_from-shape u law fuel j r le)
  where
    next :
        ((j : ℕ) (r : Text)
          → length r < fuel
          → Settles (λ tokens. all_well_kinded tokens ≡ true) (lex_from u fuel j r))
        → (step : LexStep) → StepShape step × StepFits i (c ∷ t) step
        → Settles
            (λ tokens. all_well_kinded tokens ≡ true)
            (elim step [
              | passed j r ↦ lex_from u fuel j r
              | yields token j r ↦ lex_from u fuel j r >>= λ tokens. ok (token ∷ tokens)
            ])
    next ih (passed j r) (a, m) = ih j r (omega (arith, Reads-length m))
    next ih (yields token j r) (a, fits) =
        Settles-bind (ih j r (omega (arith, Reads-length fits.0)))
          λ tokens h'. returns (all_well_kinded-cons token tokens a h')

-- For every source text the lexer raises an exception or gives tokens whose values have the shape of their
-- kinds: a number with its suffix for an integer, a text or the parts of an interpolation for a string, a truth
-- value for true and false, and so on. That `isalpha` implies `isalnum` is assumed of the Unicode tables.
pub lex-all_well_kinded :
    (u : Unicode)
    → AlnumLaw u
    → (source : Text) → Settles (λ tokens. all_well_kinded tokens ≡ true) (lex u source)
unfolding lex
lex-all_well_kinded u law source = lex_from-shape u law (suc (length source)) 0 source (omega arith)
