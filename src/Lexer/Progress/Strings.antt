-- ===== src/Lexer/Progress/Strings.antt =====
-- Interpolations and string literals move the cursor by what they read, and the fuel of the string
-- loop is enough.
use new_cl_lang.Base.{
  ℕ, zero, suc, ◌+◌, ◌≤◌, ◌<◌, ◌≡◌, refl, ap, false, inl, inr, [], ◌∷◌, ◌++◌, length, arith,
  Settles, returns, raises, Settles-if, Settles-bind, Settles-weaken, ok, Bool-cases, ◌==◌,
  length-append,
}
use new_cl_lang.Base.Text.{Text}
use new_cl_lang.Python.{Unicode, strip}
use new_cl_lang.Lexer.Strings.{
  Quoting, InterpolationStep, continue, close, unbalanced, interpolation_step, close_interpolation,
  interpolation_from, scan_interpolation_expr, StringScan, StringStep, more, finished, close_string,
  string_escape, string_interpolation, open_brace, close_brace, string_step, string_from,
  scan_string, outside,
}
use new_cl_lang.Lexer.Progress.Cursor.{Reads, Reads-one, Reads-two, Reads-trans, Reads-less, Moves}
use new_cl_lang.Lexer.Progress.Escapes.{decode_escape-Moves}

close_interpolation-Moves :
    (u : Unicode) (start i c : ℕ) (raw t : Text)
    → Settles (Moves 1 i (c ∷ t)) (close_interpolation u start raw i t)
unfolding close_interpolation
close_interpolation-Moves u start i c raw t = ground_cases (strip u raw) refl
  where
    ground_cases :
        (e : Text)
        → strip u raw ≡ e
        → Settles (Moves 1 i (c ∷ t)) (close_interpolation u start raw i t)
    ground_cases [] h = rw (h, close_interpolation) raises
    ground_cases (x ∷ xs) h = rw (h, close_interpolation) (returns (Reads-one i c t))

interpolation_from-Moves :
    (u : Unicode) (start depth : ℕ) (quote : Quoting) (raw : Text) (i : ℕ) (t : Text)
    → Settles (Moves 1 i t) (interpolation_from u start depth quote raw i t)
unfolding interpolation_from
interpolation_from-Moves u start depth quote raw i [] = raises
interpolation_from-Moves u start depth quote raw i (c ∷ t) =
    split (interpolation_step depth quote c) refl
      λ d q. interpolation_from-Moves u start d q (raw ++ c ∷ []) (i + 1) t
  where
    split :
        (step : InterpolationStep)
        → interpolation_step depth quote c ≡ step
        → ((d : ℕ) (q : Quoting)
            → Settles
                (Moves 1 (i + 1) t)
                (interpolation_from u start d q (raw ++ c ∷ []) (i + 1) t))
        → Settles (Moves 1 i (c ∷ t)) (interpolation_from u start depth quote raw i (c ∷ t))
    split (continue d q) e ih =
        rw (e, interpolation_from)
          (Settles-weaken (ih d q)
            λ (v, j, r) a. Reads-less 2 1 (Reads-trans (Reads-one i c t) a) (omega arith) refl)
    split close e ih = rw (e, interpolation_from) (close_interpolation-Moves u start i c raw t)
    split unbalanced e ih = rw (e, interpolation_from) raises

pub scan_interpolation_expr-Moves :
    (u : Unicode) (i : ℕ) (t : Text) → Settles (Moves 1 i t) (scan_interpolation_expr u i t)
unfolding scan_interpolation_expr
scan_interpolation_expr-Moves u i t = interpolation_from-Moves u i 1 outside [] i t

-- One round of the string loop moves the cursor on by one character or more.
abbrev pub StepMoves : ℕ → Text → StringStep → Type 0
StepMoves i t (more s) = Reads 1 i t s.at s.unread
StepMoves i t (finished v j r) = Reads 1 i t j r

close_string-Moves : (s : StringScan) (c : ℕ) (t : Text) → StepMoves s.at (c ∷ t) (close_string s t)
unfolding close_string
close_string-Moves s c t = elim (Bool-cases s.has_expr) [
  | inl h ↦ rw h (Reads-one s.at c t)
  | inr h ↦ rw h (Reads-one s.at c t)
]

string_escape-Moves :
    (u : Unicode) (s : StringScan) (c : ℕ) (t : Text)
    → Settles (StepMoves s.at (c ∷ t)) (string_escape u s t)
unfolding string_escape
string_escape-Moves u s c t =
    Settles-bind (decode_escape-Moves u s.at b'"' c t)
      λ (v, i, r) a. returns (Reads-less 2 1 a (omega arith) refl)

string_interpolation-Moves :
    (u : Unicode) (s : StringScan) (c : ℕ) (t : Text)
    → Settles (StepMoves s.at (c ∷ t)) (string_interpolation u s t)
unfolding string_interpolation
string_interpolation-Moves u s c t =
    Settles-bind (scan_interpolation_expr-Moves u (s.at + 1) t) λ (e, i, r) a.
      returns (Reads-less 2 1 (Reads-trans (Reads-one s.at c t) a) (omega arith) refl)

Reads-pair : (i c d : ℕ) (t : Text) → Reads 1 i (c ∷ d ∷ t) (i + 2) t
Reads-pair i c d t = Reads-less 2 1 (Reads-two i c d t) (omega arith) refl

open_brace-Moves :
    (u : Unicode) (s : StringScan) (c : ℕ) (t : Text)
    → Settles (StepMoves s.at (c ∷ t)) (open_brace u s t)
unfolding open_brace
open_brace-Moves u s c [] = string_interpolation-Moves u s c []
open_brace-Moves u s c (d ∷ t) =
    Settles-if (d == b'{') (λ h. returns (Reads-pair s.at c d t))
      (λ h. string_interpolation-Moves u s c (d ∷ t))

close_brace-Moves :
    (s : StringScan) (c : ℕ) (t : Text) → Settles (StepMoves s.at (c ∷ t)) (close_brace s t)
unfolding close_brace
close_brace-Moves s c [] = raises
close_brace-Moves s c (d ∷ t) =
    Settles-if (d == b'}') (λ h. returns (Reads-pair s.at c d t)) (λ h. raises)

pub string_step-Moves :
    (u : Unicode) (start : ℕ) (s : StringScan) (t : Text)
    → Settles (StepMoves s.at t) (string_step u start s t)
unfolding string_step
string_step-Moves u start s [] = raises
string_step-Moves u start s (c ∷ t) =
    Settles-if (c == b'"') (λ _. returns (close_string-Moves s c t))
      λ _.
        Settles-if (c == b'\\') (λ _. string_escape-Moves u s c t)
          λ _.
            Settles-if (c == b'{') (λ _. open_brace-Moves u s c t)
              λ _.
                Settles-if (c == b'}') (λ _. close_brace-Moves s c t)
                  λ _. returns (Reads-one s.at c t)

-- What is read shortens the text.
pub Reads-length : {n i j : ℕ} {t r : Text} → Reads n i t j r → n + length r ≤ length t
Reads-length a = omega (arith, ap length a.splits, length-append a.piece _, a.enough)

string_from-Moves :
    (u : Unicode) (start fuel : ℕ) (s : StringScan)
    → length s.unread < fuel
    → Settles (Moves 1 s.at s.unread) (string_from u start fuel s)
unfolding string_from
string_from-Moves u start zero s h = absurd (omega arith)
string_from-Moves u start (suc fuel) s h =
    Settles-bind (string_step-Moves u start s s.unread)
      (next λ s' h'. string_from-Moves u start fuel s' h')
  where
    next :
        ((s' : StringScan)
          → length s'.unread < fuel
          → Settles (Moves 1 s'.at s'.unread) (string_from u start fuel s'))
        → (step : StringStep) → StepMoves s.at s.unread step
        → Settles
            (Moves 1 s.at s.unread)
            (elim step [ more s' ↦ string_from u start fuel s' | finished v i r ↦ ok (v, i, r) ])
    next ih (more s') a =
        Settles-weaken (ih s' (omega (arith, Reads-length a)))
          λ (v, j, r) b. Reads-less 2 1 (Reads-trans a b) (omega arith) refl
    next ih (finished v i r) a = returns a

-- A string literal, on the text from its opening quote `b`.
pub scan_string-Moves :
    (u : Unicode) (i b : ℕ) (t : Text) → Settles (Moves 2 i (b ∷ t)) (scan_string u i t)
unfolding scan_string
scan_string-Moves u i b t =
    Settles-weaken
      (string_from-Moves u i (suc (length t))
        (record { at = i + 1; unread = t; chars = []; parts = []; has_expr = false }) (omega arith))
      λ (v, j, r) a. Reads-less 2 2 (Reads-trans (Reads-one i b t) a) (omega arith) refl
