-- ===== src/Parser/Terminates/Tokens.antt =====
-- The tokens of a source weigh no more than its characters and one: so the source of an interpolation, which
-- is lexed by itself, gives tokens of less weight than the token that it came from.
use new_cl_lang.Base.{
  ℕ, zero, suc, ◌+◌, ◌≤◌, ◌<◌, ◌≡◌, refl, ap, false, inl, inr, List, [], ◌∷◌, ◌++◌, length,
  length-append, arith, Settles, returns, raises, Settles-if, Settles-bind, Settles-weaken,
  Settles-both, ok, Bool-cases, ◌==◌,
}
use new_cl_lang.Base.Text.{Text}
use new_cl_lang.Python.{Unicode, strip, skip_spaces, trim_end}
use new_cl_lang.Lexer.Token.{Part}
use new_cl_lang.Lexer.Strings.{
  Quoting, InterpolationStep, continue, close, unbalanced, interpolation_step, close_interpolation,
  interpolation_from, scan_interpolation_expr, StringScan, StringStep, more, finished, close_string,
  string_escape, string_interpolation, open_brace, close_brace, string_step, string_from,
  scan_string, outside, flush,
}
use new_cl_lang.Lexer.Progress.{Reads-length, decode_escape-Moves, string_step-Moves, StepMoves}
use new_cl_lang.Parser.Weight.{parts_weight, value_weight}

skip_spaces-length : (u : Unicode) (t : Text) → length (skip_spaces u t) ≤ length t
unfolding skip_spaces
skip_spaces-length u [] = omega arith
skip_spaces-length u (c ∷ t) = ground (arith, skip_spaces-length u t)

trim_end-length : (u : Unicode) (t : Text) → length (trim_end u t) ≤ length t
unfolding trim_end
trim_end-length u [] = omega arith
trim_end-length u (c ∷ t) = trimmed (trim_end u t) refl (trim_end-length u t)
  where
    trimmed :
        (r : Text)
        → trim_end u t ≡ r
        → length (trim_end u t) ≤ length t
        → length (trim_end u (c ∷ t)) ≤ length (c ∷ t)
    trimmed [] h le = elim (Bool-cases (u.is_space c)) [
      | inl space ↦ rw (trim_end, h, space) (omega arith)
      | inr other ↦ rw (trim_end, h, other) (omega arith)
    ]
    trimmed (d ∷ r) h le = rw (trim_end, h) (omega (arith, ap length h))

strip-length : (u : Unicode) (t : Text) → length (strip u t) ≤ length t
unfolding strip
strip-length u t = omega (arith, trim_end-length u (skip_spaces u t), skip_spaces-length u t)

parts_weight-append :
    (ps qs : List Part) → parts_weight (ps ++ qs) ≡ parts_weight ps + parts_weight qs
unfolding parts_weight
parts_weight-append [] qs = omega arith
parts_weight-append (Part.literal s ∷ ps) qs = parts_weight-append ps qs
parts_weight-append (Part.expr s ∷ ps) qs = omega (arith, parts_weight-append ps qs)

flush_weight : (chars : Text) (ps : List Part) → parts_weight (flush chars ps) ≡ parts_weight ps
unfolding parts_weight
flush_weight [] ps = refl
flush_weight (c ∷ cs) ps = omega (arith, parts_weight-append ps (Part.literal (c ∷ cs) ∷ []))

-- The source of an interpolation and its closing brace were read.
abbrev Holds : ℕ → Text × ℕ × Text → Type 0
Holds n (e, i, r) = length e + 1 + length r ≤ n

close_interpolation-Holds :
    (u : Unicode) (start i c : ℕ) (raw t : Text)
    → Settles (Holds (length raw + length (c ∷ t))) (close_interpolation u start raw i t)
unfolding close_interpolation
close_interpolation-Holds u start i c raw t = stripped (strip u raw) refl
  where
    stripped :
        (e : Text)
        → strip u raw ≡ e
        → Settles (Holds (length raw + length (c ∷ t))) (close_interpolation u start raw i t)
    stripped [] h = rw (close_interpolation, h) raises
    stripped (x ∷ xs) h =
        rw (close_interpolation, h) (returns (omega (arith, strip-length u raw, ap length h)))

interpolation_from-Holds :
    (u : Unicode) (start depth : ℕ) (quote : Quoting) (raw : Text) (i : ℕ) (t : Text)
    → Settles (Holds (length raw + length t)) (interpolation_from u start depth quote raw i t)
unfolding interpolation_from
interpolation_from-Holds u start depth quote raw i [] = raises
interpolation_from-Holds u start depth quote raw i (c ∷ t) =
    split (interpolation_step depth quote c) refl λ d q.
      Settles-weaken (interpolation_from-Holds u start d q (raw ++ c ∷ []) (i + 1) t)
        λ (e, j, r) h. omega (arith, length-append raw (c ∷ []))
  where
    split :
        (step : InterpolationStep)
        → interpolation_step depth quote c ≡ step
        → ((d : ℕ) (q : Quoting)
            → Settles
                (Holds (length raw + length (c ∷ t)))
                (interpolation_from u start d q (raw ++ c ∷ []) (i + 1) t))
        → Settles
            (Holds (length raw + length (c ∷ t)))
            (interpolation_from u start depth quote raw i (c ∷ t))
    split (continue d q) e ih = rw (e, interpolation_from) (ih d q)
    split close e ih = rw (e, interpolation_from) (close_interpolation-Holds u start i c raw t)
    split unbalanced e ih = rw (e, interpolation_from) raises

-- One round of the string loop: the expressions weigh what was read for them.
abbrev StepHolds : ℕ → StringStep → Type 0
StepHolds n (more s) = parts_weight s.parts + length s.unread < n
StepHolds n (finished v j r) = value_weight v + length r < n

module _ (u : Unicode) (s : StringScan) (c : ℕ) where
  abbrev Round : Text → StringStep → Type 0
  Round t = StepHolds (parts_weight s.parts + length (c ∷ t))

  close_string-Round : (t : Text) → Round t (close_string s t)
  unfolding close_string value_weight
  close_string-Round t = elim (Bool-cases s.has_expr) [
    | inl h ↦ rw h (omega (arith, flush_weight s.chars s.parts))
    | inr h ↦ rw h (omega arith)
  ]

  string_escape-Round : (t : Text) → Settles (Round t) (string_escape u s t)
  unfolding string_escape
  string_escape-Round t =
      Settles-bind (decode_escape-Moves u s.at b'"' c t)
        λ (v, i, r) a. returns (omega (arith, Reads-length a))

  string_interpolation-Round : (t : Text) → Settles (Round t) (string_interpolation u s t)
  unfolding string_interpolation scan_interpolation_expr parts_weight
  string_interpolation-Round t =
      Settles-bind (interpolation_from-Holds u (s.at + 1) 1 outside [] (s.at + 1) t) λ (e, i, r) h.
        returns (
          omega (
            arith,
            parts_weight-append (flush s.chars s.parts) (Part.expr e ∷ []),
            flush_weight s.chars s.parts,
          ))

  open_brace-Round : (t : Text) → Settles (Round t) (open_brace u s t)
  unfolding open_brace
  open_brace-Round [] = string_interpolation-Round []
  open_brace-Round (d ∷ t) =
      Settles-if (d == b'{') (λ h. returns (omega arith)) (λ h. string_interpolation-Round (d ∷ t))

  close_brace-Round : (t : Text) → Settles (Round t) (close_brace s t)
  unfolding close_brace
  close_brace-Round [] = raises
  close_brace-Round (d ∷ t) = Settles-if (d == b'}') (λ h. returns (omega arith)) (λ h. raises)

string_step-Holds :
    (u : Unicode) (start : ℕ) (s : StringScan) (t : Text)
    → Settles (StepHolds (parts_weight s.parts + length t)) (string_step u start s t)
unfolding string_step
string_step-Holds u start s [] = raises
string_step-Holds u start s (c ∷ t) =
    Settles-if (c == b'"') (λ _. returns (close_string-Round u s c t))
      λ _.
        Settles-if (c == b'\\') (λ _. string_escape-Round u s c t)
          λ _.
            Settles-if (c == b'{') (λ _. open_brace-Round u s c t)
              λ _.
                Settles-if (c == b'}') (λ _. close_brace-Round u s c t) λ _. returns (omega arith)

string_from-Holds :
    (u : Unicode) (start fuel : ℕ) (s : StringScan)
    → length s.unread < fuel
    → Settles
        (λ (v, j, r). value_weight v + length r < parts_weight s.parts + length s.unread)
        (string_from u start fuel s)
unfolding string_from
string_from-Holds u start zero s h = absurd (omega arith)
string_from-Holds u start (suc fuel) s h =
    Settles-bind
      (Settles-both (string_step-Holds u start s s.unread) (string_step-Moves u start s s.unread))
      (next λ s' h'. string_from-Holds u start fuel s' h')
  where
    next :
        ((s' : StringScan)
          → length s'.unread < fuel
          → Settles
              (λ (v, j, r). value_weight v + length r < parts_weight s'.parts + length s'.unread)
              (string_from u start fuel s'))
        → (step : StringStep)
        → StepHolds (parts_weight s.parts + length s.unread) step × StepMoves s.at s.unread step
        → Settles
            (λ (v, j, r). value_weight v + length r < parts_weight s.parts + length s.unread)
            (elim step [ more s' ↦ string_from u start fuel s' | finished v i r ↦ ok (v, i, r) ])
    next ih (more s') (a, m) =
        Settles-weaken (ih s' (omega (arith, Reads-length m))) λ (v, j, r) b. omega arith
    next ih (finished v i r) (a, m) = returns a

-- A string's token weighs less than the characters read for it.
pub scan_string-Holds :
    (u : Unicode) (start : ℕ) (t : Text)
    → Settles (λ (v, j, r). value_weight v + length r < length t) (scan_string u start t)
unfolding scan_string parts_weight
scan_string-Holds u start t =
    Settles-weaken
      (string_from-Holds u start (suc (length t))
        (record { at = start + 1; unread = t; chars = []; parts = []; has_expr = false })
        (omega arith))
      λ (v, j, r) h. omega arith
