-- ===== src/Lexer/Progress/Escapes.antt =====
-- Escapes and character literals move the cursor by what they read.
use new_cl_lang.Base.{
  ℕ, ◌+◌, ◌≡◌, refl, true, inl, inr, [], ◌∷◌, ◌++◌, length, length-append, append_assoc, arith,
  if◌then◌else◌, some, none, Option-cases, Settles, returns, raises, Settles-if, Settles-weaken,
  Settles-bind, ok, raised, Bool-cases, ◌==◌,
}
use new_cl_lang.Base.Text.{Text}
use new_cl_lang.Lexer.Token.{invalid_unicode, invalid_code_point, value_error}
use new_cl_lang.Python.{Unicode, pos, negsuc, int_base16}
use new_cl_lang.Lexer.Escape.{
  is_scalar_value, until_brace, code_point_of, unicode_escape, decode_escape,
}
use new_cl_lang.Lexer.Strings.{scan_char, close_char}
use new_cl_lang.Lexer.Progress.Cursor.{Reads, Reads-one, Reads-two, Reads-trans, Reads-less, Moves}

until_brace-append : (t ds r : Text) → until_brace t ≡ some (ds, r) → t ≡ ds ++ (b'}' ∷ r)
unfolding until_brace
until_brace-append [] ds r e = cc
until_brace-append (c ∷ t) ds r e = elim (Option-cases (until_brace t)) [
  | inl none_left ↦ ground arith
  | inr ((es, q), found) ↦ ground (arith, until_brace-append t es q found)
]

-- For any text between its braces, a unicode escape raises an exception or gives a code point that is
-- at most 0x10FFFF and no surrogate.
pub code_point_of-Settles :
    (u : Unicode) (i : ℕ) (ds : Text)
    → Settles (λ cp. is_scalar_value cp ≡ true) (code_point_of u i ds)
unfolding code_point_of
code_point_of-Settles u i [] = raises
code_point_of-Settles u i (d ∷ ds) =
    elim (int_base16 u (d ∷ ds))
      as (λ n.
        Settles (λ cp. is_scalar_value cp ≡ true)
          (elim n [
            | none ↦ raised (invalid_unicode i)
            | some (pos cp) ↦ if is_scalar_value cp then ok cp else raised (invalid_code_point cp i)
            | some (negsuc n) ↦ raised value_error
          ])) [
            | none ↦ raises
            | some (pos cp) ↦ Settles-if (is_scalar_value cp) (λ h. returns h) (λ h. raises)
            | some (negsuc n) ↦ raises
          ]

Reads-braced :
    (i b ec c : ℕ) (t ds r : Text)
    → t ≡ ds ++ (b'}' ∷ r)
    → Reads 2 i (b ∷ ec ∷ c ∷ t) (i + 3 + length ds + 1) r
Reads-braced i b ec c t ds r e = record {
  piece = b ∷ ec ∷ c ∷ (ds ++ b'}' ∷ []);
  splits = simp (e, append_assoc);
  moved = omega (arith, length-append ds (b'}' ∷ []));
  enough = omega arith;
}

-- An escape, with the backslash in front of it, has two characters or more.
unicode_escape-Moves :
    (u : Unicode) (i b ec : ℕ) (t : Text)
    → Settles (Moves 2 i (b ∷ ec ∷ t)) (unicode_escape u i ec t)
unfolding unicode_escape
unicode_escape-Moves u i b ec [] = returns (Reads-two i b ec [])
unicode_escape-Moves u i b ec (c ∷ t) = elim (Bool-cases (c == b'{')) [
  | inr plain ↦ rw plain (returns (Reads-two i b ec (c ∷ t)))
  | inl braced ↦ elim (Option-cases (until_brace t)) [
    | inl open_ended ↦ rw (braced, open_ended) raises
    | inr ((ds, r), found) ↦
        rw (braced, found)
          (Settles-bind (code_point_of-Settles u i ds)
            λ cp _. returns (Reads-braced i b ec c t ds r (until_brace-append t ds r found)))
  ]
]

pub decode_escape-Moves :
    (u : Unicode) (i quote b : ℕ) (t : Text)
    → Settles (Moves 2 i (b ∷ t)) (decode_escape u i quote t)
unfolding decode_escape
decode_escape-Moves u i quote b [] = raises
decode_escape-Moves u i quote b (ec ∷ t) =
    search (Settles-if, returns, Reads-two i b ec t, unicode_escape-Moves u i b ec t) depth 20

-- A character literal, on the text from its opening quote `b`, has two characters or more.
close_char-Moves :
    (start i : ℕ) (value : Text) (t : Text) → Settles (Moves 1 i t) (close_char start value i t)
unfolding close_char
close_char-Moves start i value [] = raises
close_char-Moves start i [] (c ∷ t) = raises
close_char-Moves start i (v ∷ []) (c ∷ t) =
    Settles-if (c == b'\'') (λ h. returns (Reads-one i c t)) (λ h. raises)
close_char-Moves start i (v ∷ w ∷ vs) (c ∷ t) = raises

pub scan_char-Moves :
    (u : Unicode) (i b : ℕ) (t : Text) → Settles (Moves 2 i (b ∷ t)) (scan_char u i t)
unfolding scan_char
scan_char-Moves u i b [] = raises
scan_char-Moves u i b (c ∷ t) =
    Settles-if (c == b'\'') (λ h. raises)
      λ _.
        Settles-if (c == b'\\')
          (λ _. Settles-bind (decode_escape-Moves u (i + 1) b'\'' c t) λ (v, j, r) a.
            Settles-weaken (close_char-Moves i j v r) λ (w, k, s) z.
              Reads-less 4 2 (Reads-trans (Reads-one i b (c ∷ t)) (Reads-trans a z)) (omega arith)
                refl)
          (λ _.
            Settles-weaken (close_char-Moves i (i + 2) (c ∷ []) t)
              λ (w, k, s) z. Reads-less 3 2 (Reads-trans (Reads-two i b c t) z) (omega arith) refl)
