-- ===== src/TypeRef/Edges.antt =====
-- The first and the last characters of a canonical string (compiler/type_ref.py): `strip` leaves it as
-- it is, and it ends in ` err` as the type says.
use new_cl_lang.Base.{
  ℕ, ◌≤◌, ◌≡◌, refl, ap, ◌∙◌, Bool, true, false, not, ◌||◌, [], ◌∷◌, ◌++◌, ◌==◌, arith,
  append_assoc, append-nil, length, inl, inr, All, Bool-cases,
}
use new_cl_lang.Base.Text.{Text, codes, text_eq, text_eq_refl}
use new_cl_lang.Python.{Unicode, pos, int_text, strip, skip_spaces, trim_end, ends_with}
use new_cl_lang.TypeRef.Syntax.{TypeRef}
use new_cl_lang.TypeRef.Format.{format, join_format, star_text, err_text}
use new_cl_lang.TypeRef.Decimal.{AsciiLaw}
use new_cl_lang.TypeRef.Canonical.{
  is_name_char, IsName, ends_fallible, Canonical, of_named, of_pointer, of_slice, of_array,
  of_function, of_generic,
}

abbrev pub head_ok : Unicode → Text → Bool
head_ok u [] = false
head_ok u (c ∷ t) = not (u.is_space c)

pub record Ends (u : Unicode) (t : Text) : Type 0 where
  pub kept : trim_end u t ≡ t
  pub nonempty : 1 ≤ length t

Ends-cons : (u : Unicode) (c : ℕ) (t : Text) → Ends u t → Ends u (c ∷ t)
unfolding trim_end
Ends-cons u c [] h = absurd (omega arith)
Ends-cons u c (d ∷ t) h = record { kept = rw h.kept; nonempty = omega arith }

pub Ends-append : (u : Unicode) (s t : Text) → Ends u t → Ends u (s ++ t)
Ends-append u [] t h = h
Ends-append u (c ∷ s) t h = Ends-cons u c (s ++ t) (Ends-append u s t h)

Ends-one : (u : Unicode) (c : ℕ) → u.is_space c ≡ false → Ends u (c ∷ [])
unfolding trim_end
Ends-one u c h = record { kept = rw h; nonempty = omega arith }

pub strip-fixed : (u : Unicode) (t : Text) → head_ok u t ≡ true → Ends u t → strip u t ≡ t
unfolding strip skip_spaces
strip-fixed u [] h e = cc
strip-fixed u (c ∷ t) h e = elim (Bool-cases (u.is_space c)) [
  | inl s ↦ ground arith
  | inr s ↦ rw s e.kept
]

pub head_ok-append : (u : Unicode) (s t : Text) → head_ok u s ≡ true → head_ok u (s ++ t) ≡ true
head_ok-append u [] t h = cc
head_ok-append u (c ∷ s) t h = h

IsName-head : (u : Unicode) (n : Text) → IsName u n → head_ok u n ≡ true
IsName-head u [] h = absurd h
IsName-head u (c ∷ cs) h = ground arith

IsName-Ends : (u : Unicode) (n : Text) → IsName u n → Ends u n
IsName-Ends u [] h = absurd h
IsName-Ends u (c ∷ []) h = Ends-one u c (ground arith)
IsName-Ends u (c ∷ d ∷ n) h = Ends-cons u c (d ∷ n) (IsName-Ends u (d ∷ n) h.1)

module _ (u : Unicode) (law : AsciiLaw u) where
  pub format-head : {r : TypeRef} → Canonical u r → head_ok u (format r) ≡ true
  unfolding format
  format-head (of_named {n} h) = IsName-head u n h
  format-head (of_pointer true c) = rw law.question_not_space
  format-head (of_pointer false c) = rw law.star_not_space
  format-head (of_slice c) = rw law.square_not_space
  format-head (of_array n h c) = rw law.square_not_space
  format-head (of_function fallible e cs c) = rw law.f_not_space
  format-head (of_generic {n} h cs) = head_ok-append u n _ (IsName-head u n h)

  pub err-Ends : (r : Text) (fallible : Bool) → Ends u r → Ends u (r ++ err_text fallible)
  err-Ends r true h =
      Ends-append u r (codes " err")
        (Ends-append u (codes " er") (codes "r") (Ends-one u b'r' law.r_not_space))
  err-Ends r false h = rw append-nil h

  pub format-Ends : {r : TypeRef} → Canonical u r → Ends u (format r)
  unfolding format
  format-Ends (of_named {n} h) = IsName-Ends u n h
  format-Ends (of_pointer nullable c) = Ends-append u (star_text nullable) _ (format-Ends c)
  format-Ends (of_slice c) = Ends-append u (codes "[]") _ (format-Ends c)
  format-Ends (of_array n h c) =
      Ends-cons u b'[' _ (Ends-append u (int_text (pos n)) _ (Ends-cons u b']' _ (format-Ends c)))
  format-Ends (of_function {ps} fallible e cs c) = Ends-append u (codes "fn(") _ (
      Ends-append u (join_format ps) _
        (Ends-append u (codes ")->") _ (err-Ends _ fallible (format-Ends c))))
  format-Ends (of_generic {n} {args} h cs) =
      Ends-append u n _ (
        Ends-cons u b'[' _ (Ends-append u (join_format args) _ (Ends-one u b']' law.end_not_space)))

-- The characters of `w` are not `d`.
abbrev Lacks : ℕ → Text → Type 0
Lacks d w = All (λ c. (d == c) ≡ false) w

text_eq-Lacks : (a : Text) (d : ℕ) (s w : Text) → Lacks d w → text_eq (a ++ (d ∷ s)) w ≡ false
unfolding text_eq
text_eq-Lacks [] d s [] h = refl
text_eq-Lacks [] d s (x ∷ w) h = rw h.0
text_eq-Lacks (c ∷ a) d s [] h = refl
text_eq-Lacks (c ∷ a) d s (x ∷ w) h = ground (arith, text_eq-Lacks a d s w h.1)

-- What stands up to a character that `w` lacks does not matter.
ends_with-Lacks :
    (a : Text) (d : ℕ) (s w : Text) → Lacks d w → ends_with w (a ++ (d ∷ s)) ≡ ends_with w s
unfolding ends_with
ends_with-Lacks [] d s w h = rw (text_eq-Lacks [] d s w h)
ends_with-Lacks (c ∷ a) d s w h = rw (text_eq-Lacks (c ∷ a) d s w h) (ends_with-Lacks a d s w h)

pub ends_with_self : (s w : Text) → ends_with w (s ++ w) ≡ true
unfolding ends_with
ends_with_self [] [] = unfold text_eq in refl
ends_with_self [] (c ∷ w) = rw text_eq_refl
ends_with_self (c ∷ s) w = ground (arith, ends_with_self s w)

name-ends_with :
    (u : Unicode) (n : Text)
    → All (λ d. is_name_char u d ≡ true) n
    → ends_with (codes " err") n ≡ false
unfolding ends_with text_eq
name-ends_with u [] h = refl
name-ends_with u (c ∷ n) h = ground (arith, name-ends_with u n h.1)

IsName-ends_with : (u : Unicode) (n : Text) → IsName u n → ends_with (codes " err") n ≡ false
IsName-ends_with u [] h = absurd h
IsName-ends_with u (c ∷ n) h = name-ends_with u (c ∷ n) h

err-Lacks : (d : ℕ) → (d == b' ' || d == b'e' || d == b'r') ≡ false → Lacks d (codes " err")
err-Lacks d h = ground arith

-- The canonical string of a type ends in ` err` exactly when the type says so.
pub ends_with-format :
    {u : Unicode} {r : TypeRef}
    → Canonical u r
    → ends_with (codes " err") (format r) ≡ ends_fallible r
unfolding format ends_fallible
ends_with-format {u} (of_named {n} h) = IsName-ends_with u n h
ends_with-format (of_pointer true c) =
    ends_with-Lacks (codes "?") b'*' _ (codes " err") (err-Lacks b'*' refl) ∙ ends_with-format c
ends_with-format (of_pointer false c) =
    ends_with-Lacks [] b'*' _ (codes " err") (err-Lacks b'*' refl) ∙ ends_with-format c
ends_with-format (of_slice c) =
    ends_with-Lacks (codes "[") b']' _ (codes " err") (err-Lacks b']' refl) ∙ ends_with-format c
ends_with-format (of_array n h c) =
    ends_with-Lacks (b'[' ∷ int_text (pos n)) b']' _ (codes " err") (err-Lacks b']' refl)
    ∙ ends_with-format c
ends_with-format (of_function {ps} {r} true e cs c) =
    ap (ends_with (codes " err")) (simp append_assoc)
    ∙ ends_with_self (codes "fn(" ++ (join_format ps ++ (codes ")->" ++ format r))) (codes " err")
ends_with-format (of_function {ps} {r} false e cs c) =
    ap (ends_with (codes " err")) (simp append_assoc)
    ∙ ends_with-Lacks (codes "fn(" ++ (join_format ps ++ codes ")-")) b'>' (format r ++ [])
        (codes " err") (err-Lacks b'>' refl)
    ∙ ap (ends_with (codes " err")) (append-nil (format r))
    ∙ ends_with-format c
ends_with-format (of_generic {n} {args} h cs) =
    ap (ends_with (codes " err")) (simp append_assoc)
    ∙ ends_with-Lacks (n ++ (b'[' ∷ join_format args)) b']' [] (codes " err") (err-Lacks b']' refl)
    ∙ unfold ends_with text_eq in refl
