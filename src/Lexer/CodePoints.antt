-- ===== src/Lexer/CodePoints.antt =====
-- compiler/lexer.py: which unicode escapes `_decode_escape` accepts, and what it gives for them.
use new_cl_lang.Base.{
  ℕ, ◌+◌, ◌≤◌, ◌<◌, ◌≡◌, ◌≢◌, ◌↔◌, ◌⊎◌, refl, sym, ◌∙◌, true, inl, inr, [], ◌∷◌, ◌++◌, length,
  arith, some, none, Option-cases, ok, raised, out_of_fuel, Outcome, subst, ◌>>=◌, ltb, Bool-cases,
}
use new_cl_lang.Base.Text.{Text}
use new_cl_lang.Python.{Unicode, pos, negsuc, int_base16, signed16, strip, trim_end, skip_spaces}
use new_cl_lang.Lexer.Escape.{
  is_scalar_value, until_brace, code_point_of, unicode_escape, decode_escape,
}

-- The Unicode scalar values: the code points but for the surrogates.
abbrev pub IsScalar : ℕ → Type 0
IsScalar cp = (cp < 0xD800) ⊎ ((0xE000 ≤ cp) × (cp ≤ 0x10FFFF))

-- No character is a closing brace.
abbrev pub Unbraced : Text → Type 0
Unbraced [] = Unit
Unbraced (c ∷ ds) = (c ≢ b'}') × Unbraced ds

until_brace-Unbraced : (ds r : Text) → Unbraced ds → until_brace (ds ++ (b'}' ∷ r)) ≡ some (ds, r)
unfolding until_brace
until_brace-Unbraced [] r h = refl
until_brace-Unbraced (c ∷ ds) r h = ground (arith, until_brace-Unbraced ds r h.1)

is_scalar_value_iff : (cp : ℕ) → (is_scalar_value cp ≡ true) ↔ IsScalar cp
is_scalar_value_iff cp = (in_range, λ h. ground arith)
  where
    in_range : is_scalar_value cp ≡ true → IsScalar cp
    in_range h = elim (Bool-cases (ltb cp 0xD800)) [
      | inl e ↦ inl (ground arith)
      | inr e ↦ inr (ground arith, ground arith)
    ]

int_base16-nil : (u : Unicode) → int_base16 u [] ≡ none
unfolding int_base16 signed16 strip trim_end skip_spaces
int_base16-nil u = refl

code_point_of-accepts :
    (u : Unicode) (i : ℕ) (ds : Text) (cp : ℕ)
    → code_point_of u i ds ≡ ok cp
    → (int_base16 u ds ≡ some (pos cp)) × IsScalar cp
unfolding code_point_of
code_point_of-accepts u i [] cp h = cc
code_point_of-accepts u i (d ∷ ds) cp h = elim (Option-cases (int_base16 u (d ∷ ds))) [
  | inl e ↦ ground arith
  | inr (negsuc n, e) ↦ ground arith
  | inr (pos n, e) ↦ elim (Bool-cases (is_scalar_value n)) [
    | inl fits ↦
        (let same : n ≡ cp = ground arith in
          (ground arith, subst IsScalar same ((is_scalar_value_iff n).0 fits)))
    | inr other ↦ ground arith
  ]
]

code_point_of-value :
    (u : Unicode) (i : ℕ) (ds : Text) (cp : ℕ)
    → int_base16 u ds ≡ some (pos cp)
    → IsScalar cp
    → code_point_of u i ds ≡ ok cp
unfolding code_point_of
code_point_of-value u i [] cp e h = absurd (cc (int_base16-nil u))
code_point_of-value u i (d ∷ ds) cp e h = rw (e, (is_scalar_value_iff cp).1 h, code_point_of) refl

decode_escape-braced :
    (u : Unicode) (i quote : ℕ) (ds r : Text)
    → quote ≢ b'u'
    → Unbraced ds
    → decode_escape u i quote (b'u' ∷ b'{' ∷ (ds ++ (b'}' ∷ r)))
      ≡ (code_point_of u i ds >>= λ cp. ok (cp ∷ [], i + 3 + length ds + 1, r))
unfolding decode_escape unicode_escape
decode_escape-braced u i quote ds r n h = ground (arith, until_brace-Unbraced ds r h)

bind-eq-ok :
    {E A B : Type 0} (m : Outcome E A) (f : A → Outcome E B) (b : B)
    → (m >>= f) ≡ ok b
    → (a : A) × (m ≡ ok a) × (f a ≡ ok b)
bind-eq-ok (ok a) f b h = (a, refl, h)
bind-eq-ok (raised e) f b h = cc
bind-eq-ok out_of_fuel f b h = cc

-- With a quote other than `u`, `\u{...}`, with any text that has no closing brace between the braces, is read
-- exactly when `int(text, 16)` is a Unicode scalar value; it then gives that one character, the position
-- behind the closing brace, and the text from there on.
pub decode_escape-code_point_iff :
    (u : Unicode) (i quote : ℕ) (ds r v s : Text) (j : ℕ)
    → quote ≢ b'u'
    → Unbraced ds
    → (decode_escape u i quote (b'u' ∷ b'{' ∷ (ds ++ (b'}' ∷ r))) ≡ ok (v, j, s)) ↔ (
        (cp : ℕ) × (int_base16 u ds ≡ some (pos cp))
        × IsScalar cp
        × (v ≡ cp ∷ [])
        × (j ≡ i + length ds + 4)
        × (s ≡ r))
decode_escape-code_point_iff u i quote ds r v s j n h = (
  λ e.
      (let (cp, found, result) =
          bind-eq-ok _ _ _ (sym (decode_escape-braced u i quote ds r n h) ∙ e) in
        let (value, scalar) = code_point_of-accepts u i ds cp found in
        (cp, value, scalar, cc, ground arith, cc)),
  λ (cp, value, scalar, v_eq, j_eq, s_eq).
      decode_escape-braced u i quote ds r n h
      ∙ rw (code_point_of-value u i ds cp value scalar) (ground arith),
)
