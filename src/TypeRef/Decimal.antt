-- ===== src/TypeRef/Decimal.antt =====
-- compiler/type_ref.py: an array's length is read back from its decimal text.
use new_cl_lang.Base.{
  ℕ, zero, suc, ◌+◌, ◌*◌, ◌/◌, ◌%◌, ◌≤◌, ◌<◌, ◌≡◌, refl, ap, ◌∙◌, Bool, true, false, List, [], ◌∷◌,
  ◌++◌, some, ltb, leb, arith, append_assoc, append-nil, length, length-append, inl, inr, All,
  Bool-cases,
}
use new_cl_lang.Base.Text.{Text}
use new_cl_lang.Python.{
  Unicode, pos, digits_value, digits_from, decimal_text, int_of, signed10, digit_count, strip,
  max_str_digits, skip_spaces, trim_end,
}

-- What is relied on of the Unicode tables: the ten ASCII digits have their values and are no
-- spaces, and the characters of type strings that are not in names are no spaces.
pub record AsciiLaw (u : Unicode) : Type 0 where
  pub decimal_digit : (d : ℕ) → d < 10 → u.decimal (b'0' + d) ≡ some d
  pub digit_not_space : (d : ℕ) → d < 10 → u.is_space (b'0' + d) ≡ false
  pub question_not_space : u.is_space b'?' ≡ false
  pub star_not_space : u.is_space b'*' ≡ false
  pub square_not_space : u.is_space b'[' ≡ false
  pub end_not_space : u.is_space b']' ≡ false
  pub f_not_space : u.is_space b'f' ≡ false
  pub r_not_space : u.is_space b'r' ≡ false

abbrev pub IsDigit : ℕ → Type 0
IsDigit c = (d : ℕ) × (d < 10) × (c ≡ b'0' + d)

All-append {ℓ κ} :
    {A : Type ℓ} (P : A → Type κ) (xs ys : List A) → All P xs → All P ys → All P (xs ++ ys)
All-append P [] ys hx hy = hy
All-append P (x ∷ xs) ys hx hy = (hx.0, All-append P xs ys hx.1 hy)

digits_from-IsDigit : (fuel n : ℕ) → All IsDigit (digits_from fuel n)
unfolding digits_from
digits_from-IsDigit zero n = tt
digits_from-IsDigit (suc fuel) n = elim (Bool-cases (ltb n 10)) [
  | inl small ↦ rw small ((n, ground arith, refl), tt)
  | inr big ↦ rw big (
      All-append IsDigit (digits_from fuel (n / 10)) ((b'0' + n % 10) ∷ [])
        (digits_from-IsDigit fuel (n / 10)) ((n % 10, omega arith, refl), tt))
]

pub decimal_text-IsDigit : (n : ℕ) → All IsDigit (decimal_text n)
unfolding decimal_text
decimal_text-IsDigit n = digits_from-IsDigit (suc n) n

pub decimal_text_pos : (n : ℕ) → 1 ≤ length (decimal_text n)
unfolding decimal_text digits_from
decimal_text_pos n = elim (Bool-cases (ltb n 10)) [
  | inl small ↦ rw small (omega arith)
  | inr big ↦ rw big (omega (arith, length-append (digits_from n (n / 10)) ((b'0' + n % 10) ∷ [])))
]

-- A text with no space in it is its own `strip`.
pub strip-no_space : (u : Unicode) (t : Text) → All (λ c. u.is_space c ≡ false) t → strip u t ≡ t
unfolding strip skip_spaces trim_end
strip-no_space u [] h = refl
strip-no_space u (c ∷ t) h = rw h.0 (trim_end-no_space u (c ∷ t) h)
  where
    trim_end-no_space :
        (u : Unicode) (t : Text) → All (λ c. u.is_space c ≡ false) t → trim_end u t ≡ t
    trim_end-no_space u [] h = refl
    trim_end-no_space u (c ∷ []) h = rw h.0
    trim_end-no_space u (c ∷ d ∷ t) h = rw (trim_end-no_space u (d ∷ t) h.1)

module _ (u : Unicode) (law : AsciiLaw u) where
  digits_value-digit :
      (after : Bool) (acc d : ℕ) (rest : Text)
      → d < 10
      → digits_value u.decimal 10 after acc ((b'0' + d) ∷ rest)
        ≡ digits_value u.decimal 10 true (acc * 10 + d) rest
  unfolding digits_value
  digits_value-digit after acc d rest h = rw (law.decimal_digit d h, digits_value)

  digits_from-value :
      (fuel n : ℕ) (rest : Text)
      → n < fuel
      → digits_value u.decimal 10 false 0 (digits_from fuel n ++ rest)
        ≡ digits_value u.decimal 10 true n rest
  unfolding digits_from
  digits_from-value zero n rest h = absurd (omega arith)
  digits_from-value (suc fuel) n rest h = elim (Bool-cases (ltb n 10)) [
    | inl small ↦ rw small (
        digits_value-digit false 0 n rest (ground arith)
        ∙ ap (λ k. digits_value u.decimal 10 true k rest) (omega arith))
    | inr big ↦
        rw (big, append_assoc)
          (digits_from-value fuel (n / 10) ((b'0' + n % 10) ∷ rest) (ground arith)
            ∙ digits_value-digit true (n / 10) (n % 10) rest (omega arith)
            ∙ ap (λ k. digits_value u.decimal 10 true k rest) (omega arith))
  ]

  IsDigit-no_space : (t : Text) → All IsDigit t → All (λ c. u.is_space c ≡ false) t
  IsDigit-no_space [] h = tt
  IsDigit-no_space (c ∷ t) (d, h) = (rw d.2 (law.digit_not_space d.0 d.1), IsDigit-no_space t h)

  digit_count-le : (t : Text) → digit_count t ≤ length t
  unfolding digit_count
  digit_count-le [] = omega arith
  digit_count-le (c ∷ t) = ground (arith, digit_count-le t)

  int_of-digits :
      (t : Text) (n : ℕ)
      → All IsDigit t
      → leb (length t) max_str_digits ≡ true
      → digits_value u.decimal 10 false 0 t ≡ some n
      → int_of u t ≡ some (pos n)
  unfolding int_of signed10
  int_of-digits [] n ds short v = unfold digits_value in cc
  int_of-digits (c ∷ t) n ds short v =
      rw (strip-no_space u (c ∷ t) (IsDigit-no_space (c ∷ t) ds))
        (ground (arith, digit_count-le (c ∷ t)))

  -- `int(str(n))` is `n`, within the limit on digits.
  pub int_of-decimal_text :
      (n : ℕ)
      → leb (length (decimal_text n)) max_str_digits ≡ true
      → int_of u (decimal_text n) ≡ some (pos n)
  unfolding decimal_text
  int_of-decimal_text n short =
      int_of-digits (digits_from (suc n) n) n (digits_from-IsDigit (suc n) n) short (
        rw (← append-nil (digits_from (suc n) n))
          (digits_from-value (suc n) n [] (omega arith) ∙ unfold digits_value in refl))
