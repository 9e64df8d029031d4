-- ===== src/Python.antt =====
-- Python's text functions that the compiler calls. The Unicode tables behind `isdigit`, `isalpha`,
-- `isalnum`, `isspace` and `int` are a parameter, with what is relied on of them as named laws.
use new_cl_lang.Base.{
  ℕ, zero, suc, ◌+◌, ◌*◌, ◌-◌, ◌/◌, ◌%◌, ◌≡◌, Bool, true, false, ◌&&◌, ◌||◌, [], ◌∷◌, ◌++◌, Option,
  none, some, ltb, leb, ◌==◌, if◌then◌else◌, length,
}
use new_cl_lang.Base.Text.{Text, text_eq}

pub record Unicode : Type 0 where
  pub is_digit : ℕ → Bool
  pub is_alpha : ℕ → Bool
  pub is_alnum : ℕ → Bool
  pub is_space : ℕ → Bool
  -- The value of a decimal digit, for `int`. Fewer characters have one than pass `isdigit`.
  pub decimal : ℕ → Option ℕ

-- "A character c is alphanumeric if one of the following returns True: c.isalpha(), ..."
pub record AlnumLaw (u : Unicode) : Type 0 where
  pub alnum_of_alpha : (c : ℕ) → u.is_alpha c ≡ true → u.is_alnum c ≡ true

unfoldable pub skip_spaces : Unicode → Text → Text
skip_spaces u [] = []
skip_spaces u (c ∷ t) = let r = skip_spaces u t in if u.is_space c then r else c ∷ t

unfoldable pub trim_end : Unicode → Text → Text
trim_end u [] = []
trim_end u (c ∷ t) = trim_cons (trim_end u t)
  where
    trim_cons : Text → Text
    trim_cons [] = if u.is_space c then [] else c ∷ []
    trim_cons (d ∷ r) = c ∷ d ∷ r

-- `text.strip()`
unfoldable pub strip : Unicode → Text → Text
strip u t = trim_end u (skip_spaces u t)

-- An integer, with `negsuc n` for -(n + 1).
pub data ℤ : Type 0 where
  pos negsuc : ℕ → ℤ

abbrev within : ℕ → ℕ → ℕ → Bool
within lo hi c = leb lo c && leb c hi

-- The value of a character as a digit in base 16.
unfoldable pub hex_digit : Unicode → ℕ → Option ℕ
hex_digit u c =
    if within b'a' b'f' c
    then some (c - b'a' + 10)
    else if within b'A' b'F' c
    then some (c - b'A' + 10)
    else u.decimal c

-- The digits of an integer literal in a base, with single underscores between digits allowed. The
-- flag says that the character before was a digit.
unfoldable pub digits_value : (ℕ → Option ℕ) → ℕ → Bool → ℕ → Text → Option ℕ
digits_value value base after acc [] = if after then some acc else none
digits_value value base after acc (c ∷ t) = elim (value c) [
  | some d ↦ digits_value value base true (acc * base + d) t
  | none ↦ elim (after && c == b'_') [ true ↦ digits_value value base false acc t | false ↦ none ]
]

-- `int` reads a digit of any script as the ASCII digit of its value.
abbrev is_zero_digit : Unicode → ℕ → Bool
is_zero_digit u c = elim (u.decimal c) [ some d ↦ d == 0 | none ↦ false ]

-- An optional `0x`, after which one underscore may stand.
unfoldable pub after_hex_prefix : Unicode → Text → Text
after_hex_prefix u (z ∷ x ∷ c ∷ t) =
    if is_zero_digit u z && (x == b'x' || x == b'X')
    then (if c == b'_' then t else c ∷ t)
    else z ∷ x ∷ c ∷ t
after_hex_prefix u t = t

abbrev negate : ℕ → ℤ
negate zero = pos 0
negate (suc n) = negsuc n

abbrev option_map {ℓ} : {A B : Type ℓ} → (A → B) → Option A → Option B
option_map f none = none
option_map f (some a) = some (f a)

abbrev magnitude16 : Unicode → Text → Option ℕ
magnitude16 u t = digits_value (hex_digit u) 16 false 0 (after_hex_prefix u t)

unfoldable pub signed16 : Unicode → Text → Option ℤ
signed16 u [] = none
signed16 u (s ∷ r) =
    if s == b'-'
    then option_map negate (magnitude16 u r)
    else if s == b'+'
    then option_map pos (magnitude16 u r)
    else option_map pos (magnitude16 u (s ∷ r))

-- `int(text, 16)`, where `none` is a ValueError.
unfoldable pub int_base16 : Unicode → Text → Option ℤ
int_base16 u t = signed16 u (strip u t)

-- The limit of CPython on the digits of a decimal conversion.
abbrev pub max_str_digits : ℕ
max_str_digits = 4300

unfoldable pub decimal_value : Unicode → ℕ → Text → Option ℕ
decimal_value u acc [] = some acc
decimal_value u acc (c ∷ t) = elim (u.decimal c) [
  | some d ↦ decimal_value u (acc * 10 + d) t
  | none ↦ none
]

-- `int(text)` for a text of characters that pass `isdigit`; `none` is a ValueError.
unfoldable pub int_base10 : Unicode → Text → Option ℕ
unfolding decimal_value
int_base10 u t = if ltb max_str_digits (length t) then none else decimal_value u 0 t

-- The characters of a text that count towards that limit.
unfoldable pub digit_count : Text → ℕ
digit_count [] = 0
digit_count (c ∷ t) = let rest = digit_count t in if c == b'_' then rest else suc rest

abbrev magnitude10 : Unicode → Text → Option ℕ
magnitude10 u t =
    if ltb max_str_digits (digit_count t) then none else digits_value u.decimal 10 false 0 t

unfoldable pub signed10 : Unicode → Text → Option ℤ
signed10 u [] = none
signed10 u (s ∷ r) =
    if s == b'-'
    then option_map negate (magnitude10 u r)
    else if s == b'+'
    then option_map pos (magnitude10 u r)
    else option_map pos (magnitude10 u (s ∷ r))

-- `int(text)` for any text: surrounding whitespace, a sign, digits with single underscores between.
unfoldable pub int_of : Unicode → Text → Option ℤ
int_of u t = signed10 u (strip u t)

-- `str(n)` for a number, on fuel for its digits.
unfoldable pub digits_from : ℕ → ℕ → Text
digits_from zero n = []
digits_from (suc fuel) n =
    let front = digits_from fuel (n / 10) in
    if ltb n 10 then (b'0' + n) ∷ [] else front ++ (b'0' + n % 10) ∷ []

unfoldable pub decimal_text : ℕ → Text
decimal_text n = digits_from (suc n) n

-- `str(n)` for an integer
unfoldable pub int_text : ℤ → Text
int_text (pos n) = decimal_text n
int_text (negsuc n) = b'-' ∷ decimal_text (suc n)

-- `t.find(c)` for one character, where `none` is -1.
unfoldable pub find_char : ℕ → Text → Option ℕ
find_char c [] = none
find_char c (d ∷ t) =
    let later = find_char c t in
    if d == c then some 0 else elim later [ some i ↦ some (suc i) | none ↦ none ]

-- `t.endswith(w)`
unfoldable pub ends_with : Text → Text → Bool
ends_with w [] = text_eq [] w
ends_with w (c ∷ t) = text_eq (c ∷ t) w || ends_with w t
