-- ===== src/TypeRef/Split.antt =====
-- compiler/type_ref.py: `split_top_level` and `_find_matching`.
use new_cl_lang.Base.{
  ℕ, zero, suc, ◌+◌, Bool, true, false, ◌&&◌, List, [], ◌∷◌, ◌++◌, Option, none, some, ◌==◌,
  if◌then◌else◌,
}
use new_cl_lang.Base.Text.{Text}
use new_cl_lang.Python.{Unicode, ℤ, pos, negsuc, strip}

-- The counters are integers: a stray closing bracket takes them below zero.
abbrev pub incr : ℤ → ℤ
incr (pos n) = pos (suc n)
incr (negsuc zero) = pos 0
incr (negsuc (suc n)) = negsuc n

abbrev pub decr : ℤ → ℤ
decr (pos zero) = negsuc 0
decr (pos (suc n)) = pos n
decr (negsuc n) = negsuc (suc n)

abbrev pub is_zero : ℤ → Bool
is_zero (pos zero) = true
is_zero (pos (suc n)) = false
is_zero (negsuc n) = false

-- What one character does to the loop of `split_top_level`: the counters, or the end of a part.
pub data SplitStep : Type 0 where
  level : ℤ → ℤ → SplitStep
  cut : SplitStep

unfoldable pub split_step : ℕ → ℤ → ℤ → ℕ → SplitStep
split_step sep square paren c =
    if c == b'['
    then level (incr square) paren
    else if c == b']'
    then level (decr square) paren
    else if c == b'('
    then level square (incr paren)
    else if c == b')'
    then level square (decr paren)
    else if c == sep && (is_zero square && is_zero paren)
    then cut
    else level square paren

-- The parts, with `s[start:i]` as `part`.
unfoldable pub split_from : ℕ → ℤ → ℤ → Text → Text → List Text
split_from sep square paren part [] = part ∷ []
split_from sep square paren part (c ∷ t) = elim (split_step sep square paren c) [
  | level a b ↦ split_from sep a b (part ++ c ∷ []) t
  | cut ↦ part ∷ split_from sep square paren [] t
]

-- `[p.strip() for p in parts if p.strip()]`
abbrev pub keep_part : Text → List Text → List Text
keep_part [] rest = rest
keep_part (c ∷ cs) rest = (c ∷ cs) ∷ rest

unfoldable pub keep_parts : Unicode → List Text → List Text
keep_parts u [] = []
keep_parts u (p ∷ ps) = keep_part (strip u p) (keep_parts u ps)

unfoldable pub split_top_level : Unicode → ℕ → Text → List Text
split_top_level u sep s = keep_parts u (split_from sep (pos 0) (pos 0) [] s)

-- What one character does to the loop of `_find_matching`.
pub data MatchStep : Type 0 where
  deeper : ℤ → MatchStep
  closed : MatchStep

unfoldable pub match_step : ℕ → ℕ → ℤ → ℕ → MatchStep
match_step o c depth ch =
    if ch == o
    then deeper (incr depth)
    else if ch == c
    then (if is_zero (decr depth) then closed else deeper (decr depth))
    else deeper depth

abbrev pub shift : ℕ → Option ℕ → Option ℕ
shift n none = none
shift n (some i) = some (n + i)

-- How far on the bracket closes, from a place in the text.
unfoldable pub matching_from : ℕ → ℕ → ℤ → Text → Option ℕ
matching_from o c depth [] = none
matching_from o c depth (ch ∷ t) = elim (match_step o c depth ch) [
  | deeper d ↦ shift 1 (matching_from o c d t)
  | closed ↦ some 0
]

-- `_find_matching(s, start, open_ch, close_ch)` on `s[start:]`, the index counted from `start`.
unfoldable pub find_matching : ℕ → ℕ → Text → Option ℕ
find_matching o c s = matching_from o c (pos 0) s
