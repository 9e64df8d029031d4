-- ===== src/Lexer/Strings.antt =====
-- compiler/lexer.py: `_scan_interpolation_expr`, `_scan_string` and `_scan_char`.
use new_cl_lang.Base.{
  ℕ, zero, suc, ◌+◌, ◌-◌, Bool, true, false, ◌||◌, List, [], ◌∷◌, ◌++◌, ltb, ◌==◌, if◌then◌else◌,
  length, Outcome, ok, raised, out_of_fuel, ◌>>=◌,
}
use new_cl_lang.Base.Text.{Text}
use new_cl_lang.Lexer.Token.{
  Part, literal, expr, TokenValue, text, interpolated, LexError, empty_interpolation,
  unbalanced_interpolation, unterminated_interpolation, unescaped_brace, unterminated_string,
  unterminated_char, empty_char, char_not_single,
}
use new_cl_lang.Python.{Unicode, strip}
use new_cl_lang.Lexer.Escape.{decode_escape}

-- The variable `quote` of the interpolation scan. `i += 2` at a backslash is the state `escaped`, in
-- which the next character is passed over whatever it is.
pub data Quoting : Type 0 where
  outside : Quoting
  inside escaped : ℕ → Quoting

-- What one character does to the scan.
pub data InterpolationStep : Type 0 where
  continue : ℕ → Quoting → InterpolationStep
  close unbalanced : InterpolationStep

abbrev is_open_bracket : ℕ → Bool
is_open_bracket c = c == b'(' || c == b'[' || c == b'{'

unfoldable pub interpolation_step : ℕ → Quoting → ℕ → InterpolationStep
interpolation_step depth (escaped q) c = continue depth (inside q)
interpolation_step depth (inside q) c =
    if c == b'\\'
    then continue depth (escaped q)
    else if c == q
    then continue depth outside
    else continue depth (inside q)
interpolation_step depth outside c =
    if c == b'\'' || c == b'"'
    then continue depth (inside c)
    else if is_open_bracket c
    then continue (depth + 1) outside
    else if c == b'}'
    then (if depth - 1 == 0 then close else continue (depth - 1) outside)
    else if c == b')' || c == b']'
    then (if ltb (depth - 1) 1 then unbalanced else continue (depth - 1) outside)
    else continue depth outside

-- `source[start:i].strip()`, which must not be empty
unfoldable pub close_interpolation :
    Unicode → ℕ → Text → ℕ → Text → Outcome LexError (Text × ℕ × Text)
close_interpolation u start raw i t = elim (strip u raw) [
  | [] ↦ raised (empty_interpolation (start - 1))
  | c ∷ cs ↦ ok (c ∷ cs, i + 1, t)
]

-- The loop of `_scan_interpolation_expr(source, start)` at `i`, with `source[start:i]` as read so far.
unfoldable pub interpolation_from :
    Unicode → ℕ → ℕ → Quoting → Text → ℕ → Text → Outcome LexError (Text × ℕ × Text)
unfolding interpolation_step close_interpolation
interpolation_from u start depth quote raw i [] = raised (unterminated_interpolation (start - 1))
interpolation_from u start depth quote raw i (c ∷ t) = elim (interpolation_step depth quote c) [
  | continue d q ↦ interpolation_from u start d q (raw ++ c ∷ []) (i + 1) t
  | close ↦ close_interpolation u start raw i t
  | unbalanced ↦ raised (unbalanced_interpolation (start - 1))
]

unfoldable pub scan_interpolation_expr : Unicode → ℕ → Text → Outcome LexError (Text × ℕ × Text)
unfolding interpolation_from
scan_interpolation_expr u start t = interpolation_from u start 1 outside [] start t

-- The local variables of `_scan_string`: the cursor, `chars`, `parts` and `interpolated`.
pub record StringScan : Type 0 where
  pub at : ℕ
  pub unread : Text
  pub chars : Text
  pub parts : List Part
  pub has_expr : Bool

-- `if literal: parts.append(("literal", literal))`
abbrev pub flush : Text → List Part → List Part
flush [] parts = parts
flush (c ∷ cs) parts = parts ++ literal (c ∷ cs) ∷ []

-- One round of the loop goes on, or returns the token's value with the cursor behind the string.
pub data StringStep : Type 0 where
  more : StringScan → StringStep
  finished : TokenValue → ℕ → Text → StringStep

unfoldable pub close_string : StringScan → Text → StringStep
close_string s t =
    if s.has_expr
    then finished (interpolated (flush s.chars s.parts)) (s.at + 1) t
    else finished (text s.chars) (s.at + 1) t

unfoldable pub string_escape : Unicode → StringScan → Text → Outcome LexError StringStep
string_escape u s t = decode_escape u s.at b'"' t >>= λ (v, i, r).
    ok (more (record s { at = i; unread = r; chars = s.chars ++ v }))

unfoldable pub string_interpolation : Unicode → StringScan → Text → Outcome LexError StringStep
string_interpolation u s t = scan_interpolation_expr u (s.at + 1) t >>= λ (e, i, r). ok (
    more (record {
      at = i;
      unread = r;
      chars = [];
      parts = flush s.chars s.parts ++ expr e ∷ [];
      has_expr = true;
    }))

abbrev pub push : StringScan → ℕ → ℕ → Text → StringStep
push s c i t = more (record s { at = i; unread = t; chars = s.chars ++ c ∷ [] })

-- At `{`: a second one makes a brace of the text, and anything else begins an interpolation.
unfoldable pub open_brace : Unicode → StringScan → Text → Outcome LexError StringStep
unfolding string_interpolation
open_brace u s [] = string_interpolation u s []
open_brace u s (d ∷ t) =
    if d == b'{' then ok (push s b'{' (s.at + 2) t) else string_interpolation u s (d ∷ t)

-- At `}`: a second one must follow.
unfoldable pub close_brace : StringScan → Text → Outcome LexError StringStep
close_brace s [] = raised (unescaped_brace s.at)
close_brace s (d ∷ t) =
    if d == b'}' then ok (push s b'}' (s.at + 2) t) else raised (unescaped_brace s.at)

unfoldable pub string_step : Unicode → ℕ → StringScan → Text → Outcome LexError StringStep
unfolding close_string string_escape open_brace close_brace
string_step u start s [] = raised (unterminated_string start)
string_step u start s (c ∷ t) =
    if c == b'"'
    then ok (close_string s t)
    else if c == b'\\'
    then string_escape u s t
    else if c == b'{'
    then open_brace u s t
    else if c == b'}'
    then close_brace s t
    else ok (push s c (s.at + 1) t)

-- The loop, on fuel: each round takes at least one character off `unread`.
unfoldable pub string_from : Unicode → ℕ → ℕ → StringScan → Outcome LexError (TokenValue × ℕ × Text)
unfolding string_step
string_from u start zero s = out_of_fuel
string_from u start (suc fuel) s = string_step u start s s.unread >>= λ step. elim step [
  | more s' ↦ string_from u start fuel s'
  | finished v i r ↦ ok (v, i, r)
]

-- `_scan_string(source, start)`, on the text after the opening quote.
unfoldable pub scan_string : Unicode → ℕ → Text → Outcome LexError (TokenValue × ℕ × Text)
unfolding string_from
scan_string u start t =
    string_from u start (suc (length t))
      (record { at = start + 1; unread = t; chars = []; parts = []; has_expr = false })

-- The closing quote of a character literal, and the length of its value.
unfoldable pub close_char : ℕ → Text → ℕ → Text → Outcome LexError (ℕ × ℕ × Text)
close_char start value i [] = raised (char_not_single start)
close_char start (v ∷ []) i (c ∷ t) =
    if c == b'\'' then ok (v, i + 1, t) else raised (char_not_single start)
close_char start value i (c ∷ t) = raised (char_not_single start)

-- `_scan_char(source, start)`, on the text after the opening quote.
unfoldable pub scan_char : Unicode → ℕ → Text → Outcome LexError (ℕ × ℕ × Text)
unfolding close_char
scan_char u start [] = raised (unterminated_char start)
scan_char u start (c ∷ t) =
    if c == b'\''
    then raised (empty_char start)
    else if c == b'\\'
    then (decode_escape u (start + 1) b'\'' t >>= λ (v, i, r). close_char start v i r)
    else close_char start (c ∷ []) (start + 2) t
