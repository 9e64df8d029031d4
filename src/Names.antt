-- ===== src/Names.antt =====
-- compiler/names.py: the labels of ABI symbols.
use new_cl_lang.Base.{
  ℕ, Bool, true, false, not, ◌||◌, ◌&&◌, leb, ◌==◌, List, [], ◌∷◌, ◌++◌, take, if◌then◌else◌,
}
use new_cl_lang.Base.Text.{Text, codes}
pub mod Labels

-- The digits, and the characters that the class `[A-Za-z0-9_]` has
abbrev pub is_ascii_digit : ℕ → Bool
is_ascii_digit c = leb 48 c && leb c 57

abbrev pub is_label_char : ℕ → Bool
is_label_char c =
    (leb 65 c && leb c 90) || ((leb 97 c && leb c 122) || (is_ascii_digit c || c == 95))

-- `re.sub(r"[^A-Za-z0-9_]+", "_", value)`; the flag says whether the character before was replaced.
unfoldable pub sub_runs : Bool → Text → Text
sub_runs in_run [] = []
sub_runs in_run (c ∷ s) =
    let rest = sub_runs (not (is_label_char c)) s in
    if is_label_char c then c ∷ rest else if in_run then rest else 95 ∷ rest

-- `strip("_")`, from the left and then from the right
unfoldable pub strip_left : Text → Text
strip_left [] = []
strip_left (c ∷ s) = let rest = strip_left s in if c == 95 then rest else c ∷ s

abbrev pub unless_bare : ℕ → Text → Text
unless_bare c [] = if c == 95 then [] else c ∷ []
unless_bare c (d ∷ s) = c ∷ d ∷ s

unfoldable pub strip_right : Text → Text
strip_right [] = []
strip_right (c ∷ s) = unless_bare c (strip_right s)

-- An empty label is `anon`; one with a digit in front gets an underscore. The label's characters are ASCII, of which
-- `isdigit` accepts 0 to 9.
abbrev pub not_empty : Text → Text
not_empty [] = codes "anon"
not_empty (c ∷ s) = c ∷ s

abbrev pub not_digit_first : Text → Text
not_digit_first [] = []
not_digit_first (c ∷ s) = if is_ascii_digit c then 95 ∷ c ∷ s else c ∷ s

unfoldable pub abi_label : Text → ℕ → Text
abi_label value limit =
    take limit (not_digit_first (not_empty (strip_right (strip_left (sub_runs false value)))))

abbrev pub module_object_label : Text → Text
module_object_label module_name = abi_label module_name 64

-- `hexdigest` is sha256 of the UTF-8 encoding, in hexadecimal digits.
module _ (hexdigest : Text → Text) where
  unfoldable pub abi_hash : Text → Text
  abi_hash signature = take 10 (hexdigest (codes "nc-abi-v1" ++ (0 ∷ signature)))

  unfoldable pub abi_symbol : (kind module_name name signature : Text) → Text
  abi_symbol kind module_name name signature =
      codes "__nc_"
      ++ (kind
          ++ (95
              ∷ (abi_label module_name 48
                  ++ (95 ∷ (abi_label name 48 ++ (95 ∷ abi_hash signature))))))
