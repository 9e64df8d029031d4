-- ===== src/Names/Labels.antt =====
-- compiler/names.py: labels are identifiers.
use new_cl_lang.Base.{
  ℕ, zero, suc, ◌≤◌, ◌<◌, ◌≡◌, refl, Bool, true, false, not, ◌&&◌, ◌==◌, [], ◌∷◌, length, take,
  arith, if◌then◌else◌, Bool-cases, inl, inr,
}
use new_cl_lang.Base.Text.{Text}
use new_cl_lang.Names.{
  is_ascii_digit, is_label_char, sub_runs, strip_left, unless_bare, strip_right, not_empty,
  not_digit_first, abi_label,
}

-- All characters are letters, digits or underscores of ASCII.
unfoldable pub all_label : Text → Bool
all_label [] = true
all_label (c ∷ s) = is_label_char c && all_label s

-- It has a first character, no digit, and is all letters, digits and underscores of ASCII.
unfoldable pub is_identifier : Text → Bool
is_identifier [] = false
is_identifier (c ∷ s) = not (is_ascii_digit c) && all_label (c ∷ s)

and-left : (a b : Bool) → (a && b) ≡ true → a ≡ true
and-left a b h = ground arith

and-right : (a b : Bool) → (a && b) ≡ true → b ≡ true
and-right a b h = ground arith

all_label-cons :
    (c : ℕ) (s : Text) → is_label_char c ≡ true → all_label s ≡ true → all_label (c ∷ s) ≡ true
unfolding all_label
all_label-cons c s h k = rw (h, k) refl

all_label-replaced :
    (b : Bool) (s : Text) → all_label s ≡ true → all_label (if b then s else 95 ∷ s) ≡ true
unfolding all_label
all_label-replaced true s h = h
all_label-replaced false s h = h

all_label-sub_runs : (in_run : Bool) (s : Text) → all_label (sub_runs in_run s) ≡ true
unfolding all_label sub_runs
all_label-sub_runs in_run [] = refl
all_label-sub_runs in_run (c ∷ s) = elim (Bool-cases (is_label_char c)) [
  | inl h ↦ rw h (all_label-cons c (sub_runs false s) h (all_label-sub_runs false s))
  | inr h ↦ rw h (all_label-replaced in_run (sub_runs true s) (all_label-sub_runs true s))
]

all_label-strip_left : (s : Text) → all_label s ≡ true → all_label (strip_left s) ≡ true
unfolding all_label strip_left
all_label-strip_left [] h = refl
all_label-strip_left (c ∷ s) h = elim (Bool-cases (c == 95)) [
  | inl e ↦ rw e (all_label-strip_left s (and-right _ _ h))
  | inr e ↦ rw e h
]

all_label-unless_bare :
    (c : ℕ) (s : Text)
    → is_label_char c ≡ true
    → all_label s ≡ true
    → all_label (unless_bare c s) ≡ true
unfolding all_label
all_label-unless_bare c [] h k = elim (Bool-cases (c == 95)) [
  | inl e ↦ rw e refl
  | inr e ↦ rw e (all_label-cons c [] h refl)
]
all_label-unless_bare c (d ∷ s) h k = all_label-cons c (d ∷ s) h k

all_label-strip_right : (s : Text) → all_label s ≡ true → all_label (strip_right s) ≡ true
unfolding all_label strip_right
all_label-strip_right [] h = refl
all_label-strip_right (c ∷ s) h =
    all_label-unless_bare c (strip_right s) (and-left _ _ h)
      (all_label-strip_right s (and-right _ _ h))

is_identifier-cons :
    (c : ℕ) (s : Text)
    → is_ascii_digit c ≡ false
    → all_label (c ∷ s) ≡ true
    → is_identifier (c ∷ s) ≡ true
unfolding is_identifier
is_identifier-cons c s e h = rw (e, h) refl

not_digit_first-is_identifier :
    (c : ℕ) (s : Text) → all_label (c ∷ s) ≡ true → is_identifier (not_digit_first (c ∷ s)) ≡ true
not_digit_first-is_identifier c s h = elim (Bool-cases (is_ascii_digit c)) [
  | inl e ↦ rw e (is_identifier-cons 95 (c ∷ s) refl (all_label-cons 95 (c ∷ s) refl h))
  | inr e ↦ rw e (is_identifier-cons c s e h)
]

is_identifier-not_empty :
    (s : Text) → all_label s ≡ true → is_identifier (not_digit_first (not_empty s)) ≡ true
unfolding is_identifier all_label
is_identifier-not_empty [] h = refl
is_identifier-not_empty (c ∷ s) h = not_digit_first-is_identifier c s h

all_label-take : (n : ℕ) (s : Text) → all_label s ≡ true → all_label (take n s) ≡ true
unfolding all_label
all_label-take zero s h = refl
all_label-take (suc n) [] h = refl
all_label-take (suc n) (c ∷ s) h =
    all_label-cons c (take n s) (and-left _ _ h) (all_label-take n s (and-right _ _ h))

not-left : (a b : Bool) → (not a && b) ≡ true → a ≡ false
not-left a b h = ground arith

is_identifier-take :
    (n : ℕ) (s : Text) → zero < n → is_identifier s ≡ true → is_identifier (take n s) ≡ true
unfolding is_identifier
is_identifier-take zero s lt h = absurd (omega arith)
is_identifier-take (suc n) [] lt h = h
is_identifier-take (suc n) (c ∷ s) lt h =
    is_identifier-cons c (take n s) (not-left _ _ h)
      (all_label-take (suc n) (c ∷ s) (and-right _ _ h))

length-take_bound : (n : ℕ) (s : Text) → length (take n s) ≤ n
length-take_bound zero s = omega arith
length-take_bound (suc n) [] = omega arith
length-take_bound (suc n) (c ∷ s) = let rest = length-take_bound n s in omega arith

-- For a positive limit, the label of any value is at most that long, begins with a character that is no digit, and has
-- only letters, digits and underscores of ASCII.
pub abi_label-is_identifier :
    (value : Text) (limit : ℕ)
    → zero < limit
    → (is_identifier (abi_label value limit) ≡ true) × (length (abi_label value limit) ≤ limit)
unfolding abi_label
abi_label-is_identifier value limit lt = (
  is_identifier-take limit _ lt (
      is_identifier-not_empty _
        (all_label-strip_right _ (all_label-strip_left _ (all_label-sub_runs false value)))),
  length-take_bound limit _,
)
