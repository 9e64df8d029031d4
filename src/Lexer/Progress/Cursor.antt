-- ===== src/Lexer/Progress/Cursor.antt =====
-- Moves of the cursor, and the ways to put them together.
use new_cl_lang.Base.{
  ℕ, ◌+◌, ◌≤◌, ◌≡◌, refl, Bool, true, [], ◌∷◌, ◌++◌, length, length-append, arith, append_assoc,
  some,
}
use new_cl_lang.Base.Text.{Text, after_prefix}
use new_cl_lang.Lexer.Chars.{span}

-- From position `i` with the text `t` to position `j` with the text `r`, over `least` characters or
-- more: the text splits there, and the position grows by what was read.
pub record Reads (least i : ℕ) (t : Text) (j : ℕ) (r : Text) : Type 0 where
  pub piece : Text
  pub splits : t ≡ piece ++ r
  pub moved : j ≡ i + length piece
  pub enough : least ≤ length piece

pub Reads-piece : (i : ℕ) (ds r : Text) → Reads (length ds) i (ds ++ r) (i + length ds) r
Reads-piece i ds r = record { piece = ds; splits = refl; moved = refl; enough = omega arith }

pub Reads-one : (i c : ℕ) (t : Text) → Reads 1 i (c ∷ t) (i + 1) t
Reads-one i c t = record { piece = c ∷ []; splits = refl; moved = refl; enough = omega arith }

pub Reads-two : (i c d : ℕ) (t : Text) → Reads 2 i (c ∷ d ∷ t) (i + 2) t
Reads-two i c d t = record { piece = c ∷ d ∷ []; splits = refl; moved = refl; enough = omega arith }

pub Reads-trans :
    {m n i j k : ℕ} {t r s : Text} → Reads m i t j r → Reads n j r k s → Reads (m + n) i t k s
Reads-trans a b = record {
  piece = a.piece ++ b.piece;
  splits = simp (a.splits, b.splits, append_assoc);
  moved = omega (arith, a.moved, b.moved, length-append a.piece b.piece);
  enough = omega (arith, a.enough, b.enough, length-append a.piece b.piece);
}

-- Fewer characters may be asked for, and the positions be written otherwise.
pub Reads-less :
    (m n : ℕ) {i j k : ℕ} {t r : Text} → Reads m i t j r → n ≤ m → k ≡ j → Reads n i t k r
Reads-less m n a le e = record {
  piece = a.piece;
  splits = a.splits;
  moved = omega (arith, a.moved);
  enough = omega (arith, a.enough);
}

pub span-append : (p : ℕ → Bool) (t : Text) → t ≡ (span p t).0 ++ (span p t).1
unfolding span
span-append p [] = refl
span-append p (c ∷ t) = ground (arith, span-append p t)

pub Reads-span :
    (p : ℕ → Bool) (i : ℕ) (t : Text)
    → Reads (length (span p t).0) i t (i + length (span p t).0) (span p t).1
Reads-span p i t = record {
  piece = (span p t).0;
  splits = span-append p t;
  moved = refl;
  enough = omega arith;
}

pub span_pos : (p : ℕ → Bool) (c : ℕ) (t : Text) → p c ≡ true → 1 ≤ length (span p (c ∷ t)).0
unfolding span
span_pos p c t h = ground arith

pub after_prefix-append : (w t r : Text) → after_prefix w t ≡ some r → t ≡ w ++ r
unfolding after_prefix
after_prefix-append [] t r e = ground arith
after_prefix-append (p ∷ ps) [] r e = cc
after_prefix-append (p ∷ ps) (c ∷ t) r e = ground (arith, after_prefix-append ps t r)

-- The shape of a result that comes with a cursor: some value, read over `least` characters.
abbrev pub Moves : (least i : ℕ) (t : Text) {A : Type 0} → A × ℕ × Text → Type 0
Moves least i t (a, j, r) = Reads least i t j r
