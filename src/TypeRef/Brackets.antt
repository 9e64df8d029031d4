-- ===== src/TypeRef/Brackets.antt =====
-- Texts whose brackets are balanced, and what the two bracket scans of compiler/type_ref.py do on them.
use new_cl_lang.Base.{
  ℕ, zero, suc, ◌+◌, ◌<◌, ◌≡◌, refl, sym, ap, ◌∙◌, Bool, true, false, not, ◌||◌, [], ◌∷◌, ◌++◌,
  Option, none, some, ◌==◌, arith, append_assoc, append-nil, length, length-append,
}
use new_cl_lang.Base.Text.{Text}
use new_cl_lang.Python.{ℤ, pos}
use new_cl_lang.TypeRef.Split.{
  level, split_step, split_from, deeper, match_step, shift, matching_from, find_matching,
}

abbrev pub is_bracket : ℕ → Bool
is_bracket c = c == b'[' || c == b']' || c == b'(' || c == b')'

-- Every bracket is closed by its own kind; with the flag false, commas stand in brackets only.
pub data Balanced : Bool → Text → Type 0 where
  done : {b : Bool} → Balanced b []
  plain :
      {b : Bool} {s : Text} (c : ℕ)
      → is_bracket c ≡ false
      → (b || not (c == b',')) ≡ true
      → Balanced b s
      → Balanced b (c ∷ s)
  square :
      {b : Bool} {s r t : Text}
      → Balanced true s
      → Balanced b r
      → t ≡ b'[' ∷ (s ++ (b']' ∷ r))
      → Balanced b t
  round :
      {b : Bool} {s r t : Text}
      → Balanced true s
      → Balanced b r
      → t ≡ b'(' ∷ (s ++ (b')' ∷ r))
      → Balanced b t

pub Balanced-append : {b : Bool} {s t : Text} → Balanced b s → Balanced b t → Balanced b (s ++ t)
Balanced-append done h = h
Balanced-append (plain c n m a) h = plain c n m (Balanced-append a h)
Balanced-append (square {s = s} {r = r} a d e) h =
    square a (Balanced-append d h) (simp (e, append_assoc))
Balanced-append (round {s = s} {r = r} a d e) h =
    round a (Balanced-append d h) (simp (e, append_assoc))

pub Balanced-weaken : {b : Bool} {s : Text} → Balanced b s → Balanced true s
Balanced-weaken done = done
Balanced-weaken (plain c n m a) = plain c n refl (Balanced-weaken a)
Balanced-weaken (square a d e) = square a (Balanced-weaken d) e
Balanced-weaken (round a d e) = round a (Balanced-weaken d) e

-- Inside `a` square and `p` round brackets the split loop passes over a balanced text.
abbrev DeepEnough : Bool → ℕ → ℕ → Type 0
DeepEnough false a p = Unit
DeepEnough true a p = 0 < a + p

split_step-plain :
    (b : Bool) (a p c : ℕ)
    → is_bracket c ≡ false
    → (b || not (c == b',')) ≡ true
    → DeepEnough b a p
    → split_step b',' (pos a) (pos p) c ≡ level (pos a) (pos p)
unfolding split_step
split_step-plain false a p c n m h = ground arith
split_step-plain true zero zero c n m h = absurd (omega arith)
split_step-plain true zero (suc p) c n m h = ground arith
split_step-plain true (suc a) p c n m h = ground arith

split_from-level :
    (a p a' p' : ℤ) (part : Text) (c : ℕ) (t : Text)
    → split_step b',' a p c ≡ level a' p'
    → split_from b',' a p part (c ∷ t) ≡ split_from b',' a' p' (part ++ c ∷ []) t
unfolding split_from
split_from-level a p a' p' part c t e = rw (e, split_from)

pub split_from-Balanced :
    {b : Bool} {s : Text} (a p : ℕ) (part rest : Text)
    → Balanced b s
    → DeepEnough b a p
    → split_from b',' (pos a) (pos p) part (s ++ rest)
      ≡ split_from b',' (pos a) (pos p) (part ++ s) rest
unfolding split_step
split_from-Balanced a p part rest done h = rw append-nil
split_from-Balanced {b} a p part rest (plain {s = s} c n m d) h =
    split_from-level (pos a) (pos p) (pos a) (pos p) part c (s ++ rest)
      (split_step-plain b a p c n m h)
    ∙ split_from-Balanced a p (part ++ c ∷ []) rest d h
    ∙ rw append_assoc
split_from-Balanced a p part rest (square {s = s} {r = r} d f e) h =
    rw (e, append_assoc)
      (split_from-level (pos a) (pos p) (pos (suc a)) (pos p) part b'[' (s ++ (b']' ∷ (r ++ rest)))
          refl
        ∙ split_from-Balanced (suc a) p (part ++ b'[' ∷ []) (b']' ∷ (r ++ rest)) d (omega arith)
        ∙ split_from-level (pos (suc a)) (pos p) (pos a) (pos p) ((part ++ b'[' ∷ []) ++ s) b']'
            (r ++ rest) refl
        ∙ split_from-Balanced a p (((part ++ b'[' ∷ []) ++ s) ++ b']' ∷ []) rest f h
        ∙ simp append_assoc)
split_from-Balanced a p part rest (round {s = s} {r = r} d f e) h =
    rw (e, append_assoc)
      (split_from-level (pos a) (pos p) (pos a) (pos (suc p)) part b'(' (s ++ (b')' ∷ (r ++ rest)))
          refl
        ∙ split_from-Balanced a (suc p) (part ++ b'(' ∷ []) (b')' ∷ (r ++ rest)) d (omega arith)
        ∙ split_from-level (pos a) (pos (suc p)) (pos a) (pos p) ((part ++ b'(' ∷ []) ++ s) b')'
            (r ++ rest) refl
        ∙ split_from-Balanced a p (((part ++ b'(' ∷ []) ++ s) ++ b')' ∷ []) rest f h
        ∙ simp append_assoc)

-- The two pairs of brackets that the matching loop is asked for.
pub data Pair : ℕ → ℕ → Type 0 where
  square_pair : Pair b'[' b']'
  round_pair : Pair b'(' b')'

matching_from-deeper :
    (o c : ℕ) (d d' : ℤ) (ch : ℕ) (t : Text)
    → match_step o c d ch ≡ deeper d'
    → matching_from o c d (ch ∷ t) ≡ shift 1 (matching_from o c d' t)
unfolding matching_from
matching_from-deeper o c d d' ch t e = rw (e, matching_from)

match_step-plain :
    {o c : ℕ} (d : ℤ) (ch : ℕ) → Pair o c → is_bracket ch ≡ false → match_step o c d ch ≡ deeper d
unfolding match_step
match_step-plain d ch square_pair n = ground arith
match_step-plain d ch round_pair n = ground arith

shift-shift : (m n : ℕ) (i : Option ℕ) → shift m (shift n i) ≡ shift (m + n) i
shift-shift m n none = refl
shift-shift m n (some i) = ground arith

shift-zero : (i : Option ℕ) → shift 0 i ≡ i
shift-zero none = refl
shift-zero (some i) = ground arith

-- Inside its brackets the matching loop passes over the text.
abbrev Passes : ℕ → ℕ → Text → Type 0
Passes o c s =
    (k : ℕ) (rest : Text)
    → matching_from o c (pos (suc k)) (s ++ rest)
      ≡ shift (length s) (matching_from o c (pos (suc k)) rest)

Passes-cons :
    (o c ch : ℕ) (s : Text)
    → ((k : ℕ) → match_step o c (pos (suc k)) ch ≡ deeper (pos (suc k)))
    → Passes o c s
    → Passes o c (ch ∷ s)
Passes-cons o c ch s same h k rest =
    matching_from-deeper o c (pos (suc k)) (pos (suc k)) ch (s ++ rest) (same k)
    ∙ ap (shift 1) (h k rest)
    ∙ shift-shift 1 (length s) _
    ∙ ap (λ n. shift n (matching_from o c (pos (suc k)) rest)) (omega arith)

Passes-append : (o c : ℕ) (s t : Text) → Passes o c s → Passes o c t → Passes o c (s ++ t)
Passes-append o c s t hs ht k rest = rw append_assoc (
    hs k (t ++ rest)
    ∙ ap (shift (length s)) (ht k rest)
    ∙ shift-shift (length s) (length t) _
    ∙ ap (λ n. shift n (matching_from o c (pos (suc k)) rest)) (sym (length-append s t)))

-- A pair of the kind that is counted, around a text that is passed over.
Passes-nested :
    (o c : ℕ) (s r : Text)
    → ((k : ℕ) → match_step o c (pos (suc k)) o ≡ deeper (pos (suc (suc k))))
    → ((k : ℕ) → match_step o c (pos (suc (suc k))) c ≡ deeper (pos (suc k)))
    → Passes o c s
    → Passes o c r
    → Passes o c (o ∷ (s ++ (c ∷ r)))
Passes-nested o c s r opens closes hs hr k rest = rw append_assoc (
    matching_from-deeper o c (pos (suc k)) _ o (s ++ (c ∷ (r ++ rest))) (opens k)
    ∙ ap (shift 1) (
        hs (suc k) (c ∷ (r ++ rest))
        ∙ ap (shift (length s)) (
            matching_from-deeper o c (pos (suc (suc k))) _ c (r ++ rest) (closes k)
            ∙ ap (shift 1) (hr k rest)))
    ∙ collect (matching_from o c (pos (suc k)) rest))
  where
    collect :
        (i : Option ℕ)
        → shift 1 (shift (length s) (shift 1 (shift (length r) i)))
          ≡ shift (length (o ∷ (s ++ (c ∷ r)))) i
    collect none = refl
    collect (some i) = ap some (omega (arith, length-append s (c ∷ r)))

pub Balanced-Passes :
    {o c : ℕ} {b : Bool} {s : Text} (pair : Pair o c) → Balanced b s → Passes o c s
unfolding match_step
Balanced-Passes {o} {c} pair done = λ k rest. sym (shift-zero _)
Balanced-Passes {o} {c} pair (plain {s = s} ch n m d) =
    Passes-cons o c ch s (λ k. match_step-plain _ ch pair n) (Balanced-Passes pair d)
Balanced-Passes square_pair (square {s = s} {r = r} d f e) = rw e (
    Passes-nested b'[' b']' s r (λ k. refl) (λ k. refl) (Balanced-Passes square_pair d)
      (Balanced-Passes square_pair f))
Balanced-Passes round_pair (round {s = s} {r = r} d f e) = rw e (
    Passes-nested b'(' b')' s r (λ k. refl) (λ k. refl) (Balanced-Passes round_pair d)
      (Balanced-Passes round_pair f))
Balanced-Passes round_pair (square {s = s} {r = r} d f e) = rw e (
    Passes-cons b'(' b')' b'[' (s ++ (b']' ∷ r)) (λ k. refl)
      (Passes-append b'(' b')' s (b']' ∷ r) (Balanced-Passes round_pair d)
        (Passes-cons b'(' b')' b']' r (λ k. refl) (Balanced-Passes round_pair f))))
Balanced-Passes square_pair (round {s = s} {r = r} d f e) = rw e (
    Passes-cons b'[' b']' b'(' (s ++ (b')' ∷ r)) (λ k. refl)
      (Passes-append b'[' b']' s (b')' ∷ r) (Balanced-Passes square_pair d)
        (Passes-cons b'[' b']' b')' r (λ k. refl) (Balanced-Passes square_pair f))))

matching_from-open :
    {o c : ℕ} (pair : Pair o c) (t : Text)
    → matching_from o c (pos 0) (o ∷ t) ≡ shift 1 (matching_from o c (pos 1) t)
unfolding matching_from match_step
matching_from-open square_pair t = refl
matching_from-open round_pair t = refl

matching_from-close :
    {o c : ℕ} (pair : Pair o c) (t : Text) → matching_from o c (pos 1) (c ∷ t) ≡ some 0
unfolding matching_from match_step
matching_from-close square_pair t = refl
matching_from-close round_pair t = refl

-- From an opening bracket, the match is the closing bracket behind the balanced text between them.
pub find_matching-Balanced :
    {o c : ℕ} {b : Bool} {s : Text} (pair : Pair o c) (rest : Text)
    → Balanced b s
    → find_matching o c (o ∷ (s ++ (c ∷ rest))) ≡ some (length s + 1)
unfolding find_matching
find_matching-Balanced {o} {c} {s = s} pair rest d =
    matching_from-open pair (s ++ (c ∷ rest))
    ∙ ap (shift 1) (
        Balanced-Passes pair d 0 (c ∷ rest) ∙ ap (shift (length s)) (matching_from-close pair rest))
    ∙ ap some (omega arith)
