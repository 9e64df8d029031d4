-- ===== src/Parser/Terminates/Rules.antt =====
-- When a parser ends, in terms of the weight of the tokens, and the rules by which parsers made of parsers end.
use new_cl_lang.Base.{
  ℕ, zero, suc, ◌≤◌, ◌<◌, Bool, true, false, List, [], ◌∷◌, if◌then◌else◌, Outcome, ok, raised,
  out_of_fuel, arith, Settles, returns, raises, Settles-if, Settles-weaken,
}
use new_cl_lang.Base.Text.{Text}
use new_cl_lang.Lexer.Token.{TokenKind, TokenValue, Token}
use new_cl_lang.Parser.State.{
  ParseError, Parser, pure, fail, ◌>>=◌, ◌>>◌, peek, advance, expect, accept, at_any, at, look,
  text_value, text_of, kind_in, same_kind, dotted, many, comma_items, comma_list,
}
use new_cl_lang.Parser.Weight.{weight}

-- On tokens of weight below `n` the parser ends: it raises an exception, or leaves less weight than it found.
pub record First (n : ℕ) {A : Type 0} (p : Parser A) : Type 0 where
  pub settles :
      (ts : List Token)
      → weight ts < n
      → Settles {E = ParseError} (λ (x : A × List Token). weight x.1 < weight ts) (p ts)

-- The same, where it may leave the tokens as they are.
pub record Rest (n : ℕ) {A : Type 0} (p : Parser A) : Type 0 where
  pub settles :
      (ts : List Token)
      → weight ts < n
      → Settles {E = ParseError} (λ (x : A × List Token). weight x.1 ≤ weight ts) (p ts)

module _ {A B : Type 0} where
  pub run_bind :
      {P : A × List Token → Type 0} {Q : B × List Token → Type 0} {f : A → Parser B}
      (o : Outcome ParseError (A × List Token))
      → Settles P o
      → ((a : A) (r : List Token) → P (a, r) → Settles {E = ParseError} Q (f a r))
      → Settles {E = ParseError} Q
          (elim o [ ok (a, r) ↦ f a r | raised e ↦ raised e | out_of_fuel ↦ out_of_fuel ])
  run_bind (ok (a, r)) (returns h) k = k a r h
  run_bind (raised e) raises k = raises
  run_bind out_of_fuel x k = elim x [ ]

  -- What reads a token first may be followed by what ends on lighter tokens.
  pub >>=-First :
      {n : ℕ} {p : Parser A} {f : A → Parser B}
      → First (suc n) p
      → ((a : A) → Rest n (f a))
      → First (suc n) (p >>= f)
  unfolding ◌>>=◌
  >>=-First {p = p} hp hf = record {
    settles = λ ts lt.
        run_bind (p ts) (hp.settles ts lt)
          (λ a r le. Settles-weaken ((hf a).settles r (omega arith)) (λ x le'. omega arith));
  }

  pub >>-First :
      {n : ℕ} {p : Parser A} {q : Parser B} → First (suc n) p → Rest n q → First (suc n) (p >> q)
  unfolding ◌>>◌
  >>-First {p = p} hp hq = record {
    settles = λ ts lt.
        run_bind (p ts) (hp.settles ts lt)
          (λ a r le. Settles-weaken (hq.settles r (omega arith)) (λ x le'. omega arith));
  }

  pub >>=-First_same :
      {n : ℕ} {p : Parser A} {f : A → Parser B}
      → First n p
      → ((a : A) → Rest n (f a))
      → First n (p >>= f)
  unfolding ◌>>=◌
  >>=-First_same {p = p} hp hf = record {
    settles = λ ts lt.
        run_bind (p ts) (hp.settles ts lt)
          (λ a r le. Settles-weaken ((hf a).settles r (omega arith)) (λ x le'. omega arith));
  }

  -- What may leave the tokens as they are may be followed by what reads one.
  pub >>=-First_look :
      {n : ℕ} {p : Parser A} {f : A → Parser B}
      → Rest n p
      → ((a : A) → First n (f a))
      → First n (p >>= f)
  unfolding ◌>>=◌
  >>=-First_look {p = p} hp hf = record {
    settles = λ ts lt.
        run_bind (p ts) (hp.settles ts lt)
          (λ a r le. Settles-weaken ((hf a).settles r (omega arith)) (λ x le'. omega arith));
  }

  pub >>=-Rest :
      {n : ℕ} {p : Parser A} {f : A → Parser B}
      → Rest n p
      → ((a : A) → Rest n (f a))
      → Rest n (p >>= f)
  unfolding ◌>>=◌
  >>=-Rest {p = p} hp hf = record {
    settles = λ ts lt.
        run_bind (p ts) (hp.settles ts lt)
          (λ a r le. Settles-weaken ((hf a).settles r (omega arith)) (λ x le'. omega arith));
  }

  pub >>-Rest : {n : ℕ} {p : Parser A} {q : Parser B} → Rest n p → Rest n q → Rest n (p >> q)
  unfolding ◌>>◌
  >>-Rest {p = p} hp hq = record {
    settles = λ ts lt.
        run_bind (p ts) (hp.settles ts lt)
          (λ a r le. Settles-weaken (hq.settles r (omega arith)) (λ x le'. omega arith));
  }

module _ {A : Type 0} {p : Parser A} where
  pub lower : {m n : ℕ} → First n p → m ≤ n → First m p
  lower h le = record { settles = λ ts lt. h.settles ts (omega arith) }

  pub within : {n : ℕ} → First (suc n) p → First n p
  within h = record { settles = λ ts lt. h.settles ts (omega arith) }

  pub later : {n : ℕ} → First (suc n) p → Rest n p
  later h = record {
    settles = λ ts lt. Settles-weaken (h.settles ts (omega arith)) (λ x le. omega arith);
  }

  pub weaken : {n : ℕ} → First n p → Rest n p
  weaken h = record { settles = λ ts lt. Settles-weaken (h.settles ts lt) (λ x le. omega arith) }

module _ {A : Type 0} {p : Parser A} where
  pub First-zero : First zero p
  First-zero = record { settles = λ ts lt. elim (absurd lt) [ ] }
    where
      absurd : {m : ℕ} → m < zero → ⊥
      absurd lt = omega arith

  pub Rest-zero : Rest zero p
  Rest-zero = weaken First-zero

module _ {n : ℕ} {A : Type 0} where
  pub pure-Rest : (a : A) → Rest n (pure a)
  unfolding pure
  pure-Rest a = record { settles = λ ts lt. returns (omega arith) }

  pub fail-First : (e : ParseError) → First n (fail {A = A} e)
  unfolding fail
  fail-First e = record { settles = λ ts lt. raises }

  pub fail-Rest : (e : ParseError) → Rest n (fail {A = A} e)
  fail-Rest e = weaken (fail-First e)

-- A choice settles as its branches do, whatever is asked of what they leave.
module _ {n : ℕ} {A : Type 0} {Q : List Token → A × List Token → Type 0} {p q : Parser A}
    (hp : (ts : List Token) → weight ts < n → Settles {E = ParseError} (Q ts) (p ts))
    (hq : (ts : List Token) → weight ts < n → Settles {E = ParseError} (Q ts) (q ts)) where
  at_any-Settles :
      (ls : List TokenKind) (ts : List Token)
      → weight ts < n
      → Settles {E = ParseError} (Q ts) (at_any ls p q ts)
  unfolding at_any
  at_any-Settles ls [] lt = raises
  at_any-Settles ls (t ∷ ts) lt =
      Settles-if (kind_in t.kind ls) (λ _. hp (t ∷ ts) lt) (λ _. hq (t ∷ ts) lt)

  pub at-Settles :
      (l : TokenKind) (ts : List Token)
      → weight ts < n
      → Settles {E = ParseError} (Q ts) (at l p q ts)
  unfolding at
  at-Settles l [] lt = raises
  at-Settles l (t ∷ ts) lt =
      Settles-if (same_kind t.kind l) (λ _. hp (t ∷ ts) lt) (λ _. hq (t ∷ ts) lt)

  look-Settles :
      (test : List Token → Bool) (ts : List Token)
      → weight ts < n
      → Settles {E = ParseError} (Q ts) (look test p q ts)
  unfolding look
  look-Settles test ts lt = Settles-if (test ts) (λ _. hp ts lt) (λ _. hq ts lt)

module _ {n : ℕ} {A : Type 0} {p q : Parser A} where
  pub at-First : (l : TokenKind) → First n p → First n q → First n (at l p q)
  at-First l hp hq = record { settles = at-Settles hp.settles hq.settles l }

  pub at-Rest : (l : TokenKind) → Rest n p → Rest n q → Rest n (at l p q)
  at-Rest l hp hq = record { settles = at-Settles hp.settles hq.settles l }

  pub at_any-First : (ls : List TokenKind) → First n p → First n q → First n (at_any ls p q)
  at_any-First ls hp hq = record { settles = at_any-Settles hp.settles hq.settles ls }

  pub at_any-Rest : (ls : List TokenKind) → Rest n p → Rest n q → Rest n (at_any ls p q)
  at_any-Rest ls hp hq = record { settles = at_any-Settles hp.settles hq.settles ls }

  pub look-First : (test : List Token → Bool) → First n p → First n q → First n (look test p q)
  look-First test hp hq = record { settles = look-Settles hp.settles hq.settles test }

  pub look-Rest : (test : List Token → Bool) → Rest n p → Rest n q → Rest n (look test p q)
  look-Rest test hp hq = record { settles = look-Settles hp.settles hq.settles test }

module _ {n : ℕ} where
  peek-Settles :
      (ts : List Token)
      → weight ts < n
      → Settles {E = ParseError} (λ x. weight x.1 ≤ weight ts) (peek ts)
  unfolding peek
  peek-Settles [] lt = raises
  peek-Settles (t ∷ ts) lt = returns (omega arith)

  advance-Settles :
      (ts : List Token)
      → weight ts < n
      → Settles {E = ParseError} (λ x. weight x.1 < weight ts) (advance ts)
  unfolding advance weight
  advance-Settles [] lt = raises
  advance-Settles (t ∷ ts) lt = returns (omega arith)

  expect-Settles :
      (l : TokenKind) (ts : List Token)
      → weight ts < n
      → Settles {E = ParseError} (λ x. weight x.1 < weight ts) (expect l ts)
  unfolding expect weight
  expect-Settles l [] lt = raises
  expect-Settles l (t ∷ ts) lt =
      Settles-if (same_kind t.kind l) (λ _. returns (omega arith)) (λ _. raises)

  accept-Settles :
      (l : TokenKind) (ts : List Token)
      → weight ts < n
      → Settles {E = ParseError} (λ x. weight x.1 ≤ weight ts) (accept l ts)
  unfolding accept weight
  accept-Settles l [] lt = raises
  accept-Settles l (t ∷ ts) lt =
      Settles-if (same_kind t.kind l) (λ _. returns (omega arith)) (λ _. returns (omega arith))

  pub peek-Rest : Rest n peek
  peek-Rest = record { settles = peek-Settles }

  pub advance-First : First n advance
  advance-First = record { settles = advance-Settles }

  pub expect-First : (l : TokenKind) → First n (expect l)
  expect-First l = record { settles = expect-Settles l }

  pub accept-Rest : (l : TokenKind) → Rest n (accept l)
  accept-Rest l = record { settles = accept-Settles l }

  text_value-Rest : (t : Token) (v : TokenValue) → Rest n (text_value t v)
  unfolding text_value
  text_value-Rest t (TokenValue.text s) = pure-Rest s
  text_value-Rest t _ = fail-Rest _

  pub text_of-Rest : (t : Token) → Rest n (text_of t)
  unfolding text_of
  text_of-Rest t = text_value-Rest t t.value

pub dotted-First : {n : ℕ} → (name : Text) → First (suc n) (dotted name)
unfolding dotted
dotted-First name = >>=-First (>>=-First (expect-First _) (λ t. text_of-Rest t)) (λ m. pure-Rest _)

pub Rest-if :
    {n : ℕ} {A : Type 0}
    → (b : Bool) → {p q : Parser A} → Rest n p
    → Rest n q
    → Rest n (if b then p else q)
Rest-if true hp hq = hp
Rest-if false hp hq = hq

module _ {n : ℕ} {A : Type 0} {p q : Parser A} (hp : First (suc n) p) (hq : First (suc n) q) where
  pub at-First_suc : (l : TokenKind) → First (suc n) (at l p q)
  at-First_suc l = at-First l hp hq

  pub at_any-First_suc : (ls : List TokenKind) → First (suc n) (at_any ls p q)
  at_any-First_suc ls = at_any-First ls hp hq

  pub look-First_suc : (test : List Token → Bool) → First (suc n) (look test p q)
  look-First_suc test = look-First test hp hq

-- For `search`: a goal goes to the rule of its parser's outermost part.
pub ruleset endings = (
  >>=-First, >>-First, at-First_suc, at_any-First_suc, look-First_suc, advance-First, expect-First,
  fail-First, dotted-First, >>=-Rest, >>-Rest, at-Rest, at_any-Rest, look-Rest, pure-Rest,
  fail-Rest, peek-Rest, accept-Rest, text_of-Rest, later, weaken,
)

-- The loops: each round reads a token.
module _ {A : Type 0} {n : ℕ} {item : Parser A} (h : First n item) where
  many-at : (fuel : ℕ) → fuel ≤ n → (ends : List TokenKind) → Rest fuel (many fuel ends item)
  unfolding many
  many-at zero le ends = Rest-zero
  many-at (suc fuel) le ends = record {
    settles =
        (at_any-Rest ends (pure-Rest []) (
          weaken (
            >>=-First (lower h le) (λ x.
              >>=-Rest (many-at fuel (omega arith) ends) (λ xs. pure-Rest (x ∷ xs)))))).settles;
  }

  comma_items-at : (fuel : ℕ) → fuel ≤ n → (end : TokenKind) → Rest fuel (comma_items fuel end item)
  unfolding comma_items
  comma_items-at zero le end = Rest-zero
  comma_items-at (suc fuel) le end = record {
    settles =
        (weaken (
          >>=-First (lower h le) (λ x.
            at-Rest _
              (>>-Rest (weaken advance-First) (
                at-Rest end (pure-Rest _)
                  (>>=-Rest (comma_items-at fuel (omega arith) end) (λ xs. pure-Rest _))))
              (pure-Rest _)))).settles;
  }

  pub many-Rest : (ends : List TokenKind) → Rest n (many n ends item)
  many-Rest ends = many-at n (omega arith) ends

  pub comma_list-Rest : (end : TokenKind) → Rest n (comma_list n end item)
  unfolding comma_list
  comma_list-Rest end = at-Rest end (pure-Rest []) (comma_items-at n (omega arith) end)
