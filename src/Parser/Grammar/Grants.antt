-- ===== src/Parser/Grammar/Grants.antt =====
-- Postconditions of the parser's moves: what was read, and what is left.
use new_cl_lang.Base.{
  ◌≡◌, refl, Bool, true, false, List, [], ◌∷◌, Outcome, ok, raised, out_of_fuel, Bool-cases, inl,
  inr,
}
use new_cl_lang.Base.Text.{Text}
use new_cl_lang.Lexer.Token.{TokenKind, TokenValue, text, Token}
use new_cl_lang.Parser.State.{
  ParseError, Parser, same_kind, pure, fail, ◌>>=◌, ◌>>◌, at, advance, expect, accept, text_of,
  text_value,
}
use new_cl_lang.Parser.Grammar.{Is, Next, NextOther}

-- What a run returns, with the tokens that it leaves, has the property.
pub data Grants {A : Type 0} (P : A → List Token → Type 0)
    : Outcome ParseError (A × List Token) → Type 0 where
  grants : {a : A} {r : List Token} → P a r → Grants P (ok (a, r))
  refuses : {e : ParseError} → Grants P (raised e)
  loops : Grants P out_of_fuel

module _ {A B : Type 0} {P : A → List Token → Type 0} {Q : B → List Token → Type 0} where
  run-Grants :
      {f : A → Parser B} (o : Outcome ParseError (A × List Token))
      → Grants P o
      → ((a : A) (r : List Token) → P a r → Grants Q (f a r))
      → Grants Q (elim o [ ok (a, r) ↦ f a r | raised e ↦ raised e | out_of_fuel ↦ out_of_fuel ])
  run-Grants (ok (a, r)) (grants h) k = k a r h
  run-Grants (raised e) h k = refuses
  run-Grants out_of_fuel h k = loops

  pub bind-Grants :
      (p : Parser A) (f : A → Parser B) (ts : List Token)
      → Grants P (p ts)
      → ((a : A) (r : List Token) → P a r → Grants Q (f a r))
      → Grants Q ((p >>= f) ts)
  unfolding ◌>>=◌
  bind-Grants p f ts h k = run-Grants (p ts) h k

  pub then-Grants :
      (p : Parser A) (q : Parser B) (ts : List Token)
      → Grants P (p ts)
      → ((a : A) (r : List Token) → P a r → Grants Q (q r))
      → Grants Q ((p >> q) ts)
  unfolding ◌>>◌
  then-Grants p q ts h k = run-Grants (p ts) h k

module _ {A : Type 0} {Q : A → List Token → Type 0} where
  pub pure-Grants : (a : A) (ts : List Token) → Q a ts → Grants Q (pure a ts)
  unfolding pure
  pure-Grants a ts h = grants h

  pub at-Grants :
      (l : TokenKind) (p q : Parser A) (ts : List Token)
      → (Next l ts → Grants Q (p ts))
      → (NextOther l ts → Grants Q (q ts))
      → Grants Q (at l p q ts)
  unfolding at
  at-Grants l p q [] hp hq = refuses
  at-Grants l p q (t ∷ ts) hp hq = elim (Bool-cases (same_kind t.kind l)) [
    | inl h ↦ rw h (hp h)
    | inr h ↦ rw h (hq h)
  ]

-- One token of the kind was read.
abbrev pub Took : TokenKind → List Token → Token → List Token → Type 0
Took l ts t r = (ts ≡ t ∷ r) × Is l t

pub advance-Grants : (l : TokenKind) (ts : List Token) → Next l ts → Grants (Took l ts) (advance ts)
unfolding advance
advance-Grants l [] h = refuses
advance-Grants l (t ∷ ts) h = grants (refl, h)

pub expect-Grants : (l : TokenKind) (ts : List Token) → Grants (Took l ts) (expect l ts)
unfolding expect
expect-Grants l [] = refuses
expect-Grants l (t ∷ ts) = elim (Bool-cases (same_kind t.kind l)) [
  | inl h ↦ rw h (grants (refl, h))
  | inr h ↦ rw h refuses
]

abbrev pub Accepted : TokenKind → List Token → Bool → List Token → Type 0
Accepted l ts true r = (t : Token) × Took l ts t r
Accepted l ts false r = (r ≡ ts) × NextOther l ts

pub accept-Grants : (l : TokenKind) (ts : List Token) → Grants (Accepted l ts) (accept l ts)
unfolding accept
accept-Grants l [] = refuses
accept-Grants l (t ∷ ts) = elim (Bool-cases (same_kind t.kind l)) [
  | inl h ↦ rw h (grants (t, (refl, h)))
  | inr h ↦ rw h (grants (refl, h))
]

text_value-Grants :
    (t : Token) (v : TokenValue) (ts : List Token)
    → Grants (λ s r. (r ≡ ts) × (v ≡ text s)) (text_value t v ts)
unfolding text_value pure fail
text_value-Grants t (TokenValue.text s) ts = grants (refl, refl)
text_value-Grants t _ ts = refuses

-- A token of the kind with a text.
abbrev pub TookText : TokenKind → List Token → Text → List Token → Type 0
TookText l ts s r = (t : Token) × (ts ≡ t ∷ r) × Is l t × (t.value ≡ text s)

pub expect_text-Grants :
    (l : TokenKind) (ts : List Token) → Grants (TookText l ts) ((expect l >>= text_of) ts)
unfolding text_of
expect_text-Grants l ts =
    bind-Grants _ _ ts (expect-Grants l ts)
      λ t r (e, h). weaken (text_value-Grants t t.value r) λ s r' (e', v). (t, rw e' e, h, v)
  where
    weaken :
        {P Q : Text → List Token → Type 0} {o : Outcome ParseError (Text × List Token)}
        → Grants P o
        → ((s : Text) (r : List Token) → P s r → Q s r)
        → Grants Q o
    weaken (grants h) k = grants (k _ _ h)
    weaken refuses k = refuses
    weaken loops k = loops
