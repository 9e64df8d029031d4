-- ===== src/Parser/Grammar/Runs.antt =====
-- What the parser's moves do with tokens of known kinds.
use new_cl_lang.Base.{◌≡◌, refl, sym, subst, ◌==◌, ==_iff, true, false, List, [], ◌∷◌, ◌++◌, ok}
use new_cl_lang.Base.Text.{Text}
use new_cl_lang.Lexer.Token.{TokenKind, TokenValue, Token}
use new_cl_lang.Parser.State.{
  Parser, same_kind, kind_value, pure, ◌>>=◌, ◌>>◌, at, advance, expect, accept, text_of,
  text_value, dotted,
}
use new_cl_lang.Parser.Grammar.{Is, Other, Next, NextOther}

pub Is-Other : (t : Token) (k l : TokenKind) → Is k t → same_kind k l ≡ false → Other l t
unfolding same_kind
Is-Other t k l h e =
    subst (λ n. (n == kind_value l) ≡ false) (sym ((==_iff (kind_value t.kind) (kind_value k)).0 h))
      e

-- The run of a parser on some tokens.
abbrev pub Run : {A : Type 0} → Parser A → List Token → A → List Token → Type 0
Run p ts a r = p ts ≡ ok (a, r)

module _ {A B : Type 0} where
  pub bind-Run :
      (p : Parser A) (f : A → Parser B) {a : A} {b : B} (ts : List Token) {us r : List Token}
      → Run p ts a us
      → Run (f a) us b r
      → Run (p >>= f) ts b r
  unfolding ◌>>=◌
  bind-Run p f ts h k = rw (h, ◌>>=◌) k

  pub then-Run :
      (p : Parser A) (q : Parser B) {a : A} {b : B} (ts : List Token) {us r : List Token}
      → Run p ts a us
      → Run q us b r
      → Run (p >> q) ts b r
  unfolding ◌>>◌
  then-Run p q ts h k = rw (h, ◌>>◌) k

module _ {A : Type 0} where
  pub pure-Run : (a : A) (ts : List Token) → Run (pure a) ts a ts
  unfolding pure
  pure-Run a ts = refl

  pub at-Run :
      (l : TokenKind) (p q : Parser A) (ts : List Token) {a : A} {r : List Token}
      → Next l ts
      → Run p ts a r
      → Run (at l p q) ts a r
  unfolding at
  at-Run l p q (t ∷ ts) h k = rw h k
  at-Run l p q [] h k = absurd h

  pub at-Run_else :
      (l : TokenKind) (p q : Parser A) (ts : List Token) {a : A} {r : List Token}
      → NextOther l ts
      → Run q ts a r
      → Run (at l p q) ts a r
  unfolding at
  at-Run_else l p q (t ∷ ts) h k = rw h k
  at-Run_else l p q [] h k = absurd h

pub advance-Run : (t : Token) (ts : List Token) → Run advance (t ∷ ts) t ts
unfolding advance
advance-Run t ts = refl

pub expect-Run :
    (l : TokenKind) (t : Token) (ts : List Token) → Is l t → Run (expect l) (t ∷ ts) t ts
unfolding expect
expect-Run l t ts h = rw h refl

pub accept-Run :
    (l : TokenKind) (t : Token) (ts : List Token) → Is l t → Run (accept l) (t ∷ ts) true ts
unfolding accept
accept-Run l t ts h = rw h refl

pub accept-Run_else :
    (l : TokenKind) (ts : List Token) → NextOther l ts → Run (accept l) ts false ts
unfolding accept
accept-Run_else l (t ∷ ts) h = rw h refl
accept-Run_else l [] h = absurd h

pub text_of-Run :
    (t : Token) (ts : List Token) (s : Text) → t.value ≡ TokenValue.text s → Run (text_of t) ts s ts
unfolding text_of text_value pure
text_of-Run t ts s h = rw h refl

pub expect_text-Run :
    (l : TokenKind) (t : Token) (ts : List Token) (s : Text)
    → Is l t
    → t.value ≡ TokenValue.text s
    → Run (expect l >>= text_of) (t ∷ ts) s ts
expect_text-Run l t ts s h e = bind-Run _ _ _ (expect-Run l t ts h) (text_of-Run t ts s e)

pub dotted-Run :
    (name s : Text) (t : Token) (ts : List Token)
    → Is TokenKind.ident t
    → t.value ≡ TokenValue.text s
    → Run (dotted name) (t ∷ ts) (name ++ (b'.' ∷ s)) ts
unfolding dotted
dotted-Run name s t ts h e = bind-Run _ _ _ (expect_text-Run _ t ts s h e) (pure-Run _ _)
