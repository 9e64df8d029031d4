-- ===== src/Parser/Grammar/Sound.antt =====
-- `_parse_type` reads only types of the grammar.
use new_cl_lang.Base.{
  ℕ, zero, suc, ◌≤◌, ◌≡◌, ◌↔◌, refl, sym, subst, Bool, true, false, List, ◌∷◌, Option, none, some,
  length, Outcome, ok,
}
use new_cl_lang.Lexer.Token.{TokenKind, TokenValue, number, Token}
use new_cl_lang.TypeRef.Syntax.{TypeRef, function}
use new_cl_lang.Parser.State.{ParseError, Parser, pure, fail, dotted, comma_items, comma_list}
use new_cl_lang.Parser.Types.{
  type_refs, length_value, length_of, parse_length, sequence_of, parse_type_args_with,
  parse_named_type, parse_function_type, parse_type_with, parse_type,
}
use new_cl_lang.Parser.Grammar.{Is, Next, ReadsName, ReadsType, ReadsList, ReadsItems}
use new_cl_lang.Parser.Grammar.Grants.{
  Grants, grants, refuses, loops, bind-Grants, then-Grants, pure-Grants, at-Grants, advance-Grants,
  expect-Grants, Accepted, accept-Grants, expect_text-Grants,
}
use new_cl_lang.Parser.Grammar.Complete.{parse_type-Run}

-- The tokens of a length and its brackets.
data ReadsLength : List Token → Option ℕ → List Token → Type 0 where
  open_length :
      {a b : Token} {r : List Token}
      → Is TokenKind.lbracket a
      → Is TokenKind.rbracket b
      → ReadsLength (a ∷ b ∷ r) none r
  fixed :
      {a i b : Token} {n : ℕ} {r : List Token}
      → Is TokenKind.lbracket a
      → Is TokenKind.integer i
      → i.value ≡ number n none
      → Is TokenKind.rbracket b
      → ReadsLength (a ∷ i ∷ b ∷ r) (some n) r

length_value-Grants :
    (t : Token) (v : TokenValue) (ts : List Token)
    → Grants (λ n r. (r ≡ ts) × (v ≡ number n none)) (length_value t v ts)
unfolding length_value pure fail
length_value-Grants t (TokenValue.number n none) ts = grants (refl, refl)
length_value-Grants t (TokenValue.number n (some s)) ts = refuses
length_value-Grants t _ ts = refuses

parse_length-Grants :
    (ts : List Token) → Next TokenKind.lbracket ts → Grants (ReadsLength ts) (parse_length ts)
unfolding parse_length length_of
parse_length-Grants ts h =
    then-Grants _ _ ts (advance-Grants TokenKind.lbracket ts h) λ a us (ea, ha).
      at-Grants _ _ _ us
        (λ close.
          then-Grants _ _ us (advance-Grants TokenKind.rbracket us close)
            λ b vs (eb, hb). pure-Grants _ vs (rw (ea, eb) (open_length ha hb)))
        (λ _. bind-Grants _ _ us (expect-Grants _ us) λ i vs (ei, hi).
          bind-Grants _ _ vs (length_value-Grants i i.value vs) λ n ws (ew, hn).
            then-Grants _ _ ws (expect-Grants _ ws)
              λ b xs (eb, hb). pure-Grants _ xs (rw (ea, ei, sym ew, eb) (fixed ha hi hn hb)))

-- With a parser of the types inside that reads only types.
module _ (fuel : ℕ) (type : Parser TypeRef)
    (ih : (ts : List Token) → Grants (ReadsType ts) (type ts)) where
  items-Grants :
      (k : ℕ) (end : TokenKind) (ts : List Token)
      → Grants (ReadsItems end ts) (comma_items k end type ts)
  unfolding comma_items
  items-Grants zero end ts = loops
  items-Grants (suc k) end ts = bind-Grants _ _ ts (ih ts) λ t us h.
      at-Grants _ _ _ us
        (λ c. then-Grants _ _ us (advance-Grants TokenKind.comma us c) λ x vs (ex, hx).
          at-Grants end _ _ vs
            (λ e. pure-Grants _ vs (ReadsItems.trailing (subst (λ r. ReadsType ts t r) ex h) hx e))
            (λ o. bind-Grants _ _ vs (items-Grants k end vs) λ ts' ws d.
              pure-Grants _ ws (ReadsItems.more (subst (λ r. ReadsType ts t r) ex h) hx o d)))
        (λ o. pure-Grants _ us (ReadsItems.last h o))

  list-Grants :
      (end : TokenKind) (ts : List Token) → Grants (ReadsList end ts) (comma_list fuel end type ts)
  unfolding comma_list
  list-Grants end ts =
      at-Grants end _ _ ts (λ e. pure-Grants _ ts (ReadsList.empty e))
        (λ o. bind_id (items-Grants fuel end ts) λ types r d. ReadsList.items o d)
    where
      bind_id :
          {P Q : List TypeRef → List Token → Type 0}
          {o : Outcome ParseError (List TypeRef × List Token)}
          → Grants P o
          → ((a : List TypeRef) (r : List Token) → P a r → Q a r)
          → Grants Q o
      bind_id (grants h) k = grants (k _ _ h)
      bind_id refuses k = refuses
      bind_id loops k = loops

  -- A list of type arguments in its brackets.
  abbrev ReadsArgs : List Token → List TypeRef → List Token → Type 0
  ReadsArgs ts args r =
      (a : Token) × (b : Token) × (us : List Token) × (ts ≡ a ∷ us)
      × Is TokenKind.lbracket a
      × ReadsList TokenKind.rbracket us args (b ∷ r)
      × Is TokenKind.rbracket b

  args-Grants : (ts : List Token) → Grants (ReadsArgs ts) (parse_type_args_with fuel type ts)
  unfolding parse_type_args_with
  args-Grants ts = then-Grants _ _ ts (expect-Grants _ ts) λ a us (ea, ha).
      bind-Grants _ _ us (list-Grants _ us) λ args vs d.
        then-Grants _ _ vs (expect-Grants _ vs) λ b ws (eb, hb).
          pure-Grants _ ws
            (a, b, us, ea, ha, subst (λ r. ReadsList TokenKind.rbracket us args r) eb d, hb)

  named-Grants : (ts : List Token) → Grants (ReadsType ts) (parse_named_type fuel type ts)
  unfolding parse_named_type dotted
  named-Grants ts = bind-Grants _ _ ts (expect_text-Grants _ ts) λ n us (i, ei, hi, vi).
      bind-Grants {P = ReadsName ts} _ _ us
        (at-Grants _ _ _ us
          (λ d. then-Grants _ _ us (advance-Grants TokenKind.dot us d) λ x vs (ex, hx).
            bind-Grants _ _ vs (expect_text-Grants _ vs) λ m ws (j, ej, hj, vj).
              pure-Grants _ ws (rw (ei, ex, ej) (ReadsName.dotted hi vi hx hj vj)))
          (λ other. pure-Grants _ us (rw ei (ReadsName.simple hi vi other))))
        λ name vs hn.
          at-Grants _ _ _ vs
            (λ _. bind-Grants _ _ vs (args-Grants vs) λ args ws (a, b, xs, ea, ha, d, hb).
              pure-Grants _ ws (ReadsType.applied (subst (λ r. ReadsName ts name r) ea hn) ha d hb))
            (λ other. pure-Grants _ vs (ReadsType.name_of hn other))

  function-Grants :
      (f : Token)
      → Is TokenKind.fun_kw f
      → (us : List Token) → Grants (ReadsType (f ∷ us)) (parse_function_type fuel type us)
  unfolding parse_function_type
  function-Grants f hf us = then-Grants _ _ us (expect-Grants _ us) λ a vs (ea, ha).
      bind-Grants _ _ vs (list-Grants _ vs) λ ps ws d.
        then-Grants _ _ ws (expect-Grants _ ws) λ b xs (eb, hb).
          bind-Grants _ _ xs (ih xs) λ t ys h.
            bind-Grants _ _ ys (accept-Grants _ ys) λ fallible zs acc. pure-Grants _ zs (
              rw ea (
                marked fallible hf ha (subst (λ r. ReadsList TokenKind.rparen vs ps r) eb d) hb h
                  acc))
    where
      marked :
          {a b : Token} {vs xs ys zs : List Token} {ps : List TypeRef} {t : TypeRef}
          (fallible : Bool)
          → Is TokenKind.fun_kw f
          → Is TokenKind.lparen a
          → ReadsList TokenKind.rparen vs ps (b ∷ xs)
          → Is TokenKind.rparen b
          → ReadsType xs t ys
          → Accepted TokenKind.err_kw ys fallible zs
          → ReadsType (f ∷ a ∷ vs) (function (type_refs ps) t fallible) zs
      marked {xs = xs} {t = t} true hf ha d hb h (e, (ee, he)) =
          ReadsType.fallible_of hf ha d hb (subst (λ r. ReadsType xs t r) ee h) he
      marked {a = a} {vs = vs} {ps = ps} {t = t} false hf ha d hb h (same, other) =
          subst (λ r. ReadsType (f ∷ a ∷ vs) (function (type_refs ps) t false) r) (sym same)
            (ReadsType.function_of hf ha d hb h other)

  sequence_of-Reads :
      {ts us r : List Token} {t : TypeRef} (n : Option ℕ)
      → ReadsLength ts n us
      → ReadsType us t r
      → ReadsType ts (sequence_of n t) r
  sequence_of-Reads none (open_length a b) h = ReadsType.slice_of a b h
  sequence_of-Reads (some n) (fixed a i e b) h = ReadsType.array_of a i e b h

  type_with-Grants : (ts : List Token) → Grants (ReadsType ts) (parse_type_with fuel type ts)
  unfolding parse_type_with
  type_with-Grants ts =
      at-Grants _ _ _ ts
        (λ q. then-Grants _ _ ts (advance-Grants TokenKind.question ts q) λ x us (ex, hx).
          then-Grants _ _ us (expect-Grants _ us) λ s vs (es, hs).
            bind-Grants _ _ vs (ih vs)
              λ t r h. pure-Grants _ r (rw (ex, es) (ReadsType.nullable hx hs h)))
        λ _.
          at-Grants _ _ _ ts
            (λ q.
              then-Grants _ _ ts (advance-Grants TokenKind.fun_kw ts q)
                λ f us (ef, hf). rw ef (function-Grants f hf us))
            λ _.
              at-Grants _ _ _ ts
                (λ q. then-Grants _ _ ts (advance-Grants TokenKind.star ts q) λ s us (es, hs).
                  bind-Grants _ _ us (ih us) λ t r h. pure-Grants _ r (rw es (ReadsType.star hs h)))
                λ _.
                  at-Grants _ _ _ ts
                    (λ q. bind-Grants _ _ ts (parse_length-Grants ts q) λ n us d.
                      bind-Grants _ _ us (ih us) λ t r h. pure-Grants _ r (sequence_of-Reads n d h))
                    λ _. named-Grants ts

parse_type-Grants : (n : ℕ) (ts : List Token) → Grants (ReadsType ts) (parse_type n ts)
unfolding parse_type
parse_type-Grants zero ts = loops
parse_type-Grants (suc n) ts = type_with-Grants n (parse_type n) (parse_type-Grants n) ts

pair_eq :
    {A : Type 0} {o : Outcome ParseError (A × List Token)} {x y : A × List Token}
    → o ≡ ok x
    → o ≡ ok y
    → x ≡ y
pair_eq e e' = cc

Grants-ok :
    {A : Type 0} {P : A → List Token → Type 0} {o : Outcome ParseError (A × List Token)} {a : A}
    {r : List Token}
    → Grants P o
    → o ≡ ok (a, r)
    → P a r
Grants-ok {P = P} (grants {a = a} {r = r} h) e =
    subst (λ (x : _ × List Token). P x.0 x.1) (pair_eq refl e) h
Grants-ok refuses e = cc
Grants-ok loops e = cc

-- `_parse_type` reads exactly the types of the grammar: on any tokens, with fuel for them, it returns a type and
-- leaves a rest if and only if the grammar reads that type from the tokens and leaves that rest. So it takes as
-- much as it can: no dot or bracket follows a name, and no `err` a function type without one.
pub parse_type_iff :
    (n : ℕ) (ts r : List Token) (t : TypeRef)
    → length ts ≤ n
    → (parse_type n ts ≡ ok (t, r)) ↔ ReadsType ts t r
parse_type_iff n ts r t le = (λ e. Grants-ok (parse_type-Grants n ts) e, λ h. parse_type-Run h n le)
