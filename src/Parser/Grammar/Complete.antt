-- ===== src/Parser/Grammar/Complete.antt =====
-- `_parse_type` reads every type of the grammar.
use new_cl_lang.Base.{
  ℕ, zero, suc, ◌≤◌, ◌<◌, ◌≡◌, refl, Bool, true, false, List, [], ◌∷◌, none, length, arith, ok,
}
use new_cl_lang.Base.Text.{Text}
use new_cl_lang.Python.{pos}
use new_cl_lang.Lexer.Token.{TokenKind, number, Token}
use new_cl_lang.TypeRef.Syntax.{TypeRef, named, pointer, slice, array, function, generic}
use new_cl_lang.Parser.State.{
  Parser, same_kind, kind_value, pure, ◌>>=◌, at, accept, comma_items, comma_list,
}
use new_cl_lang.Parser.Types.{
  type_refs, length_value, length_of, parse_length, sequence_of, parse_type_args_with,
  parse_named_type, parse_function_type, parse_type_with, parse_type,
}
use new_cl_lang.Parser.Grammar.Runs.{
  Run, Is-Other, bind-Run, then-Run, pure-Run, at-Run, at-Run_else, advance-Run, expect-Run,
  accept-Run, accept-Run_else, expect_text-Run, dotted-Run,
}
use new_cl_lang.Parser.Grammar.{Is, Next, NextOther, ReadsName, ReadsType, ReadsList, ReadsItems}

name-length : {ts r : List Token} {n : Text} → ReadsName ts n r → length r < length ts
name-length (ReadsName.simple a b c) = omega arith
name-length (ReadsName.dotted a b c d e) = omega arith

mutual
  type-length : {ts r : List Token} {t : TypeRef} → ReadsType ts t r → length r < length ts
  type-length (ReadsType.nullable a b h) = omega (arith, type-length h)
  type-length (ReadsType.star a h) = omega (arith, type-length h)
  type-length (ReadsType.slice_of a b h) = omega (arith, type-length h)
  type-length (ReadsType.array_of a b c d h) = omega (arith, type-length h)
  type-length (ReadsType.function_of a b l c h d) = omega (arith, list-length l, type-length h)
  type-length (ReadsType.fallible_of a b l c h d) = omega (arith, list-length l, type-length h)
  type-length (ReadsType.name_of n a) = name-length n
  type-length (ReadsType.applied n a l b) = omega (arith, name-length n, list-length l)

  list-length :
      {end : TokenKind} {ts r : List Token} {types : List TypeRef}
      → ReadsList end ts types r
      → length r ≤ length ts
  list-length (ReadsList.empty a) = omega arith
  list-length (ReadsList.items a h) = omega (arith, items-length h)

  items-length :
      {end : TokenKind} {ts r : List Token} {types : List TypeRef}
      → ReadsItems end ts types r
      → length r < length ts
  items-length (ReadsItems.last h a) = type-length h
  items-length (ReadsItems.trailing h a b) = omega (arith, type-length h)
  items-length (ReadsItems.more h a b k) = omega (arith, type-length h, items-length k)

-- What the parser does with the tokens of a name, a type and a list.
length_of-Run :
    (i : Token) (n : ℕ) (ts : List Token) → i.value ≡ number n none → Run (length_of i) ts n ts
unfolding length_of length_value pure
length_of-Run i n ts e = rw e refl

other : same_kind TokenKind.integer TokenKind.rbracket ≡ false
unfolding same_kind kind_value
other = refl

-- The name, behind which the choice between a name and an application is made.
module _ (type : Parser TypeRef) (fuel : ℕ) where
  abbrev arguments : Text → Parser TypeRef
  arguments name =
      at TokenKind.lbracket
        (parse_type_args_with fuel type >>= λ args. pure (generic (named name) (type_refs args)))
        (pure (named name))

  name-Run :
      {ts r us : List Token} {n : Text} {t : TypeRef}
      → ReadsName ts n r
      → Run (arguments n) r t us
      → Run (parse_named_type fuel type) ts t us
  unfolding parse_named_type
  name-Run (ReadsName.simple a e c) k =
      bind-Run _ _ _ (expect_text-Run _ _ _ _ a e)
        (bind-Run _ _ _ (at-Run_else _ _ _ _ c (pure-Run _ _)) k)
  name-Run (ReadsName.dotted a e c d e') k = bind-Run _ _ _ (expect_text-Run _ _ _ _ a e) (
      bind-Run _ _ _ (at-Run _ _ _ _ c (then-Run _ _ _ (advance-Run _ _) (dotted-Run _ _ _ _ d e')))
        k)

  arguments-Run :
      (n : Text) (a : Token) {b : Token} (us : List Token) {r : List Token} {args : List TypeRef}
      → Is TokenKind.lbracket a
      → Run (comma_list fuel TokenKind.rbracket type) us args (b ∷ r)
      → Is TokenKind.rbracket b
      → Run (arguments n) (a ∷ us) (generic (named n) (type_refs args)) r
  unfolding parse_type_args_with
  arguments-Run n _ _ a l b = at-Run _ _ _ _ a (
      bind-Run _ _ _
        (then-Run _ _ _ (expect-Run _ _ _ a)
          (bind-Run _ _ _ l (then-Run _ _ _ (expect-Run _ _ _ b) (pure-Run _ _))))
        (pure-Run _ _))

  function-Run :
      (a : Token) {b : Token} (ts : List Token) {us r r' : List Token} {ps : List TypeRef}
      {t : TypeRef} {fallible : Bool}
      → Is TokenKind.lparen a
      → Run (comma_list fuel TokenKind.rparen type) ts ps (b ∷ us)
      → Is TokenKind.rparen b
      → Run type us t r
      → Run (accept TokenKind.err_kw) r fallible r'
      → Run (parse_function_type fuel type) (a ∷ ts) (function (type_refs ps) t fallible) r'
  unfolding parse_function_type
  function-Run _ _ a l b h k = then-Run _ _ _ (expect-Run _ _ _ a) (
      bind-Run _ _ _ l
        (then-Run _ _ _ (expect-Run _ _ _ b) (bind-Run _ _ _ h (bind-Run _ _ _ k (pure-Run _ _)))))

  slice-Run :
      (a b : Token) (ts : List Token) {r : List Token} {t : TypeRef}
      → Is TokenKind.lbracket a
      → Is TokenKind.rbracket b
      → Run type ts t r
      → Run
          (parse_length >>= λ n. type >>= λ elem. pure (sequence_of n elem))
          (a ∷ b ∷ ts)
          (slice t)
          r
  unfolding parse_length
  slice-Run _ _ _ a b h =
      bind-Run _ _ _
        (then-Run _ _ _ (advance-Run _ _)
          (at-Run _ _ _ _ b (then-Run _ _ _ (advance-Run _ _) (pure-Run _ _))))
        (bind-Run _ _ _ h (pure-Run _ _))

  array-Run :
      (a i b : Token) (n : ℕ) (ts : List Token) {r : List Token} {t : TypeRef}
      → Is TokenKind.lbracket a
      → Is TokenKind.integer i
      → i.value ≡ number n none
      → Is TokenKind.rbracket b
      → Run type ts t r
      → Run
          (parse_length >>= λ k. type >>= λ elem. pure (sequence_of k elem))
          (a ∷ i ∷ b ∷ ts)
          (array (pos n) t)
          r
  unfolding parse_length
  array-Run _ i _ n _ a h e b k =
      bind-Run _ _ _
        (then-Run _ _ _ (advance-Run _ _) (
          at-Run_else _ _ _ _ (Is-Other i TokenKind.integer TokenKind.rbracket h other) (
            bind-Run _ _ _ (expect-Run _ _ _ h) (
              bind-Run _ _ _ (length_of-Run i n _ e)
                (then-Run _ _ _ (expect-Run _ _ _ b) (pure-Run _ _))))))
        (bind-Run _ _ _ k (pure-Run _ _))

-- The forms of a type, by the kind of their first token.
module _ (type : Parser TypeRef) (fuel : ℕ) where
  nullable-Run :
      (q s : Token) (ts : List Token) {r : List Token} {t : TypeRef}
      → Is TokenKind.question q
      → Is TokenKind.star s
      → Run type ts t r
      → Run (parse_type_with fuel type) (q ∷ s ∷ ts) (pointer t true) r
  unfolding parse_type_with
  nullable-Run _ _ _ a b h = at-Run _ _ _ _ a (
      then-Run _ _ _ (advance-Run _ _)
        (then-Run _ _ _ (expect-Run _ _ _ b) (bind-Run _ _ _ h (pure-Run _ _))))

  fun-Run :
      (f : Token) (ts : List Token) {r : List Token} {t : TypeRef}
      → Is TokenKind.fun_kw f
      → Run (parse_function_type fuel type) ts t r
      → Run (parse_type_with fuel type) (f ∷ ts) t r
  unfolding parse_type_with same_kind kind_value
  fun-Run f _ a h =
      at-Run_else _ _ _ _ (Is-Other f TokenKind.fun_kw TokenKind.question a refl)
        (at-Run _ _ _ _ a (then-Run _ _ _ (advance-Run _ _) h))

  star-Run :
      (s : Token) (ts : List Token) {r : List Token} {t : TypeRef}
      → Is TokenKind.star s
      → Run type ts t r
      → Run (parse_type_with fuel type) (s ∷ ts) (pointer t false) r
  unfolding parse_type_with same_kind kind_value
  star-Run s _ a h = at-Run_else _ _ _ _ (Is-Other s TokenKind.star TokenKind.question a refl) (
      at-Run_else _ _ _ _ (Is-Other s TokenKind.star TokenKind.fun_kw a refl)
        (at-Run _ _ _ _ a (then-Run _ _ _ (advance-Run _ _) (bind-Run _ _ _ h (pure-Run _ _)))))

  bracket-Run :
      (a : Token) (ts : List Token) {r : List Token} {t : TypeRef}
      → Is TokenKind.lbracket a
      → Run (parse_length >>= λ n. type >>= λ elem. pure (sequence_of n elem)) (a ∷ ts) t r
      → Run (parse_type_with fuel type) (a ∷ ts) t r
  unfolding parse_type_with same_kind kind_value
  bracket-Run a _ h k =
      at-Run_else _ _ _ _ (Is-Other a TokenKind.lbracket TokenKind.question h refl) (
        at-Run_else _ _ _ _ (Is-Other a TokenKind.lbracket TokenKind.fun_kw h refl) (
          at-Run_else _ _ _ _ (Is-Other a TokenKind.lbracket TokenKind.star h refl)
            (at-Run _ _ _ _ h k)))

  ident-Run :
      (i : Token) (ts : List Token) {r : List Token} {t : TypeRef}
      → Is TokenKind.ident i
      → Run (parse_named_type fuel type) (i ∷ ts) t r
      → Run (parse_type_with fuel type) (i ∷ ts) t r
  unfolding parse_type_with same_kind kind_value
  ident-Run i _ h k = at-Run_else _ _ _ _ (Is-Other i TokenKind.ident TokenKind.question h refl) (
      at-Run_else _ _ _ _ (Is-Other i TokenKind.ident TokenKind.fun_kw h refl) (
        at-Run_else _ _ _ _ (Is-Other i TokenKind.ident TokenKind.star h refl)
          (at-Run_else _ _ _ _ (Is-Other i TokenKind.ident TokenKind.lbracket h refl) k)))

  named-Run :
      {ts r us : List Token} {n : Text} {t : TypeRef}
      → ReadsName ts n r
      → Run (arguments type fuel n) r t us
      → Run (parse_type_with fuel type) ts t us
  named-Run (ReadsName.simple a e c) k =
      ident-Run _ _ a (name-Run type fuel (ReadsName.simple a e c) k)
  named-Run (ReadsName.dotted a e c d e') k =
      ident-Run _ _ a (name-Run type fuel (ReadsName.dotted a e c d e') k)

-- The ends of a list, and a round of its loop.
module _ {A : Type 0} (item : Parser A) (fuel : ℕ) (end : TokenKind) where
  last-Run :
      (ts : List Token) {r : List Token} {a : A}
      → Run item ts a r
      → NextOther TokenKind.comma r
      → Run (comma_items (suc fuel) end item) ts (a ∷ []) r
  unfolding comma_items
  last-Run ts h x = bind-Run _ _ ts h (at-Run_else _ _ _ _ x (pure-Run _ _))

  trailing-Run :
      (ts : List Token) {c : Token} {r : List Token} {a : A}
      → Run item ts a (c ∷ r)
      → Is TokenKind.comma c
      → Next end r
      → Run (comma_items (suc fuel) end item) ts (a ∷ []) r
  unfolding comma_items
  trailing-Run ts h c x =
      bind-Run _ _ ts h
        (at-Run _ _ _ _ c (then-Run _ _ _ (advance-Run _ _) (at-Run _ _ _ _ x (pure-Run _ _))))

  more-Run :
      (ts : List Token) {c : Token} {us r : List Token} {a : A} {as' : List A}
      → Run item ts a (c ∷ us)
      → Is TokenKind.comma c
      → NextOther end us
      → Run (comma_items fuel end item) us as' r
      → Run (comma_items (suc fuel) end item) ts (a ∷ as') r
  unfolding comma_items
  more-Run ts h c x k = bind-Run _ _ ts h (
      at-Run _ _ _ _ c (
        then-Run _ _ _ (advance-Run _ _) (at-Run_else _ _ _ _ x (bind-Run _ _ _ k (pure-Run _ _)))))

  empty-Run : (r : List Token) → Next end r → Run (comma_list fuel end item) r [] r
  unfolding comma_list
  empty-Run r h = at-Run _ _ _ _ h (pure-Run _ _)

  some-Run :
      (ts : List Token) {r : List Token} {as' : List A}
      → NextOther end ts
      → Run (comma_items fuel end item) ts as' r
      → Run (comma_list fuel end item) ts as' r
  unfolding comma_list
  some-Run ts h k = at-Run_else _ _ _ _ h k

no_tokens : {a b : ℕ} → a < b → b ≤ zero → ⊥
no_tokens lt le = omega arith

at_fuel :
    (m : ℕ) {ts r : List Token} {t : TypeRef}
    → ReadsType ts t r
    → length ts ≤ m
    → ((k : ℕ) → length ts ≤ suc k → Run (parse_type_with k (parse_type k)) ts t r)
    → Run (parse_type m) ts t r
unfolding parse_type
at_fuel zero d le h = absurd (no_tokens (type-length d) le)
at_fuel (suc k) d le h = h k le

mutual
  type-Run :
      {ts r : List Token} {t : TypeRef}
      → ReadsType ts t r
      → (m : ℕ) → length ts ≤ suc m
      → Run (parse_type_with m (parse_type m)) ts t r
  type-Run (ReadsType.nullable a b h) m le =
      nullable-Run _ m _ _ _ a b (at_fuel m h (omega arith) (type-Run h))
  type-Run (ReadsType.star a h) m le = star-Run _ m _ _ a (at_fuel m h (omega arith) (type-Run h))
  type-Run (ReadsType.slice_of a b h) m le =
      bracket-Run _ m _ _ a (slice-Run _ m _ _ _ a b (at_fuel m h (omega arith) (type-Run h)))
  type-Run (ReadsType.array_of a i e b h) m le =
      bracket-Run _ m _ _ a
        (array-Run _ m _ _ _ _ _ a i e b (at_fuel m h (omega arith) (type-Run h)))
  type-Run (ReadsType.function_of f a l b h x) m le = fun-Run _ m _ _ f (
      function-Run _ m _ _ a (list-Run l m (omega arith)) b
        (at_fuel m h (omega (arith, list-length l)) (type-Run h)) (accept-Run_else _ _ x))
  type-Run (ReadsType.fallible_of f a l b h x) m le = fun-Run _ m _ _ f (
      function-Run _ m _ _ a (list-Run l m (omega arith)) b
        (at_fuel m h (omega (arith, list-length l)) (type-Run h)) (accept-Run _ _ _ x))
  type-Run (ReadsType.name_of n x) m le = named-Run _ m n (at-Run_else _ _ _ _ x (pure-Run _ _))
  type-Run (ReadsType.applied n a l b) m le =
      named-Run _ m n (arguments-Run _ m _ _ _ a (list-Run l m (omega (arith, name-length n))) b)

  list-Run :
      {end : TokenKind} {ts r : List Token} {types : List TypeRef}
      → ReadsList end ts types r
      → (m : ℕ) → length ts ≤ m
      → Run (comma_list m end (parse_type m)) ts types r
  list-Run (ReadsList.empty h) m le = empty-Run _ m _ _ h
  list-Run (ReadsList.items h d) m le = some-Run _ m _ _ h (items-Run d m m le le)

  items-Run :
      {end : TokenKind} {ts r : List Token} {types : List TypeRef}
      → ReadsItems end ts types r
      → (m k : ℕ) → length ts ≤ m
      → length ts ≤ k
      → Run (comma_items k end (parse_type m)) ts types r
  items-Run d m zero le le' = absurd (no_tokens (items-length d) le')
  items-Run (ReadsItems.last h x) m (suc k) le le' =
      last-Run _ k _ _ (at_fuel m h le (type-Run h)) x
  items-Run (ReadsItems.trailing h c x) m (suc k) le le' =
      trailing-Run _ k _ _ (at_fuel m h le (type-Run h)) c x
  items-Run (ReadsItems.more h c x d) m (suc k) le le' =
      more-Run _ k _ _ (at_fuel m h le (type-Run h)) c x
        (items-Run d m k (omega (arith, type-length h)) (omega (arith, type-length h)))

-- Whatever the grammar of types reads, `_parse_type` reads: with fuel for the tokens it returns the type and leaves the same rest.
pub parse_type-Run :
    {ts r : List Token} {t : TypeRef}
    → ReadsType ts t r
    → (n : ℕ) → length ts ≤ n
    → parse_type n ts ≡ ok (t, r)
parse_type-Run h n le = at_fuel n h le (type-Run h)
