-- ===== src/Parser/Grammar.antt =====
-- compiler/parser.py: the grammar of types, as a relation between the tokens read, the type, and the tokens left.
use new_cl_lang.Base.{ℕ, ◌≡◌, Bool, true, false, List, [], ◌∷◌, ◌++◌, none}
use new_cl_lang.Base.Text.{Text}
use new_cl_lang.Python.{pos}
use new_cl_lang.Lexer.Token.{TokenKind, TokenValue, number, text, Token}
use new_cl_lang.TypeRef.Syntax.{
  TypeRef, TypeRefs, named, pointer, slice, array, function, generic, nil, cons,
}
use new_cl_lang.Parser.State.{same_kind}
use new_cl_lang.Parser.Types.{type_refs}
pub mod Runs
pub mod Complete
pub mod Grants
pub mod Sound

abbrev pub Is : TokenKind → Token → Type 0
Is k t = same_kind t.kind k ≡ true

abbrev pub Other : TokenKind → Token → Type 0
Other k t = same_kind t.kind k ≡ false

-- What the next token is, or is not.
abbrev pub Next : TokenKind → List Token → Type 0
Next k [] = ⊥
Next k (t ∷ ts) = Is k t

abbrev pub NextOther : TokenKind → List Token → Type 0
NextOther k [] = ⊥
NextOther k (t ∷ ts) = Other k t

-- `name` and `module.name`; no dot follows a name alone.
pub data ReadsName : List Token → Text → List Token → Type 0 where
  simple :
      {i : Token} {n : Text} {r : List Token}
      → Is TokenKind.ident i
      → i.value ≡ text n
      → NextOther TokenKind.dot r
      → ReadsName (i ∷ r) n r
  dotted :
      {i d j : Token} {m n : Text} {r : List Token}
      → Is TokenKind.ident i
      → i.value ≡ text m
      → Is TokenKind.dot d
      → Is TokenKind.ident j
      → j.value ≡ text n
      → ReadsName (i ∷ d ∷ j ∷ r) (m ++ (b'.' ∷ n)) r

mutual
  pub data ReadsType : List Token → TypeRef → List Token → Type 0 where
    nullable :
        {q s : Token} {ts r : List Token} {t : TypeRef}
        → Is TokenKind.question q
        → Is TokenKind.star s
        → ReadsType ts t r
        → ReadsType (q ∷ s ∷ ts) (pointer t true) r
    star :
        {s : Token} {ts r : List Token} {t : TypeRef}
        → Is TokenKind.star s
        → ReadsType ts t r
        → ReadsType (s ∷ ts) (pointer t false) r
    slice_of :
        {a b : Token} {ts r : List Token} {t : TypeRef}
        → Is TokenKind.lbracket a
        → Is TokenKind.rbracket b
        → ReadsType ts t r
        → ReadsType (a ∷ b ∷ ts) (slice t) r
    array_of :
        {a i b : Token} {n : ℕ} {ts r : List Token} {t : TypeRef}
        → Is TokenKind.lbracket a
        → Is TokenKind.integer i
        → i.value ≡ number n none
        → Is TokenKind.rbracket b
        → ReadsType ts t r
        → ReadsType (a ∷ i ∷ b ∷ ts) (array (pos n) t) r
    function_of :
        {f a b : Token} {ts us r : List Token} {ps : List TypeRef} {t : TypeRef}
        → Is TokenKind.fun_kw f
        → Is TokenKind.lparen a
        → ReadsList TokenKind.rparen ts ps (b ∷ us)
        → Is TokenKind.rparen b
        → ReadsType us t r
        → NextOther TokenKind.err_kw r
        → ReadsType (f ∷ a ∷ ts) (function (type_refs ps) t false) r
    fallible_of :
        {f a b e : Token} {ts us r : List Token} {ps : List TypeRef} {t : TypeRef}
        → Is TokenKind.fun_kw f
        → Is TokenKind.lparen a
        → ReadsList TokenKind.rparen ts ps (b ∷ us)
        → Is TokenKind.rparen b
        → ReadsType us t (e ∷ r)
        → Is TokenKind.err_kw e
        → ReadsType (f ∷ a ∷ ts) (function (type_refs ps) t true) r
    name_of :
        {ts r : List Token} {n : Text}
        → ReadsName ts n r
        → NextOther TokenKind.lbracket r
        → ReadsType ts (named n) r
    applied :
        {a b : Token} {ts us r : List Token} {n : Text} {args : List TypeRef}
        → ReadsName ts n (a ∷ us)
        → Is TokenKind.lbracket a
        → ReadsList TokenKind.rbracket us args (b ∷ r)
        → Is TokenKind.rbracket b
        → ReadsType ts (generic (named n) (type_refs args)) r

  -- A list up to its closing token, which is left.
  pub data ReadsList : TokenKind → List Token → List TypeRef → List Token → Type 0 where
    empty : {end : TokenKind} {r : List Token} → Next end r → ReadsList end r [] r
    items :
        {end : TokenKind} {ts r : List Token} {types : List TypeRef}
        → NextOther end ts
        → ReadsItems end ts types r
        → ReadsList end ts types r

  -- One type or more, with commas between; a comma may stand at the end.
  pub data ReadsItems : TokenKind → List Token → List TypeRef → List Token → Type 0 where
    last :
        {end : TokenKind} {ts r : List Token} {t : TypeRef}
        → ReadsType ts t r
        → NextOther TokenKind.comma r
        → ReadsItems end ts (t ∷ []) r
    trailing :
        {end : TokenKind} {c : Token} {ts r : List Token} {t : TypeRef}
        → ReadsType ts t (c ∷ r)
        → Is TokenKind.comma c
        → Next end r
        → ReadsItems end ts (t ∷ []) r
    more :
        {end : TokenKind} {c : Token} {ts us r : List Token} {t : TypeRef} {types : List TypeRef}
        → ReadsType ts t (c ∷ us)
        → Is TokenKind.comma c
        → NextOther end us
        → ReadsItems end us types r
        → ReadsItems end ts (t ∷ types) r
