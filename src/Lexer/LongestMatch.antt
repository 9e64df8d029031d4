-- ===== src/Lexer/LongestMatch.antt =====
-- compiler/lexer.py: of the symbols that begin at a position the lexer takes the longest.
use new_cl_lang.Base.{
  ℕ, zero, suc, ◌+◌, ◌≤◌, ◌≡◌, refl, true, false, not, ◌&&◌, ◌||◌, inl, inr, Bool, [], ◌∷◌, ◌++◌,
  length, get_elem?, arith, some, none, Option-cases, ok, leb,
}
use new_cl_lang.Base.Text.{Text, after_prefix}
use new_cl_lang.Lexer.Token.{TokenKind, text}
use new_cl_lang.Lexer.Progress.{after_prefix-append}
use new_cl_lang.Lexer.Symbols.{SymbolTable, symbols, match_symbol}
use new_cl_lang.Lexer.Lex.{yields, lex_symbol}

abbrev has_prefix : Text → Text → Bool
has_prefix w t = elim (after_prefix w t) [ none ↦ false | some r ↦ true ]

-- Of two prefixes of a text the shorter is a prefix of the longer.
has_prefix-nested :
    (w v t q s : Text)
    → after_prefix w t ≡ some q
    → after_prefix v t ≡ some s
    → length w ≤ length v
    → has_prefix w v ≡ true
unfolding after_prefix
has_prefix-nested [] v t q s a b h = refl
has_prefix-nested (x ∷ w) [] t q s a b h = absurd (omega arith)
has_prefix-nested (x ∷ w) (y ∷ v) [] q s a b h = cc
has_prefix-nested (x ∷ w) (y ∷ v) (c ∷ t) q s a b h = ground (arith, has_prefix-nested w v t q s)

-- No later symbol both extends `w` and is longer.
dominates : Text → SymbolTable → Bool
dominates w [] = true
dominates w ((v, l) ∷ table) =
    (leb (length v) (length w) || not (has_prefix w v)) && dominates w table

longest_first : SymbolTable → Bool
longest_first [] = true
longest_first ((w, k) ∷ table) = dominates w table && longest_first table

symbols-longest_first : longest_first symbols ≡ true
unfolding longest_first dominates after_prefix
symbols-longest_first = refl

dominates-le :
    (w t q : Text) (table : SymbolTable) (n : ℕ) (v : Text) (l : TokenKind) (s : Text)
    → dominates w table ≡ true
    → after_prefix w t ≡ some q
    → get_elem? table n ≡ some (v, l)
    → after_prefix v t ≡ some s
    → length v ≤ length w
unfolding dominates
dominates-le w t q [] n v l s h a m b = cc
dominates-le w t q ((x, k) ∷ table) zero v l s h a m b = ground (arith, has_prefix-nested w v t q s)
dominates-le w t q ((x, k) ∷ table) (suc n) v l s h a m b =
    dominates-le w t q table n v l s (ground arith) a m b

match_symbol-longest :
    (table : SymbolTable) (t w : Text) (k : TokenKind) (r : Text) (n : ℕ) (v : Text) (l : TokenKind)
    (s : Text)
    → longest_first table ≡ true
    → match_symbol table t ≡ some (w, k, r)
    → get_elem? table n ≡ some (v, l)
    → after_prefix v t ≡ some s
    → length v ≤ length w
unfolding match_symbol longest_first
match_symbol-longest [] t w k r n v l s h e m b = cc
match_symbol-longest ((x, j) ∷ table) t w k r zero v l s h e m b = ground arith
match_symbol-longest ((x, j) ∷ table) t w k r (suc n) v l s h e m b =
    elim (Option-cases (after_prefix x t)) [
      | inl other ↦ ground (arith, match_symbol-longest table t w k r n v l s)
      | inr (q, found) ↦ ground (arith, dominates-le x t q table n v l s)
    ]

match_symbol-none :
    (table : SymbolTable) (t : Text) (n : ℕ) (v : Text) (l : TokenKind)
    → match_symbol table t ≡ none
    → get_elem? table n ≡ some (v, l)
    → after_prefix v t ≡ none
unfolding match_symbol
match_symbol-none [] t n v l e m = cc
match_symbol-none ((x, j) ∷ table) t zero v l e m = ground arith
match_symbol-none ((x, j) ∷ table) t (suc n) v l e m =
    ground (arith, match_symbol-none table t n v l)

match_symbol-splits :
    (table : SymbolTable) (t w : Text) (k : TokenKind) (r : Text)
    → match_symbol table t ≡ some (w, k, r)
    → t ≡ w ++ r
unfolding match_symbol
match_symbol-splits [] t w k r e = cc
match_symbol-splits ((x, j) ∷ table) t w k r e = elim (Option-cases (after_prefix x t)) [
  | inl other ↦ ground (arith, match_symbol-splits table t w k r)
  | inr (q, found) ↦ ground (arith, after_prefix-append x t q found)
]

match_symbol-member :
    (table : SymbolTable) (t w : Text) (k : TokenKind) (r : Text)
    → match_symbol table t ≡ some (w, k, r)
    → (m : ℕ) × (get_elem? table m ≡ some (w, k))
unfolding match_symbol
match_symbol-member [] t w k r e = cc
match_symbol-member ((x, j) ∷ table) t w k r e = elim (Option-cases (after_prefix x t)) [
  | inl other ↦
      let (m, found) = match_symbol-member table t w k r (rw (other, match_symbol) at e) in
      (suc m, found)
  | inr (q, fits) ↦ (zero, ground arith)
]

-- Where some symbol of the language begins, the lexer yields a token at that position, whose text is a
-- symbol of the language that begins there and whose kind is that symbol's; it puts the cursor behind
-- it; and no symbol of the language that begins there is longer.
pub lex_symbol-longest :
    (i c : ℕ) (t : Text) (n : ℕ) (v : Text) (l : TokenKind) (s : Text)
    → get_elem? symbols n ≡ some (v, l)
    → after_prefix v (c ∷ t) ≡ some s
    → (w : Text) × (k : TokenKind) × (r : Text) × (m : ℕ) × (lex_symbol i c t
        ≡ ok (yields (record { kind = k; value = text w; pos = i }) (i + length w) r))
      × (c ∷ t ≡ w ++ r)
      × (get_elem? symbols m ≡ some (w, k))
      × ((o : ℕ) (x : Text) (j : TokenKind) (q : Text)
          → get_elem? symbols o ≡ some (x, j)
          → after_prefix x (c ∷ t) ≡ some q
          → length x ≤ length w)
unfolding lex_symbol
lex_symbol-longest i c t n v l s at_n b = elim (Option-cases (match_symbol symbols (c ∷ t))) [
  | inl none_fits ↦ ground (arith, match_symbol-none symbols (c ∷ t) n v l none_fits at_n)
  | inr ((w, k, r), found) ↦
      let (m, at_m) = match_symbol-member symbols (c ∷ t) w k r found in
      (
        w,
        k,
        r,
        m,
        rw (found, lex_symbol),
        match_symbol-splits symbols (c ∷ t) w k r found,
        at_m,
        λ o x j q at_o fits.
            match_symbol-longest symbols (c ∷ t) w k r o x j q symbols-longest_first found at_o
              fits,
      )
]
