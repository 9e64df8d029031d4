-- ===== src/Symtab/Kept/Levels.antt =====
-- compiler/symtab.py: the well-formed tables, whose scopes record their own depth, and the growth of a
-- table during a pass.
use new_cl_lang.Base.{
  ℕ, suc, ◌≡◌, ◌≢◌, sym, ◌∙◌, subst, false, List, [], ◌∷◌, some, All, Bool-cases, inl, inr,
}
use new_cl_lang.Base.Text.{Text, text_eq, text_eq_iff}
use new_cl_lang.Base.Dict.{lookup, insert, contains, lookup-insert}
use new_cl_lang.Python.{pos}
use new_cl_lang.Symtab.Table.{Symbol, Scope, SymbolTable, is_magic_name}

-- What each entry of a scope at depth `n` satisfies.
abbrev pub IsEntry : ℕ → Text → Symbol → Type 0
IsEntry n name symbol =
    (symbol.name ≡ name) × (symbol.scope_level ≡ pos n) × (is_magic_name name ≡ false)

abbrev pub IsScope : ℕ → Scope → Type 0
IsScope n s = All (λ (k, v). IsEntry n k v) s

-- A stack of scopes, the innermost at the given depth and the outermost at 0.
pub data Stacked : ℕ → List Scope → Type 0 where
  outermost : {s : Scope} → IsScope 0 s → Stacked 0 (s ∷ [])
  inside :
      {n : ℕ} {s : Scope} {ss : List Scope}
      → IsScope (suc n) s
      → Stacked n ss
      → Stacked (suc n) (s ∷ ss)

pub record WellFormed (t : SymbolTable) : Type 0 where
  pub depth : ℕ
  pub level_eq : t.level ≡ pos depth
  pub stacked : Stacked depth t.scopes

-- Every symbol of the first scope is in the second, unchanged.
abbrev pub Extends : Scope → Scope → Type 0
Extends s s' = (k : Text) (v : Symbol) → lookup k s ≡ some v → lookup k s' ≡ some v

pub data Grown : List Scope → List Scope → Type 0 where
  no_scopes : Grown [] []
  each :
      {s s' : Scope} {ss ss' : List Scope} → Extends s s' → Grown ss ss' → Grown (s ∷ ss) (s' ∷ ss')

-- From a well-formed table: the new one is well-formed, at the same level, with as many scopes, and has
-- every symbol of the old one in the same scope.
pub record Kept (t t' : SymbolTable) : Type 0 where
  pub well_formed : WellFormed t'
  pub same_level : t'.level ≡ t.level
  pub grown : Grown t.scopes t'.scopes

abbrev pub Keeps : SymbolTable → SymbolTable → Type 0
Keeps t t' = WellFormed t → Kept t t'

pub Grown-refl : (ss : List Scope) → Grown ss ss
Grown-refl [] = no_scopes
Grown-refl (s ∷ ss) = each (λ k v h. h) (Grown-refl ss)

pub Grown-trans : {a b c : List Scope} → Grown a b → Grown b c → Grown a c
Grown-trans no_scopes no_scopes = no_scopes
Grown-trans (each f g) (each f' g') = each (λ k v h. f' k v (f k v h)) (Grown-trans g g')

pub IsScope-insert :
    (n : ℕ) (k : Text) (v : Symbol) (s : Scope)
    → IsScope n s
    → IsEntry n k v
    → IsScope n (insert k v s)
unfolding insert
IsScope-insert n k v [] h e = (e, tt)
IsScope-insert n k v ((j, w) ∷ s) h e = elim (Bool-cases (text_eq j k)) [
  | inl same ↦
      rw (insert, same) (subst (λ x. IsEntry n x v) (sym ((text_eq_iff j k).0 same)) e, h.1)
  | inr other ↦ rw (insert, other) (h.0, IsScope-insert n k v s h.1 e)
]

contains-ne_false : (k : Text) (v : Symbol) (s : Scope) → lookup k s ≡ some v → contains k s ≢ false
contains-ne_false k v s h = rw (contains, h) (λ e. cc)

pub Extends-insert :
    (k : Text) (v : Symbol) (s : Scope) → contains k s ≡ false → Extends s (insert k v s)
Extends-insert k v s new j w h = lookup-insert k j v s ∙ elim (Bool-cases (text_eq k j)) [
  | inl same ↦ absurd (
      contains-ne_false k w s (subst (λ x. lookup x s ≡ some w) (sym ((text_eq_iff k j).0 same)) h)
        new)
  | inr other ↦ rw other h
]

pub Keeps-same_scopes :
    (t t' : SymbolTable) → t'.scopes ≡ t.scopes → t'.level ≡ t.level → Keeps t t'
Keeps-same_scopes t t' es el wf = record {
  well_formed = record {
    depth = wf.depth;
    level_eq = el ∙ wf.level_eq;
    stacked = subst (Stacked wf.depth) (sym es) wf.stacked;
  };
  same_level = el;
  grown = subst (Grown t.scopes) (sym es) (Grown-refl t.scopes);
}

pub Keeps-trans : {t₁ t₂ t₃ : SymbolTable} → Keeps t₁ t₂ → Keeps t₂ t₃ → Keeps t₁ t₃
Keeps-trans f g wf =
    let k = f wf in
    let k' = g k.well_formed in
    record {
      well_formed = k'.well_formed;
      same_level = k'.same_level ∙ k.same_level;
      grown = Grown-trans k.grown k'.grown;
    }

pub Stacked-declared :
    {n : ℕ} {s : Scope} {ss : List Scope} (k : Text) (v : Symbol)
    → Stacked n (s ∷ ss)
    → IsEntry n k v
    → Stacked n (insert k v s ∷ ss)
Stacked-declared {s = s} k v (outermost h) e = outermost (IsScope-insert 0 k v s h e)
Stacked-declared {s = s} k v (inside {n} h r) e = inside (IsScope-insert (suc n) k v s h e) r
