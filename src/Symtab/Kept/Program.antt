-- ===== src/Symtab/Kept/Program.antt =====
-- compiler/symtab.py: each operation of the table keeps it well-formed and loses no symbol, and so does
-- the whole pass.
use new_cl_lang.Base.{
  ℕ, suc, ◌≡◌, refl, sym, ap, ◌∙◌, subst, Bool, false, List, [], ◌∷◌, Option, some, ok, Settles,
  returns, raises, Settles-if, Settles-weaken, Settles-bind, Settles-given,
}
use new_cl_lang.Base.Text.{Text, codes, one_of, text_eq}
use new_cl_lang.Base.Dict.{lookup, insert, contains}
use new_cl_lang.Python.{pos}
use new_cl_lang.TypeRef.Syntax.{TypeRef}
use new_cl_lang.TypeRef.Split.{incr, decr}
use new_cl_lang.Symtab.Table.{
  Symbol, Scope, SymbolTable, NameError, is_magic_name, is_runtime_name, check_runtime_name,
  push_scope, pop_scope, pop_scopes, declare_global, declare_last, lookup_symbol, lookup_in,
}
use new_cl_lang.Symtab.Scopes.{Declared, declare-Settles, with_symbol, decr-incr}
use new_cl_lang.Ast.{Stmts}
use new_cl_lang.Symtab.Build.{raw_symbol, initial_table, build_symbol_table, walk_stmts}
use new_cl_lang.Symtab.Kept.Walk.{WalkLaws, walk_stmts-Settles}
use new_cl_lang.Symtab.Kept.Levels.{
  IsEntry, Stacked, outermost, inside, WellFormed, Grown, no_scopes, each, Kept, Keeps, Grown-refl,
  IsScope-insert, Extends-insert, Keeps-same_scopes, Keeps-trans, Stacked-declared,
}

Declared-Keeps :
    {name : Text} {nc_type : Option TypeRef} {immutable : Bool} {t t' : SymbolTable}
    → Declared name nc_type immutable t t'
    → Keeps t t'
Declared-Keeps {name} {nc_type} {immutable} {t} {t'} d wf =
    subst (Kept t) (sym d.result_eq) (record {
      well_formed = record {
        depth = wf.depth;
        level_eq = wf.level_eq;
        stacked =
            Stacked-declared _ _ (subst (Stacked wf.depth) d.scopes_eq wf.stacked)
              (refl, wf.level_eq, d.not_magic);
      };
      same_level = refl;
      grown =
          subst (λ ss. Grown ss (with_symbol name nc_type immutable d.inner d.outer t).scopes)
            (sym d.scopes_eq) (each (Extends-insert name _ d.inner d.is_new) (Grown-refl d.outer));
    })

declare_last-Settles :
    {n : ℕ} (name : Text) (v : Symbol) (ss : List Scope)
    → Stacked n ss
    → IsEntry 0 name v
    → Settles {E = NameError} (λ ss'. Stacked n ss' × Grown ss ss') (declare_last name v ss)
unfolding declare_last
declare_last-Settles name v [] h e = raises
declare_last-Settles name v (s ∷ []) (outermost h) e =
    Settles-if (contains name s) (λ _. raises)
      (λ new.
        returns
          (outermost (IsScope-insert 0 name v s h e), each (Extends-insert name v s new) no_scopes))
declare_last-Settles name v (s ∷ []) (inside h k) e = elim k [ ]
declare_last-Settles name v (s ∷ r ∷ ss) (inside h k) e =
    Settles-bind (declare_last-Settles name v (r ∷ ss) k e)
      (λ ss' g. returns (inside h g.0, each (λ j w f. f) g.1))

pop_scopes-Settles :
    {n : ℕ} (t t' : SymbolTable) (ss : List Scope)
    → t.level ≡ pos n
    → t'.level ≡ incr t.level
    → Stacked (suc n) ss
    → Grown ([] ∷ t.scopes) ss
    → Settles (Kept t) (pop_scopes ss t')
unfolding pop_scopes
pop_scopes-Settles t t' [] el el' k g = elim k [ ]
pop_scopes-Settles {n} t t' (s ∷ ss) el el' (inside h k) (each f g) = returns (record {
  well_formed = record { depth = n; level_eq = ap decr (el' ∙ ap incr el); stacked = k };
  same_level = ap decr el' ∙ decr-incr t.level;
  grown = g;
})

pos-injective : {m n : ℕ} → pos m ≡ pos n → m ≡ n
pos-injective h = cc

pop_scopes_ends : (ss : List Scope) (t : SymbolTable) → Settles (λ _. Unit {0}) (pop_scopes ss t)
unfolding pop_scopes
pop_scopes_ends [] t = raises
pop_scopes_ends (s ∷ ss) t = returns tt

WellFormed-push_scope : {t : SymbolTable} → WellFormed t → WellFormed (push_scope t)
unfolding push_scope
WellFormed-push_scope wf = record {
  depth = suc wf.depth;
  level_eq = ap incr wf.level_eq;
  stacked = inside tt wf.stacked;
}

Keeps-pop_scope : (t t' : SymbolTable) → Keeps (push_scope t) t' → Settles (Keeps t) (pop_scope t')
unfolding pop_scope push_scope
Keeps-pop_scope t t' keeps = Settles-given (pop_scopes_ends t'.scopes t') popped
  where
    popped : WellFormed t → Settles (Kept t) (pop_scopes t'.scopes t')
    popped wf =
        let k = keeps (WellFormed-push_scope wf) in
        pop_scopes-Settles t t' t'.scopes wf.level_eq k.same_level
          (subst (λ n. Stacked n t'.scopes)
            (pos-injective (sym k.well_formed.level_eq ∙ k.same_level ∙ ap incr wf.level_eq))
            k.well_formed.stacked)
          k.grown

declare_last_ends :
    (name : Text) (v : Symbol) (ss : List Scope)
    → Settles {E = NameError} (λ _. Unit {0}) (declare_last name v ss)
unfolding declare_last
declare_last_ends name v [] = raises
declare_last_ends name v (s ∷ []) = Settles-if (contains name s) (λ _. raises) (λ _. returns tt)
declare_last_ends name v (s ∷ r ∷ ss) =
    Settles-bind (declare_last_ends name v (r ∷ ss)) (λ _ _. returns tt)

check_runtime_name-Settles :
    (name : Text) → Settles (λ _. is_magic_name name ≡ false) (check_runtime_name name)
unfolding check_runtime_name
check_runtime_name-Settles name =
    Settles-if (is_magic_name name) (λ _. raises)
      (λ m. Settles-if (is_runtime_name name) (λ _. raises) (λ _. returns m))

Keeps-declare_global :
    (name : Text) (nc_type : TypeRef) (t : SymbolTable)
    → Settles (Keeps t) (declare_global name nc_type t)
unfolding declare_global
Keeps-declare_global name nc_type t = Settles-bind (check_runtime_name-Settles name) (λ _ m.
    Settles-bind
      (Settles-given (declare_last_ends name global t.scopes) (λ (wf : WellFormed t).
        declare_last-Settles name global t.scopes wf.stacked (refl, refl, m)))
      (λ ss' g. returns (λ wf. record {
        well_formed = record { depth = wf.depth; level_eq = wf.level_eq; stacked = (g wf).0 };
        same_level = refl;
        grown = (g wf).1;
      })))
  where
    global : Symbol
    global = record { name = name; nc_type = some nc_type; scope_level = pos 0; immutable = false }

Keeps-WalkLaws : WalkLaws Keeps
Keeps-WalkLaws = record {
  same_scopes = Keeps-same_scopes;
  trans = Keeps-trans;
  declares = λ name nc_type allow immutable t.
      Settles-weaken (declare-Settles name nc_type allow immutable t) (λ t' d. Declared-Keeps d);
  declares_global = Keeps-declare_global;
  leaves = Keeps-pop_scope;
}

pub WellFormed-initial : WellFormed initial_table
unfolding insert one_of
WellFormed-initial = record {
  depth = 0;
  level_eq = refl;
  stacked = outermost ((refl, refl, refl), tt);
}

lookup_in-Grown :
    (k : Text) (v : Symbol) {s : Scope} {ss : List Scope}
    → Grown (s ∷ []) ss
    → lookup k s ≡ some v
    → lookup_in k ss ≡ ok v
unfolding lookup_in
lookup_in-Grown k v (each f no_scopes) h = rw (lookup_in, f k v h) refl

-- A walk over any statements, from a well-formed table, ends, with an exception or with a well-formed
-- table at the same level, which has as many scopes and, in each, every symbol that the scope had.
pub walk_stmts-Kept :
    (ss : Stmts) (t : SymbolTable) → WellFormed t → Settles (Kept t) (walk_stmts ss t)
walk_stmts-Kept ss t wf = Settles-weaken (walk_stmts-Settles Keeps-WalkLaws ss t) (λ t' k. k wf)

-- For every program, the pass ends, with an exception or with a well-formed table at level 0: one scope,
-- whose symbols have the names they are filed under and level 0, and of which none has the name of a
-- magic constant. In it `raw` is still the compiler's own type.
pub build_symbol_table-WellFormed :
    (program : Stmts)
    → Settles
        (λ t. WellFormed t × (t.level ≡ pos 0) × (lookup_symbol (codes "raw") t ≡ ok raw_symbol))
        (build_symbol_table program)
unfolding build_symbol_table lookup_symbol lookup insert text_eq
build_symbol_table-WellFormed program =
    Settles-weaken (walk_stmts-Settles Keeps-WalkLaws program initial_table) (λ t k.
      let kept = k WellFormed-initial in
      (kept.well_formed, kept.same_level, lookup_in-Grown (codes "raw") raw_symbol kept.grown refl))
