-- ===== src/Symtab/Scopes.antt =====
-- compiler/symtab.py: what `declare`, `lookup` and the scopes promise one another.
use new_cl_lang.Base.{
  zero, suc, ◌≡◌, ◌≢◌, inl, inr, refl, sym, ap, ◌∙◌, Bool, true, false, not, ◌&&◌, List, [], ◌∷◌,
  Option, if◌then◌else◌, ok, raised, subst, Bool-cases, Settles, returns, raises, Settles-if,
  Settles-ok,
}
use new_cl_lang.Base.Text.{Text, text_eq, text_eq_iff, text_eq_refl}
use new_cl_lang.Base.Dict.{insert, contains, lookup-insert}
use new_cl_lang.Python.{ℤ, pos, negsuc}
use new_cl_lang.TypeRef.Syntax.{TypeRef}
use new_cl_lang.TypeRef.Split.{incr, decr}
use new_cl_lang.Symtab.Table.{
  Symbol, Scope, SymbolTable, reserved_magic, runtime_name, is_magic_name, is_runtime_name,
  check_runtime_name, push_scope, pop_scope, pop_scopes, declare, declare_in, lookup_in,
  lookup_symbol,
}

-- The table with a symbol in its innermost scope `s`.
abbrev pub with_symbol :
    Text → Option TypeRef → (immutable : Bool) → Scope → List Scope → SymbolTable → SymbolTable
with_symbol name nc_type immutable s ss t = record t {
  scopes =
      insert name
        (record { name = name; nc_type = nc_type; scope_level = t.level; immutable = immutable }) s
      ∷ ss;
}

text_eq_ne : {s t : Text} → s ≢ t → text_eq s t ≡ false
text_eq_ne {s} {t} ne = elim (Bool-cases (text_eq s t)) [
  | inl h ↦ absurd (ne ((text_eq_iff s t).0 h))
  | inr h ↦ h
]

-- The guards of `declare`, before the table is touched.
pub declare-guards :
    (name : Text) (nc_type : Option TypeRef) (allow immutable : Bool) (t : SymbolTable)
    → declare name nc_type allow immutable t ≡ (
        if is_magic_name name
        then raised (reserved_magic name)
        else if not allow && is_runtime_name name
        then raised (runtime_name name)
        else declare_in t.scopes name nc_type immutable t)
unfolding declare check_runtime_name
declare-guards name nc_type true immutable t = refl
declare-guards name nc_type false immutable t = elim (Bool-cases (is_magic_name name)) [
  | inl m ↦ rw m refl
  | inr m ↦ elim (Bool-cases (is_runtime_name name)) [
    | inl r ↦ rw (m, r) refl
    | inr r ↦ rw (m, r) refl
  ]
]

-- A successful `declare`, inverted.
pub record Declared (name : Text) (nc_type : Option TypeRef) (immutable : Bool) (t t' : SymbolTable)
    : Type 0 where
  pub inner : Scope
  pub outer : List Scope
  pub scopes_eq : t.scopes ≡ inner ∷ outer
  pub is_new : contains name inner ≡ false
  pub not_magic : is_magic_name name ≡ false
  pub result_eq : t' ≡ with_symbol name nc_type immutable inner outer t

declare_in-Settles :
    (name : Text) (nc_type : Option TypeRef) (immutable : Bool) (scopes : List Scope)
    (t : SymbolTable)
    → t.scopes ≡ scopes
    → is_magic_name name ≡ false
    → Settles (Declared name nc_type immutable t) (declare_in scopes name nc_type immutable t)
unfolding declare_in
declare_in-Settles name nc_type immutable [] t e m = raises
declare_in-Settles name nc_type immutable (s ∷ ss) t e m =
    Settles-if (contains name s) (λ _. raises)
      (λ new. returns (record {
        inner = s;
        outer = ss;
        scopes_eq = e;
        is_new = new;
        not_magic = m;
        result_eq = refl;
      }))

pub declare-Settles :
    (name : Text) (nc_type : Option TypeRef) (allow immutable : Bool) (t : SymbolTable)
    → Settles (Declared name nc_type immutable t) (declare name nc_type allow immutable t)
declare-Settles name nc_type allow immutable t =
    subst (Settles (Declared name nc_type immutable t))
      (sym (declare-guards name nc_type allow immutable t))
      (Settles-if (is_magic_name name) (λ _. raises)
        (λ m.
          Settles-if (not allow && is_runtime_name name) (λ _. raises)
            (λ _. declare_in-Settles name nc_type immutable t.scopes t refl m)))

lookup_in-declared :
    (name : Text) (d : Symbol) (s : Scope) (ss : List Scope)
    → (lookup_in name (insert name d s ∷ ss) ≡ ok d)
      × ((other : Text)
          → name ≢ other
          → lookup_in other (insert name d s ∷ ss) ≡ lookup_in other (s ∷ ss))
unfolding lookup_in
lookup_in-declared name d s ss = (
  rw (lookup_in, lookup-insert name name d s, text_eq_refl name) refl,
  λ other ne. rw (lookup_in, lookup-insert name other d s, text_eq_ne ne) refl,
)

-- After a name is declared, looking it up gives its symbol, with the type it was declared with, whatever
-- symbols of that name the outer scopes have; and looking up any other name gives what it gave before.
pub lookup_symbol-declare :
    (name : Text) (nc_type : Option TypeRef) (allow immutable : Bool) (t t' : SymbolTable)
    → declare name nc_type allow immutable t ≡ ok t'
    → (lookup_symbol name t'
        ≡ ok (record {
          name = name;
          nc_type = nc_type;
          scope_level = t.level;
          immutable = immutable;
        }))
      × ((other : Text) → name ≢ other → lookup_symbol other t' ≡ lookup_symbol other t)
unfolding lookup_symbol
lookup_symbol-declare name nc_type allow immutable t t' h = (
  ap (lookup_in name) scopes ∙ looked_up.0,
  λ other ne.
      ap (lookup_in other) scopes ∙ looked_up.1 other ne ∙ sym (ap (lookup_in other) d.scopes_eq),
)
  where
    d : Declared name nc_type immutable t t'
    d = Settles-ok (declare-Settles name nc_type allow immutable t) h

    new : Symbol
    new = record { name = name; nc_type = nc_type; scope_level = t.level; immutable = immutable }

    scopes : t'.scopes ≡ insert name new d.inner ∷ d.outer
    scopes = ap (λ x. x.scopes) d.result_eq

    looked_up :
        (lookup_in name (insert name new d.inner ∷ d.outer) ≡ ok new)
        × ((other : Text)
            → name ≢ other
            → lookup_in other (insert name new d.inner ∷ d.outer)
              ≡ lookup_in other (d.inner ∷ d.outer))
    looked_up = lookup_in-declared name new d.inner d.outer

pub decr-incr : (l : ℤ) → decr (incr l) ≡ l
decr-incr (pos n) = refl
decr-incr (negsuc zero) = refl
decr-incr (negsuc (suc n)) = refl

tails : {s s' : Scope} {ss ss' : List Scope} → ◌≡◌ {A = List Scope} (s ∷ ss) (s' ∷ ss') → ss ≡ ss'
tails e = cc

-- A declaration in a scope that was just entered is gone when the scope is left: the table is the one
-- from before.
pub pop_scope-declare :
    (name : Text) (nc_type : Option TypeRef) (allow immutable : Bool) (t t' : SymbolTable)
    → declare name nc_type allow immutable (push_scope t) ≡ ok t'
    → pop_scope t' ≡ ok t
unfolding pop_scope pop_scopes push_scope
pop_scope-declare name nc_type allow immutable t t' h =
    ap pop_scope d.result_eq
    ∙ ap (λ ss. ok (record t { scopes = ss; level = decr (incr t.level) }))
        (sym (tails d.scopes_eq))
    ∙ ap (λ l. ok (record t { level = l })) (decr-incr t.level)
  where
    d : Declared name nc_type immutable (push_scope t) t'
    d = Settles-ok (declare-Settles name nc_type allow immutable (push_scope t)) h
