-- ===== src/Symtab/Declares.antt =====
-- compiler/symtab.py: `declare` beside an independent account of what it accepts, refuses and changes.
use new_cl_lang.Base.{
  ◌≡◌, ◌↔◌, ◌⊎◌, inl, inr, refl, sym, ◌∙◌, Bool, true, false, not, ◌&&◌, List, [], ◌∷◌, ◌++◌,
  Option, ok, raised, subst, Bool-cases, arith, ap,
}
use new_cl_lang.Base.Text.{Text, text_eq, text_eq_iff}
use new_cl_lang.Base.Dict.{lookup, insert, contains}
use new_cl_lang.TypeRef.Syntax.{TypeRef}
use new_cl_lang.Symtab.Table.{
  Symbol, Scope, SymbolTable, Raises, reserved_magic, runtime_name, already_declared, no_scope,
  is_magic_name, is_runtime_name, declare, declare_in,
}
use new_cl_lang.Symtab.Scopes.{declare-guards}
use new_cl_lang.Symtab.ReservedNames.{
  MagicName, RuntimeName, is_magic_name_iff, is_runtime_name_iff, not_magic, excluded, permitted,
  permits, refused_runtime,
}

abbrev pub HasKey : Text → Scope → Type 0
HasKey name [] = ⊥
HasKey name ((key, symbol) ∷ scope) = (key ≡ name) ⊎ HasKey name scope

-- What `declare` may answer: a magic name is refused; then a runtime name, unless it is allowed; then
-- any name, if there is no scope; then a name that the innermost scope has. Any other name stands last
-- in that scope, with its type, the level and the flag, and all else in the table stays.
pub data Declares (name : Text) (nc_type : Option TypeRef) (allow immutable : Bool)
    (t : SymbolTable) (r : Raises SymbolTable) : Type 0 where
  magic :
      MagicName name → r ≡ raised (reserved_magic name) → Declares name nc_type allow immutable t r
  runtime :
      ¬ MagicName name
      → allow ≡ false
      → RuntimeName name
      → r ≡ raised (runtime_name name)
      → Declares name nc_type allow immutable t r
  no_scopes :
      ¬ MagicName name
      → (allow ≡ true) ⊎ (¬ RuntimeName name)
      → t.scopes ≡ []
      → r ≡ raised no_scope
      → Declares name nc_type allow immutable t r
  taken :
      (s : Scope) (ss : List Scope)
      → ¬ MagicName name
      → (allow ≡ true) ⊎ (¬ RuntimeName name)
      → t.scopes ≡ s ∷ ss
      → HasKey name s
      → r ≡ raised (already_declared name)
      → Declares name nc_type allow immutable t r
  added :
      (s : Scope) (ss : List Scope)
      → ¬ MagicName name
      → (allow ≡ true) ⊎ (¬ RuntimeName name)
      → t.scopes ≡ s ∷ ss
      → ¬ HasKey name s
      → r
        ≡ ok (record t {
          scopes =
              (s
                ++ (
                  name,
                  record {
                    name = name;
                    nc_type = nc_type;
                    scope_level = t.level;
                    immutable = immutable;
                  },
                )
                  ∷ [])
              ∷ ss;
        })
      → Declares name nc_type allow immutable t r

contains-HasKey : (name : Text) (s : Scope) → contains name s ≡ true → HasKey name s
unfolding lookup
contains-HasKey name [] h = cc
contains-HasKey name ((k, v) ∷ s) h = elim (Bool-cases (text_eq k name)) [
  | inl e ↦ inl ((text_eq_iff k name).0 e)
  | inr e ↦ inr (contains-HasKey name s (rw (e, contains) at h))
]

HasKey-contains : (name : Text) (s : Scope) → HasKey name s → contains name s ≡ true
unfolding lookup
HasKey-contains name [] h = absurd h
HasKey-contains name ((k, v) ∷ s) (inl e) = rw ((text_eq_iff k name).1 e, contains) refl
HasKey-contains name ((k, v) ∷ s) (inr h) = ground (arith, HasKey-contains name s h)

insert-append :
    (name : Text) (v : Symbol) (s : Scope)
    → contains name s ≡ false
    → insert name v s ≡ s ++ (name, v) ∷ []
unfolding lookup insert
insert-append name v [] h = refl
insert-append name v ((k, w) ∷ s) h = ground (arith, insert-append name v s)

lacks_key : (name : Text) (s : Scope) → ¬ HasKey name s → contains name s ≡ false
lacks_key name s h = elim (Bool-cases (contains name s)) [
  | inl m ↦ absurd (h (contains-HasKey name s m))
  | inr m ↦ m
]

module _ (name : Text) (nc_type : Option TypeRef) (allow immutable : Bool) (t : SymbolTable) where
  -- With the guards passed, `declare` is its last part.
  passed :
      is_magic_name name ≡ false
      → (not allow && is_runtime_name name) ≡ false
      → declare name nc_type allow immutable t ≡ declare_in t.scopes name nc_type immutable t
  passed m r = declare-guards name nc_type allow immutable t ∙ rw (m, r) refl

  stopped_magic :
      is_magic_name name ≡ true
      → declare name nc_type allow immutable t ≡ raised (reserved_magic name)
  stopped_magic m = declare-guards name nc_type allow immutable t ∙ rw m refl

  stopped_runtime :
      is_magic_name name ≡ false
      → (not allow && is_runtime_name name) ≡ true
      → declare name nc_type allow immutable t ≡ raised (runtime_name name)
  stopped_runtime m r = declare-guards name nc_type allow immutable t ∙ rw (m, r) refl

  -- The table with the symbol behind the others of the innermost scope.
  abbrev appended : Scope → List Scope → SymbolTable
  appended s ss = record t {
    scopes =
        (s
          ++ (
            name,
            record { name = name; nc_type = nc_type; scope_level = t.level; immutable = immutable },
          )
            ∷ [])
        ∷ ss;
  }

  declare_in-new :
      (s : Scope) (ss : List Scope)
      → contains name s ≡ false
      → declare_in (s ∷ ss) name nc_type immutable t ≡ ok (appended s ss)
  unfolding declare_in
  declare_in-new s ss h = rw (h, insert-append name _ s h) refl

  declare_in-old :
      (s : Scope) (ss : List Scope)
      → contains name s ≡ true
      → declare_in (s ∷ ss) name nc_type immutable t ≡ raised (already_declared name)
  unfolding declare_in
  declare_in-old s ss h = rw h refl

  declare_in-Declares :
      (scopes : List Scope)
      → t.scopes ≡ scopes
      → is_magic_name name ≡ false
      → (not allow && is_runtime_name name) ≡ false
      → Declares name nc_type allow immutable t (declare_in scopes name nc_type immutable t)
  unfolding declare_in
  declare_in-Declares [] e m r = no_scopes (excluded name m) (permits name allow r) e refl
  declare_in-Declares (s ∷ ss) e m r = elim (Bool-cases (contains name s)) [
    | inl old ↦
        taken s ss (excluded name m) (permits name allow r) e (contains-HasKey name s old)
          (declare_in-old s ss old)
    | inr new ↦
        added s ss (excluded name m) (permits name allow r) e (λ k. cc (HasKey-contains name s k))
          (declare_in-new s ss new)
  ]

  declare-Declares :
      Declares name nc_type allow immutable t (declare name nc_type allow immutable t)
  declare-Declares = elim (Bool-cases (is_magic_name name)) [
    | inl m ↦ magic ((is_magic_name_iff name).0 m) (stopped_magic m)
    | inr m ↦ elim (Bool-cases (not allow && is_runtime_name name)) [
      | inl r ↦
          (let (shut, reserved) = refused_runtime name allow r in
            runtime (excluded name m) shut reserved (stopped_runtime m r))
      | inr r ↦
          subst (Declares name nc_type allow immutable t) (sym (passed m r))
            (declare_in-Declares t.scopes refl m r)
    ]
  ]

  Declares-declare :
      (r : Raises SymbolTable)
      → Declares name nc_type allow immutable t r
      → declare name nc_type allow immutable t ≡ r
  unfolding declare_in
  Declares-declare r (magic m e) = stopped_magic ((is_magic_name_iff name).1 m) ∙ sym e
  Declares-declare r (runtime m shut reserved e) =
      stopped_runtime (not_magic name m) (rw (shut, (is_runtime_name_iff name).1 reserved) refl)
      ∙ sym e
  Declares-declare r (no_scopes m p none_left e) =
      passed (not_magic name m) (permitted name allow p)
      ∙ ap (λ ss. declare_in ss name nc_type immutable t) none_left
      ∙ sym e
  Declares-declare r (taken s ss m p top key e) =
      passed (not_magic name m) (permitted name allow p)
      ∙ ap (λ ss. declare_in ss name nc_type immutable t) top
      ∙ declare_in-old s ss (HasKey-contains name s key)
      ∙ sym e
  Declares-declare r (added s ss m p top key e) =
      passed (not_magic name m) (permitted name allow p)
      ∙ ap (λ ss. declare_in ss name nc_type immutable t) top
      ∙ declare_in-new s ss (lacks_key name s key)
      ∙ sym e

-- `declare` answers exactly what the account `Declares` allows, which is one answer for every name, type,
-- flags and table.
pub declare_iff :
    (name : Text) (nc_type : Option TypeRef) (allow immutable : Bool) (t : SymbolTable)
    (r : Raises SymbolTable)
    → (declare name nc_type allow immutable t ≡ r) ↔ Declares name nc_type allow immutable t r
declare_iff name nc_type allow immutable t r = (
  λ e.
      subst (Declares name nc_type allow immutable t) e
        (declare-Declares name nc_type allow immutable t),
  Declares-declare name nc_type allow immutable t r,
)
