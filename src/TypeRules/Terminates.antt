-- ===== src/TypeRules/Terminates.antt =====
-- compiler/type_rules.py: the searches through struct fields end, also where structs contain each other.
use new_cl_lang.Base.{
  ℕ, zero, suc, ◌+◌, ◌≤◌, ◌<◌, ◌≡◌, refl, sym, subst, false, List, [], ◌∷◌, Option, none, some,
  if◌then◌else◌, Outcome, ok, raised, out_of_fuel, ◌>>=◌, length, arith, Settles, returns, raises,
  Settles-if, Settles-weaken, Settles-bind, Settles-ne-out_of_fuel, Bool-cases, inl, inr,
  Option-cases,
}
use new_cl_lang.Base.Text.{Text, codes, text_eq, text_eq_iff, one_of}
use new_cl_lang.Base.Dict.{Dict, lookup}
use new_cl_lang.TypeRef.Syntax.{TypeRef}
use new_cl_lang.TypeRef.Same.{type_key}
use new_cl_lang.Symtab.Table.{
  Scope, Symbol, SymbolTable, lookup_symbol, lookup_in, lookup_struct, NameError,
}
use new_cl_lang.TypeRules.Comparable.{
  has_kind, Rule, fine, fails, by_name, Verdict, Search, search_fields, search_symbol, search_name,
  search_rule, search_type, hash_rule, comparable_rule, hash_comparable_error_type,
  comparable_error_type,
}

-- The structs that a search has not seen.
abbrev unseen : Dict (Dict TypeRef) → List Text → ℕ
unseen [] seen = 0
unseen ((j, v) ∷ ds) seen = (if one_of j seen then 0 else 1) + unseen ds seen

unseen-le :
    (ds : Dict (Dict TypeRef)) (k : Text) (seen : List Text) → unseen ds (k ∷ seen) ≤ unseen ds seen
unfolding one_of
unseen-le [] k seen = omega arith
unseen-le ((j, v) ∷ ds) k seen = ground (arith, unseen-le ds k seen)

unseen-lt :
    (ds : Dict (Dict TypeRef)) (k : Text) (v : Dict TypeRef) (seen : List Text)
    → lookup k ds ≡ some v
    → one_of k seen ≡ false
    → unseen ds (k ∷ seen) < unseen ds seen
unfolding one_of lookup
unseen-lt [] k v seen h n = cc
unseen-lt ((j, w) ∷ ds) k v seen h n = elim (Bool-cases (text_eq j k)) [
  | inl same ↦ ground (
    arith,
    unseen-le ds k seen,
    subst (λ x. one_of x seen ≡ false) (sym ((text_eq_iff j k).0 same)) n,
  )
  | inr other ↦ ground (arith, unseen-lt ds k v seen)
]

unseen-empty : (ds : Dict (Dict TypeRef)) → unseen ds [] ≡ length ds
unfolding one_of
unseen-empty [] = refl
unseen-empty ((j, v) ∷ ds) = omega (arith, unseen-empty ds)

-- A search that starts with fewer than `n` structs unseen ends, and unsees none.
abbrev Ends : Dict (Dict TypeRef) → ℕ → Search → Type 0
Ends ds n search =
    (t : TypeRef) (seen : List Text)
    → unseen ds seen < n
    → Settles {E = NameError} (λ (v : Verdict). unseen ds v.1 ≤ unseen ds seen) (search t seen)

module _ (ds : Dict (Dict TypeRef)) (n : ℕ) (search : Search) (ends : Ends ds n search) where
  search_fields-Settles :
      (fields : Dict TypeRef) (seen : List Text)
      → unseen ds seen < n
      → Settles (λ (v : Verdict). unseen ds v.1 ≤ unseen ds seen) (search_fields search fields seen)
  unfolding search_fields
  search_fields-Settles [] seen h = returns (omega arith)
  search_fields-Settles ((name, t) ∷ fields) seen h =
      Settles-bind (ends t seen h)
        (λ (err, seen') le. next (search_fields-Settles fields) err seen' le)
    where
      next :
          ((s : List Text)
            → unseen ds s < n
            → Settles {E = NameError}
                (λ (v : Verdict). unseen ds v.1 ≤ unseen ds s)
                (search_fields search fields s))
          → (err : Option TypeRef) (seen' : List Text) → unseen ds seen' ≤ unseen ds seen
          → Settles {E = NameError}
              (λ (v : Verdict). unseen ds v.1 ≤ unseen ds seen)
              (elim err [ some e ↦ ok (some e, seen') | none ↦ search_fields search fields seen' ])
      next rest none seen' le = Settles-weaken (rest seen' (omega arith)) (λ v le'. omega arith)
      next rest (some e) seen' le = returns le

lookup_in_ends : (k : Text) (ss : List Scope) → Settles (λ _. Unit {0}) (lookup_in k ss)
unfolding lookup_in
lookup_in_ends k [] = raises
lookup_in_ends k (s ∷ ss) = elim (Option-cases (lookup k s)) [
  | inl e ↦ rw (lookup_in, e) (lookup_in_ends k ss)
  | inr (v, e) ↦ rw (lookup_in, e) (returns tt)
]

module _ (table : SymbolTable) (n : ℕ) (search : Search) (ends : Ends table.structs n search)
    (t : TypeRef) (seen : List Text) (h : unseen table.structs seen < suc n)
    (new : one_of (type_key t) seen ≡ false) where
  abbrev Ended : Verdict → Type 0
  Ended v = unseen table.structs v.1 ≤ unseen table.structs seen

  search_struct-Settles : Settles Ended (
      lookup_struct (type_key t) table >>= λ fields.
      search_fields search fields (type_key t ∷ seen))
  unfolding lookup_struct
  search_struct-Settles = elim (Option-cases (lookup (type_key t) table.structs)) [
    | inl e ↦ rw e raises
    | inr (fields, e) ↦ rw e (
        let lt = unseen-lt table.structs (type_key t) fields seen e new in
        Settles-weaken
          (search_fields-Settles table.structs n search ends fields (type_key t ∷ seen)
            (omega arith))
          (λ v le. omega arith))
  ]

  search_symbol-Settles :
      (symbol : Symbol) → Settles Ended (search_symbol table search t (type_key t ∷ seen) symbol)
  unfolding search_symbol
  search_symbol-Settles symbol =
      Settles-if (has_kind symbol (codes "enum"))
        (λ _. returns (unseen-le table.structs (type_key t) seen))
        (λ _.
          Settles-if (has_kind symbol (codes "struct")) (λ _. search_struct-Settles)
            (λ _. returns (unseen-le table.structs (type_key t) seen)))

  search_found-Settles :
      (r : Outcome NameError Symbol)
      → Settles (λ _. Unit {0}) r
      → Settles {E = NameError} Ended (elim r [
        | ok symbol ↦ search_symbol table search t (type_key t ∷ seen) symbol
        | raised e ↦ ok (some t, type_key t ∷ seen)
        | out_of_fuel ↦ out_of_fuel
      ])
  search_found-Settles (ok symbol) found = search_symbol-Settles symbol
  search_found-Settles (raised e) found = returns (unseen-le table.structs (type_key t) seen)
  search_found-Settles out_of_fuel found = absurd (Settles-ne-out_of_fuel found refl)

  search_name-Settles : Settles Ended (search_name table search t (type_key t ∷ seen))
  unfolding search_name lookup_symbol
  search_name-Settles =
      search_found-Settles (lookup_in (type_key t) table.scopes)
        (lookup_in_ends (type_key t) table.scopes)

search_rule-Settles :
    (table : SymbolTable) (n : ℕ) (search : Search)
    → Ends table.structs n search
    → (t : TypeRef) (seen : List Text) (r : Rule) → unseen table.structs seen < suc n
    → one_of (type_key t) seen ≡ false
    → Settles
        (λ (v : Verdict). unseen table.structs v.1 ≤ unseen table.structs seen)
        (search_rule table search t (type_key t ∷ seen) r)
unfolding search_rule
search_rule-Settles table n search ends t seen fine h new =
    returns (unseen-le table.structs (type_key t) seen)
search_rule-Settles table n search ends t seen fails h new =
    returns (unseen-le table.structs (type_key t) seen)
search_rule-Settles table n search ends t seen by_name h new =
    search_name-Settles table n search ends t seen h new

search_type-Ends :
    (rule : SymbolTable → TypeRef → Rule) (table : SymbolTable) (fuel : ℕ)
    → Ends table.structs fuel (search_type rule table fuel)
unfolding search_type
search_type-Ends rule table zero t seen h = absurd (omega arith)
search_type-Ends rule table (suc fuel) t seen h =
    Settles-if (one_of (type_key t) seen) (λ _. returns (omega arith))
      (λ new.
        search_rule-Settles table fuel (search_type rule table fuel)
          (search_type-Ends rule table fuel) t seen (rule table t) h new)

-- For every type and every symbol table, also where structs contain themselves or each other, the
-- searches for a type that cannot be hashed or compared end: they return a verdict or raise an
-- exception.
pub comparable_error_type-Settles :
    (table : SymbolTable) (t : TypeRef)
    → Settles (λ _. Unit {0}) (hash_comparable_error_type table t)
      × Settles (λ _. Unit {0}) (comparable_error_type table t)
unfolding hash_comparable_error_type comparable_error_type
comparable_error_type-Settles table t = (ends hash_rule, ends comparable_rule)
  where
    ends :
        (rule : SymbolTable → TypeRef → Rule)
        → Settles
            (λ _. Unit {0})
            (search_type rule table (suc (length table.structs)) t [] >>= λ (err, seen). ok err)
    ends rule =
        Settles-bind
          (search_type-Ends rule table (suc (length table.structs)) t []
            (omega (arith, unseen-empty table.structs)))
          (λ v _. returns tt)
