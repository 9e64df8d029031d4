-- ===== src/TypeRules/Comparable.antt =====
-- compiler/type_rules.py: `hash_comparable_error_type` and `comparable_error_type`, which look for a type
-- that rules out a map key, or a comparison, in a type and in the fields of structs. Both keep a set
-- of the types seen, which all calls of a search share.
use new_cl_lang.Base.{
  ℕ, zero, suc, Bool, false, ◌||◌, List, [], ◌∷◌, Option, none, some, if◌then◌else◌, ok, raised,
  out_of_fuel, ◌>>=◌, length,
}
use new_cl_lang.Base.Text.{Text, codes, text_eq, one_of}
use new_cl_lang.Base.Dict.{Dict}
use new_cl_lang.TypeRef.Syntax.{TypeRef}
use new_cl_lang.TypeRef.Same.{type_key}
use new_cl_lang.Symtab.Table.{Symbol, SymbolTable, Raises, lookup_symbol, lookup_struct}
use new_cl_lang.TypeRules.Kinds.{
  numeric_types, float_types, is_pointer_type, is_nullable_pointer_type, is_iface_type, is_map,
  is_composite,
}

-- What a type says by its shape: it is no error, it is an error itself, or its name decides.
pub data Rule : Type 0 where
  fine fails by_name : Rule

abbrev is_scalar : TypeRef → Bool
is_scalar t =
    one_of (type_key t) numeric_types
    || one_of (type_key t) (codes "bool" ∷ codes "str" ∷ codes "rune" ∷ [])

unfoldable pub comparable_rule : SymbolTable → TypeRef → Rule
comparable_rule table t =
    if is_scalar t
    then fine
    else if text_eq (type_key t) (codes "error")
    then fails
    else if is_pointer_type t || is_nullable_pointer_type t
    then fine
    else if is_map t
    then fails
    else if is_composite t
    then fails
    else if is_iface_type table t
    then fails
    else by_name

-- The same, save that floats may not be keys.
unfoldable pub hash_rule : SymbolTable → TypeRef → Rule
hash_rule table t = if one_of (type_key t) float_types then fails else comparable_rule table t

-- The type that is an error, if any, and the set of the types seen.
abbrev pub Verdict : Type 0
Verdict = Option TypeRef × List Text

abbrev pub Search : Type 0
Search = TypeRef → List Text → Raises Verdict

-- The fields in order, up to the first error.
unfoldable pub search_fields : Search → Dict TypeRef → List Text → Raises Verdict
search_fields search [] seen = ok (none, seen)
search_fields search ((name, t) ∷ fields) seen = search t seen >>= λ (err, seen'). elim err [
  | some e ↦ ok (some e, seen')
  | none ↦ search_fields search fields seen'
]

abbrev pub has_kind : Symbol → Text → Bool
has_kind symbol kind = elim symbol.nc_type [ none ↦ false | some t ↦ text_eq (type_key t) kind ]

unfoldable pub search_symbol : SymbolTable → Search → TypeRef → List Text → Symbol → Raises Verdict
search_symbol table search t seen symbol =
    if has_kind symbol (codes "enum")
    then ok (none, seen)
    else if has_kind symbol (codes "struct")
    then (lookup_struct (type_key t) table >>= λ fields. search_fields search fields seen)
    else ok (some t, seen)

-- The end of the search, by the type's name; a name that is not found is an error.
unfoldable pub search_name : SymbolTable → Search → TypeRef → List Text → Raises Verdict
search_name table search t seen = elim (lookup_symbol (type_key t) table) [
  | ok symbol ↦ search_symbol table search t seen symbol
  | raised e ↦ ok (some t, seen)
  | out_of_fuel ↦ out_of_fuel
]

unfoldable pub search_rule : SymbolTable → Search → TypeRef → List Text → Rule → Raises Verdict
search_rule table search t seen fine = ok (none, seen)
search_rule table search t seen fails = ok (some t, seen)
search_rule table search t seen by_name = search_name table search t seen

unfoldable pub search_type : (SymbolTable → TypeRef → Rule) → SymbolTable → ℕ → Search
search_type rule table zero t seen = out_of_fuel
search_type rule table (suc fuel) t seen =
    if one_of (type_key t) seen
    then ok (none, seen)
    else search_rule table (search_type rule table fuel) t (type_key t ∷ seen) (rule table t)

abbrev verdict_error : Raises Verdict → Raises (Option TypeRef)
verdict_error r = r >>= λ (err, seen). ok err

-- One struct more is seen at each level of the search.
unfoldable pub hash_comparable_error_type : SymbolTable → TypeRef → Raises (Option TypeRef)
hash_comparable_error_type table t =
    verdict_error (search_type hash_rule table (suc (length table.structs)) t [])

unfoldable pub comparable_error_type : SymbolTable → TypeRef → Raises (Option TypeRef)
comparable_error_type table t =
    verdict_error (search_type comparable_rule table (suc (length table.structs)) t [])
