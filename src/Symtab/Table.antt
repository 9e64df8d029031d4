-- ===== src/Symtab/Table.antt =====
-- compiler/symtab.py: `Symbol`, `SymbolTable` and its operations. The stack of scopes has the innermost
-- scope first; the source's list has it last.
use new_cl_lang.Base.{
  Bool, true, false, ◌||◌, List, [], ◌∷◌, Option, none, some, if◌then◌else◌, Outcome, ok, raised,
  ◌>>=◌,
}
use new_cl_lang.Base.Text.{Text, codes, one_of, after_prefix}
use new_cl_lang.Base.Dict.{Dict, lookup, insert, insert_all, contains}
use new_cl_lang.Python.{ℤ, pos}
use new_cl_lang.TypeRef.Syntax.{TypeRef}
use new_cl_lang.TypeRef.Split.{incr, decr}

-- `nc_type` is None for a parameter whose type is yet to be inferred from its default value.
pub record Symbol : Type 0 where
  pub name : Text
  pub nc_type : Option TypeRef
  pub scope_level : ℤ
  pub immutable : Bool

abbrev pub Scope : Type 0
Scope = Dict Symbol

-- `(ret_type, [(param, type)])`
abbrev pub Signature : Type 0
Signature = Option TypeRef × List (Text × Option TypeRef)

-- An interface's methods with their signatures and whether they may fail, and what it embeds.
pub record Iface : Type 0 where
  pub methods : List (Text × List (Text × Option TypeRef) × TypeRef × Bool)
  pub embeds : List TypeRef

pub record SymbolTable : Type 0 where
  pub scopes : List Scope
  pub level : ℤ
  pub structs : Dict (Dict TypeRef)
  pub struct_embeds : Dict (Dict TypeRef)
  pub enums : Dict (List Text)
  pub ifaces : Dict Iface
  pub methods : Dict (Dict Signature)
  pub functions : Dict Signature
  pub extern_functions : List Text

-- The NameErrors, by message, and the IndexError of an empty stack of scopes.
pub data NameError : Type 0 where
  reserved_magic runtime_name already_declared declared_globally not_found : Text → NameError
  struct_not_found enum_not_found iface_not_found function_declared : Text → NameError
  duplicate_method : Text → Text → NameError
  no_scope : NameError

abbrev pub reserved_runtime_names : List Text
reserved_runtime_names =
    codes "div"
    ∷ codes "exit"
    ∷ codes "malloc"
    ∷ codes "free"
    ∷ codes "printf"
    ∷ codes "strlen"
    ∷ codes "memcpy"
    ∷ codes "memcmp"
    ∷ codes "str"
    ∷ []

abbrev pub reserved_magic_names : List Text
reserved_magic_names =
    codes "__FILE__"
    ∷ codes "__LINE__"
    ∷ codes "__COL__"
    ∷ codes "__FUNC__"
    ∷ codes "__MODULE__"
    ∷ []

abbrev pub Raises : Type 0 → Type 0
Raises A = Outcome NameError A

abbrev pub has_prefix : Text → Text → Bool
has_prefix p t = elim (after_prefix p t) [ none ↦ false | some r ↦ true ]

-- `name in RESERVED_RUNTIME_NAMES or name.startswith("__nc")`
abbrev pub is_runtime_name : Text → Bool
is_runtime_name name = one_of name reserved_runtime_names || has_prefix (codes "__nc") name

abbrev pub is_magic_name : Text → Bool
is_magic_name name = one_of name reserved_magic_names

-- `_check_runtime_name`
unfoldable pub check_runtime_name : Text → Raises (Unit {0})
check_runtime_name name =
    if is_magic_name name
    then raised (reserved_magic name)
    else if is_runtime_name name
    then raised (runtime_name name)
    else ok tt

abbrev pub empty_table : SymbolTable
empty_table = record {
  scopes = [] ∷ [];
  level = pos 0;
  structs = [];
  struct_embeds = [];
  enums = [];
  ifaces = [];
  methods = [];
  functions = [];
  extern_functions = [];
}

unfoldable pub push_scope : SymbolTable → SymbolTable
push_scope t = record t { scopes = [] ∷ t.scopes; level = incr t.level }

unfoldable pub pop_scopes : List Scope → SymbolTable → Raises SymbolTable
pop_scopes [] t = raised no_scope
pop_scopes (s ∷ ss) t = ok (record t { scopes = ss; level = decr t.level })

unfoldable pub pop_scope : SymbolTable → Raises SymbolTable
unfolding pop_scopes
pop_scope t = pop_scopes t.scopes t

-- The last part of `declare`, on the stack of scopes.
unfoldable pub declare_in :
    List Scope → Text → Option TypeRef → (immutable : Bool) → SymbolTable → Raises SymbolTable
declare_in [] name nc_type immutable t = raised no_scope
declare_in (s ∷ ss) name nc_type immutable t =
    if contains name s
    then raised (already_declared name)
    else ok (record t {
      scopes =
          insert name
            (record {
              name = name;
              nc_type = nc_type;
              scope_level = t.level;
              immutable = immutable;
            })
            s
          ∷ ss;
    })

unfoldable pub declare :
    Text → Option TypeRef → (allow_runtime_name immutable : Bool) → SymbolTable → Raises SymbolTable
unfolding declare_in check_runtime_name
declare name nc_type allow_runtime_name immutable t =
    if is_magic_name name
    then raised (reserved_magic name)
    else (if allow_runtime_name then ok tt else check_runtime_name name) >>= λ _.
        declare_in t.scopes name nc_type immutable t

-- `_scopes[0]`: the outermost scope takes the symbol of a type.
unfoldable pub declare_last : Text → Symbol → List Scope → Raises (List Scope)
declare_last name symbol [] = raised no_scope
declare_last name symbol (s ∷ []) =
    if contains name s then raised (declared_globally name) else ok (insert name symbol s ∷ [])
declare_last name symbol (s ∷ r ∷ ss) = declare_last name symbol (r ∷ ss) >>= λ ss'. ok (s ∷ ss')

unfoldable pub declare_global : Text → TypeRef → SymbolTable → Raises SymbolTable
unfolding declare_last check_runtime_name
declare_global name nc_type t = check_runtime_name name >>= λ _.
    declare_last name
      (record { name = name; nc_type = some nc_type; scope_level = pos 0; immutable = false })
      t.scopes
    >>= λ ss. ok (record t { scopes = ss })

unfoldable pub lookup_in : Text → List Scope → Raises Symbol
unfolding lookup
lookup_in name [] = raised (not_found name)
lookup_in name (s ∷ ss) =
    let outer = lookup_in name ss in elim (lookup name s) [ some v ↦ ok v | none ↦ outer ]

-- `lookup`: the innermost scope that has the name.
unfoldable pub lookup_symbol : Text → SymbolTable → Raises Symbol
unfolding lookup_in
lookup_symbol name t = lookup_in name t.scopes

-- The fields whose names are embedded.
unfoldable pub embedded_only : List Text → List (Text × TypeRef) → List (Text × TypeRef)
unfolding one_of
embedded_only names [] = []
embedded_only names ((f, t) ∷ fields) =
    let rest = embedded_only names fields in if one_of f names then (f, t) ∷ rest else rest

unfoldable pub declare_struct : Text → List (Text × TypeRef) → List Text → SymbolTable → SymbolTable
unfolding embedded_only
declare_struct name fields embedded t = record t {
  structs = insert name (insert_all fields []) t.structs;
  struct_embeds = insert name (insert_all (embedded_only embedded fields) []) t.struct_embeds;
}

abbrev or_raise {ℓ} : {A : Type ℓ} {E : Type ℓ} → Option A → E → Outcome E A
or_raise none e = raised e
or_raise (some a) e = ok a

unfoldable pub lookup_struct : Text → SymbolTable → Raises (Dict TypeRef)
lookup_struct name t = or_raise (lookup name t.structs) (struct_not_found name)

unfoldable pub declare_enum : Text → List Text → SymbolTable → SymbolTable
declare_enum name variants t = record t { enums = insert name variants t.enums }

unfoldable pub lookup_enum : Text → SymbolTable → Raises (List Text)
lookup_enum name t = or_raise (lookup name t.enums) (enum_not_found name)

unfoldable pub declare_iface : Text → Iface → SymbolTable → SymbolTable
declare_iface name iface t = record t { ifaces = insert name iface t.ifaces }

unfoldable pub lookup_iface : Text → SymbolTable → Raises Iface
lookup_iface name t = or_raise (lookup name t.ifaces) (iface_not_found name)
