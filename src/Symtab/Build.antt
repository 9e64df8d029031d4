-- ===== src/Symtab/Build.antt =====
-- compiler/symtab.py: `build_symbol_table`, the pass that declares functions, methods, parameters and
-- types. The source's three local functions are one function for each type of node here; each takes
-- the table and returns it.
use Prim.Native.String.{String}
use new_cl_lang.Base.{
  Bool, true, false, List, [], ◌∷◌, ◌++◌, Option, none, some, if◌then◌else◌, ok, raised, ◌>>=◌,
  ◌==◌,
}
use new_cl_lang.Base.Text.{Text, codes}
use new_cl_lang.Base.Dict.{Dict, lookup, insert, contains}
use new_cl_lang.Python.{pos}
use new_cl_lang.TypeRef.Syntax.{TypeRef, named}
use new_cl_lang.TypeRef.Format.{format}
use new_cl_lang.Ast.{
  Stmt, ErrorClause, Function, Functions, Params, Methods, Stmts, OptExpr, Exprs, Fields, Entries,
  Arms, Expr, OptBlock,
}
use new_cl_lang.Symtab.Table.{
  Symbol, SymbolTable, Signature, Raises, duplicate_method, function_declared, empty_table,
  push_scope, pop_scope, declare, declare_global, declare_struct, declare_enum, declare_iface,
}

-- `t.lstrip("*")`
unfoldable pub strip_stars : Text → Text
strip_stars [] = []
strip_stars (c ∷ t) = let rest = strip_stars t in if c == b'*' then rest else c ∷ t

abbrev pub is_empty : Text → Bool
is_empty [] = true
is_empty (c ∷ t) = false

-- `return_type or "void"`: a type reference is false when its canonical string is empty.
abbrev pub or_void : Option TypeRef → TypeRef
or_void none = named (codes "void")
or_void (some t) = if is_empty (format t) then named (codes "void") else t

abbrev pub param_list : Params → List (Text × Option TypeRef)
param_list Params.no_params = []
param_list (Params.param name nc_type default ps) = (name, nc_type) ∷ param_list ps

abbrev pub method_list : Methods → List (Text × List (Text × Option TypeRef) × TypeRef × Bool)
method_list Methods.no_methods = []
method_list (Methods.method name params ret fallible ms) =
    (name, param_list params, ret, fallible) ∷ method_list ms

abbrev pub typed : String → Option TypeRef
typed name = some (named (codes name))

-- `for pname, ptype in params: table.declare(pname, ptype)`
unfoldable pub declare_params : List (Text × Option TypeRef) → SymbolTable → Raises SymbolTable
declare_params [] t = ok t
declare_params ((name, nc_type) ∷ ps) t =
    declare name nc_type false false t >>= λ t'. declare_params ps t'

unfoldable pub add_function : Text → Signature → SymbolTable → SymbolTable
add_function name s t = record t { functions = insert name s t.functions }

-- `table.declare(..., allow_runtime_name=True)` and the two tables of an extern function
unfoldable pub declare_extern : Text → Params → Option TypeRef → SymbolTable → Raises SymbolTable
declare_extern name params return_type t =
    declare name (some (or_void return_type)) true false t >>= λ t'. ok (record t' {
      functions = insert name (some (or_void return_type), param_list params) t'.functions;
      extern_functions = name ∷ t'.extern_functions;
    })

-- The functions of an extern block.
unfoldable pub declare_externs : Functions → SymbolTable → Raises SymbolTable
declare_externs Functions.no_functions t = ok t
declare_externs
      (Functions.function_cons
        (Function.function name params return_type body receiver is_extern symbol fallible
          type_params constraints)
        fs)
      t =
    if contains name t.functions
    then raised (function_declared name)
    else (declare_extern name params return_type t >>= λ t'. declare_externs fs t')

-- `_methods[type_name]`, which is {} at first
abbrev pub methods_of : Text → SymbolTable → Dict Signature
methods_of type_name t = elim (lookup type_name t.methods) [ none ↦ [] | some ms ↦ ms ]

unfoldable pub add_method : Text → Text → Signature → SymbolTable → Raises SymbolTable
add_method type_name name s t =
    if contains name (methods_of type_name t)
    then raised (duplicate_method type_name name)
    else ok
        (record t { methods = insert type_name (insert name s (methods_of type_name t)) t.methods })

-- `table.push_scope()`, the walk, `table.pop_scope()`
unfoldable pub scoped : (SymbolTable → Raises SymbolTable) → SymbolTable → Raises SymbolTable
scoped walk t = walk (push_scope t) >>= λ t'. pop_scope t'

unfoldable pub declare_success : Option Text → SymbolTable → Raises SymbolTable
declare_success none t = ok t
declare_success (some name) t = declare name (typed "i32") false false t

unfoldable mutual
  unfolding scoped

  pub walk_stmts : Stmts → SymbolTable → Raises SymbolTable
  walk_stmts Stmts.no_stmts t = ok t
  walk_stmts (Stmts.stmt s ss) t = walk_stmt s t >>= λ t'. walk_stmts ss t'

  pub walk_stmt : Stmt → SymbolTable → Raises SymbolTable
  walk_stmt (Stmt.function_declaration f) t = walk_function f t
  walk_stmt (Stmt.struct_decl name fields embedded type_params constraints) t =
      declare_global name (named (codes "struct")) t >>= λ t'.
      ok (declare_struct name fields embedded t')
  walk_stmt (Stmt.iface_decl name methods embeds) t =
      declare_global name (named (codes "iface")) t >>= λ t'.
      ok (declare_iface name (record { methods = method_list methods; embeds = embeds }) t')
  walk_stmt (Stmt.enum_decl name variants) t =
      declare_global name (named (codes "enum")) t >>= λ t'. ok (declare_enum name variants t')
  walk_stmt (Stmt.extern_block lib fs) t = declare_externs fs t
  walk_stmt (Stmt.for_in index value iterable body) t =
      scoped
        (λ t₁. declare index (typed "i32") false false t₁ >>= λ t₂.
          declare value (typed "i32") false false t₂ >>= λ t₃.
          walk_expr iterable t₃ >>= λ t₄. walk_stmts body t₄)
        t
  walk_stmt (Stmt.for_range index start end body) t =
      scoped
        (λ t₁. declare index (typed "i32") false false t₁ >>= λ t₂.
          walk_expr start t₂ >>= λ t₃. walk_expr end t₃ >>= λ t₄. walk_stmts body t₄)
        t
  walk_stmt (Stmt.for_condition condition body) t =
      walk_expr condition t >>= λ t'. scoped (λ t₁. walk_stmts body t₁) t'
  walk_stmt (Stmt.block_statement body) t = scoped (λ t₁. walk_stmts body t₁) t
  walk_stmt (Stmt.try_statement call success_name success error) t = walk_expr call t >>= λ t₁.
      scoped (λ t₂. declare_success success_name t₂ >>= λ t₃. walk_stmts success t₃) t₁ >>= λ t₄.
      walk_error_clause error t₄
  walk_stmt (Stmt.expression_statement e) t = walk_expr e t
  walk_stmt (Stmt.assignment target e op) t = walk_expr target t >>= λ t'. walk_expr e t'
  walk_stmt (Stmt.update target op) t = walk_expr target t
  walk_stmt (Stmt.return_statement e) t = walk_option e t
  walk_stmt (Stmt.err_return e) t = walk_expr e t
  walk_stmt (Stmt.defer body) t = walk_stmts body t
  walk_stmt _ t = ok t

  -- A function or a method, which is also declared as `Type_name`.
  pub walk_function : Function → SymbolTable → Raises SymbolTable
  walk_function
        (Function.function name params return_type body receiver true symbol fallible type_params
          constraints)
        t =
      declare_extern name params return_type t
  walk_function
        (Function.function name params return_type body
          (some (receiver, nc_type))
          false
          symbol
          fallible
          type_params
          constraints)
        t =
      declare (strip_stars (format nc_type) ++ (b'_' ∷ name)) (some (or_void return_type)) false
        false t
      >>= λ t₁.
          add_method (strip_stars (format nc_type)) name (return_type, param_list params) t₁
          >>= λ t₂.
              scoped
                (λ t₃. declare receiver (some nc_type) false false t₃ >>= λ t₄.
                  declare_params (param_list params) t₄ >>= λ t₅. walk_stmts body t₅)
                t₂
  walk_function
        (Function.function name params return_type body none false symbol fallible type_params
          constraints)
        t =
      declare name (some (or_void return_type)) false false t >>= λ t₁.
      scoped (λ t₂. declare_params (param_list params) t₂ >>= λ t₃. walk_stmts body t₃)
        (add_function name (return_type, param_list params) t₁)

  pub walk_error_clause : ErrorClause → SymbolTable → Raises SymbolTable
  walk_error_clause ErrorClause.no_clause t = ok t
  walk_error_clause (ErrorClause.on_error name block) t =
      scoped (λ t₁. declare name (typed "error") false false t₁ >>= λ t₂. walk_stmts block t₂) t

  pub walk_option : OptExpr → SymbolTable → Raises SymbolTable
  walk_option OptExpr.no_expr t = ok t
  walk_option (OptExpr.this e) t = walk_expr e t

  pub walk_exprs : Exprs → SymbolTable → Raises SymbolTable
  walk_exprs Exprs.no_exprs t = ok t
  walk_exprs (Exprs.expr e es) t = walk_expr e t >>= λ t'. walk_exprs es t'

  pub walk_fields : Fields → SymbolTable → Raises SymbolTable
  walk_fields Fields.no_fields t = ok t
  walk_fields (Fields.field name e fs) t = walk_expr e t >>= λ t'. walk_fields fs t'

  pub walk_entries : Entries → SymbolTable → Raises SymbolTable
  walk_entries Entries.no_entries t = ok t
  walk_entries (Entries.entry k v es) t =
      walk_expr k t >>= λ t₁. walk_expr v t₁ >>= λ t₂. walk_entries es t₂

  pub walk_arms : Arms → SymbolTable → Raises SymbolTable
  walk_arms Arms.no_arms t = ok t
  walk_arms (Arms.arm pattern body rest) t =
      walk_option pattern t >>= λ t₁. walk_expr body t₁ >>= λ t₂. walk_arms rest t₂

  pub walk_else : OptBlock → SymbolTable → Raises SymbolTable
  walk_else OptBlock.no_block t = ok t
  walk_else (OptBlock.this_block b) t = walk_stmts b t

  pub walk_expr : Expr → SymbolTable → Raises SymbolTable
  walk_expr (Expr.binary_op left op right) t = walk_expr left t >>= λ t'. walk_expr right t'
  walk_expr (Expr.unary_op op operand) t = walk_expr operand t
  walk_expr (Expr.function_call name args type_args) t = walk_exprs args t
  walk_expr (Expr.fallible_op e op) t = walk_expr e t
  walk_expr (Expr.error_handler e name handler) t = walk_expr e t >>= λ t₁.
      scoped (λ t₂. declare name (typed "error") false false t₂ >>= λ t₃. walk_stmts handler t₃) t₁
  walk_expr (Expr.error_match e name arms) t = walk_expr e t >>= λ t₁.
      scoped (λ t₂. declare name (typed "error") false false t₂ >>= λ t₃. walk_arms arms t₃) t₁
  walk_expr (Expr.function_expr params return_type body fallible) t =
      scoped (λ t₁. declare_params (param_list params) t₁ >>= λ t₂. walk_stmts body t₂) t
  walk_expr (Expr.if_expr condition then_block else_block) t =
      walk_expr condition t >>= λ t₁. walk_stmts then_block t₁ >>= λ t₂. walk_else else_block t₂
  walk_expr (Expr.block_expr block) t = walk_stmts block t
  walk_expr (Expr.match_expr scrutinee arms) t = walk_expr scrutinee t >>= λ t'. walk_arms arms t'
  walk_expr (Expr.array_literal length elem elements) t = walk_exprs elements t
  walk_expr (Expr.index_access obj index candidate) t = walk_expr obj t >>= λ t'. walk_expr index t'
  walk_expr (Expr.method_call obj method args) t = walk_expr obj t >>= λ t'. walk_exprs args t'
  walk_expr (Expr.field_access obj field) t = walk_expr obj t
  walk_expr (Expr.struct_literal name fields heap) t = walk_fields fields t
  walk_expr (Expr.map_literal nc_type entries) t = walk_entries entries t
  walk_expr _ t = ok t

-- The first table has the internal type `raw`.
abbrev pub raw_symbol : Symbol
raw_symbol = record {
  name = codes "raw";
  nc_type = typed "raw";
  scope_level = pos 0;
  immutable = false;
}

abbrev pub initial_table : SymbolTable
initial_table = record empty_table { scopes = insert (codes "raw") raw_symbol [] ∷ [] }

unfoldable pub build_symbol_table : Stmts → Raises SymbolTable
build_symbol_table statements = walk_stmts statements initial_table
