-- ===== src/Ast.antt =====
-- compiler/ast.py: the syntax tree. Each class is a constructor with the fields that the parser fills;
-- the fields that later passes attach (types, captures, overloads) are not part of it, and nor are
-- spans. `Option` fields that hold nodes are `OptExpr`, and lists of nodes are types of the block.
use new_cl_lang.Base.{ℕ, Bool, List, Option}
use new_cl_lang.Base.Text.{Text}
use new_cl_lang.Base.Dict.{Dict}
use new_cl_lang.Lexer.Token.{TokenValue}
use new_cl_lang.TypeRef.Syntax.{TypeRef}

mutual
  -- Statements. Where the class has two fields that are None together (`else name { }`, a receiver,
  -- the ends of a range), one constructor holds both.
  pub data Stmt : Type 0 where
    import_decl : (module_name : Text) → Stmt
    variable_declaration : (name : Text) → (initializer : Expr) → Option TypeRef → Stmt
    expression_statement : Expr → Stmt
    assignment : (target expr : Expr) → (op : Text) → Stmt
    update : (target : Expr) → (op : Text) → Stmt
    block_statement : Stmts → Stmt
    for_condition : (condition : Expr) → (body : Stmts) → Stmt
    break_statement : Stmt
    for_in : (index value : Text) → (iterable : Expr) → (body : Stmts) → Stmt
    for_range : (index : Text) → (start end : Expr) → (body : Stmts) → Stmt
    struct_decl :
        (name : Text)
        → (fields : List (Text × TypeRef)) → (embedded_fields : List Text)
        → (type_params : List Text) → (constraints : Dict Text) → Stmt
    iface_decl : (name : Text) → Methods → (embeds : List TypeRef) → Stmt
    type_alias : (name : Text) → (target_type : TypeRef) → Stmt
    extern_block : (lib : Option TokenValue) → Functions → Stmt
    enum_decl : (name : Text) → (variants : List Text) → Stmt
    err_return : Expr → Stmt
    defer : (body : Stmts) → Stmt
    spawn : (func_expr : Expr) → Stmt
    try_statement :
        (call : Expr) → (success_name : Option Text) → (success_block : Stmts) → ErrorClause → Stmt
    function_declaration : Function → Stmt
    return_statement : OptExpr → Stmt

  pub data ErrorClause : Type 0 where
    no_clause : ErrorClause
    on_error : (error_name : Text) → (error_block : Stmts) → ErrorClause

  -- `FunctionDeclaration`, with the receiver of a method.
  pub data Function : Type 0 where
    function :
        (name : Text)
        → (params : Params) → (return_type : Option TypeRef) → (body : Stmts)
        → (receiver : Option (Text × TypeRef)) → (is_extern : Bool)
        → (extern_symbol : Option TokenValue) → (fallible_explicit : Bool)
        → (type_params : List Text) → (constraints : Dict Text) → Function

  pub data Functions : Type 0 where
    no_functions : Functions
    function_cons : Function → Functions → Functions

  -- `Param(name, type, default)`
  pub data Params : Type 0 where
    no_params : Params
    param : (name : Text) → Option TypeRef → (default : OptExpr) → Params → Params

  -- The methods of an interface: name, parameters, result type, and whether it may fail.
  pub data Methods : Type 0 where
    no_methods : Methods
    method : (name : Text) → Params → TypeRef → (fallible : Bool) → Methods → Methods

  pub data Stmts : Type 0 where
    no_stmts : Stmts
    stmt : Stmt → Stmts → Stmts

  pub data OptExpr : Type 0 where
    no_expr : OptExpr
    this : Expr → OptExpr

  pub data Exprs : Type 0 where
    no_exprs : Exprs
    expr : Expr → Exprs → Exprs

  -- `[(name, expr), ...]` of a struct literal, and `[(key, value), ...]` of a map literal.
  pub data Fields : Type 0 where
    no_fields : Fields
    field : (name : Text) → (value : Expr) → Fields → Fields

  pub data Entries : Type 0 where
    no_entries : Entries
    entry : (key value : Expr) → Entries → Entries

  -- `[(pattern, body), ...]`, where the pattern of `else` is None.
  pub data Arms : Type 0 where
    no_arms : Arms
    arm : (pattern : OptExpr) → (body : Expr) → Arms → Arms

  -- Expressions. A `ret` or an `err` may stand where an expression does.
  pub data Expr : Type 0 where
    if_expr : (condition : Expr) → (then_block : Stmts) → (else_block : OptBlock) → Expr
    block_expr : Stmts → Expr
    match_expr : (scrutinee : Expr) → Arms → Expr
    return_expr : OptExpr → Expr
    err_return_expr : Expr → Expr
    string_literal : Text → Expr
    interpolated_string : Exprs → Expr
    rune_literal : ℕ → Expr
    integer_literal : ℕ → (suffix_type : Option Text) → Expr
    float_literal : Text → (suffix_type : Option Text) → Expr
    bool_literal : Bool → Expr
    nil_literal : Expr
    magic_const : Text → Expr
    binary_op : (left : Expr) → (op : Text) → (right : Expr) → Expr
    unary_op : (op : Text) → (operand : Expr) → Expr
    function_call : (name : Text) → (args : Exprs) → (type_args : List TypeRef) → Expr
    size_of_type : TypeRef → Expr
    method_call : (obj : Expr) → (method : Text) → (args : Exprs) → Expr
    identifier : Text → Expr
    enum_ref : (enum_name variant : Text) → Expr
    struct_literal : (name : Text) → Fields → (heap : Bool) → Expr
    field_access : (obj : Expr) → (field : Text) → Expr
    array_literal : (length : ℕ) → TypeRef → Exprs → Expr
    slice_literal : Option TypeRef → Exprs → Expr
    map_literal : Option TypeRef → Entries → Expr
    -- `candidate` is what the index reads as when it may be a list of types.
    index_access : (obj index : Expr) → (candidate : Option (List TypeRef)) → Expr
    slice_expr : (array start : Expr) → (end : OptExpr) → Expr
    function_expr :
        Params → (return_type : Option TypeRef) → (body : Stmts) → (fallible_explicit : Bool) → Expr
    generic_function_value : (name : Text) → (type_args : List TypeRef) → Expr
    fallible_op : Expr → (op : Text) → Expr
    error_handler : Expr → (error_name : Text) → (handler_block : Stmts) → Expr
    error_match : Expr → (error_name : Text) → Arms → Expr

  pub data OptBlock : Type 0 where
    no_block : OptBlock
    this_block : Stmts → OptBlock
