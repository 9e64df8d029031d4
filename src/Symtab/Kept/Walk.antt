-- ===== src/Symtab/Kept/Walk.antt =====
-- compiler/symtab.py: a relation that each operation of the table satisfies holds between the tables
-- before and after a walk.
use new_cl_lang.Base.{
  ◌≡◌, refl, Bool, true, false, List, [], ◌∷◌, Option, none, some, ok, ◌>>=◌, Settles, returns,
  raises, Settles-if, Settles-weaken, Settles-bind,
}
use new_cl_lang.Base.Text.{Text, codes}
use new_cl_lang.Base.Dict.{contains}
use new_cl_lang.TypeRef.Syntax.{TypeRef, named}
use new_cl_lang.TypeRef.Format.{format}
use new_cl_lang.Ast.{
  Stmt, ErrorClause, Function, Functions, Params, Stmts, OptExpr, Exprs, Fields, Entries, Arms,
  Expr, OptBlock,
}
use new_cl_lang.Symtab.Table.{
  SymbolTable, Signature, Raises, NameError, Iface, push_scope, pop_scope, declare, declare_global,
  declare_struct, declare_enum, declare_iface,
}
use new_cl_lang.Symtab.Build.{
  strip_stars, or_void, param_list, typed, declare_params, add_function, declare_extern,
  declare_externs, methods_of, add_method, scoped, declare_success, walk_stmts, walk_stmt,
  walk_function, walk_error_clause, walk_option, walk_exprs, walk_fields, walk_entries, walk_arms,
  walk_else, walk_expr,
}

-- The laws of the relation.
pub record WalkLaws (R : SymbolTable → SymbolTable → Type 0) : Type 0 where
  pub same_scopes : (t t' : SymbolTable) → t'.scopes ≡ t.scopes → t'.level ≡ t.level → R t t'
  pub trans : {t₁ t₂ t₃ : SymbolTable} → R t₁ t₂ → R t₂ t₃ → R t₁ t₃
  pub declares :
      (name : Text) (nc_type : Option TypeRef) (allow immutable : Bool) (t : SymbolTable)
      → Settles (R t) (declare name nc_type allow immutable t)
  pub declares_global :
      (name : Text) (nc_type : TypeRef) (t : SymbolTable)
      → Settles (R t) (declare_global name nc_type t)
  pub leaves : (t t' : SymbolTable) → R (push_scope t) t' → Settles (R t) (pop_scope t')

module _ {R : SymbolTable → SymbolTable → Type 0} (laws : WalkLaws R) where
  -- A run from a table, followed by another.
  then_run :
      {t : SymbolTable} {r : Raises SymbolTable} {f : SymbolTable → Raises SymbolTable}
      → Settles (R t) r
      → ((t' : SymbolTable) → Settles (R t') (f t'))
      → Settles (R t) (r >>= f)
  then_run h k = Settles-bind h (λ t' r. Settles-weaken (k t') (λ t'' r'. laws.trans r r'))

  unchanged : (t : SymbolTable) → Settles {E = NameError} (R t) (ok t)
  unchanged t = returns (laws.same_scopes t t refl refl)

  scoped-Settles :
      {walk : SymbolTable → Raises SymbolTable} (t : SymbolTable)
      → ((t' : SymbolTable) → Settles (R t') (walk t'))
      → Settles (R t) (scoped walk t)
  unfolding scoped
  scoped-Settles t k = Settles-bind (k (push_scope t)) (λ t' r. laws.leaves t t' r)

  declare_params-Settles :
      (ps : List (Text × Option TypeRef)) (t : SymbolTable) → Settles (R t) (declare_params ps t)
  unfolding declare_params
  declare_params-Settles [] t = unchanged t
  declare_params-Settles ((name, nc_type) ∷ ps) t =
      then_run (laws.declares name nc_type false false t) (declare_params-Settles ps)

  declare_success-Settles :
      (name : Option Text) (t : SymbolTable) → Settles (R t) (declare_success name t)
  unfolding declare_success
  declare_success-Settles none t = unchanged t
  declare_success-Settles (some name) t = laws.declares name (typed "i32") false false t

  declare_extern-Settles :
      (name : Text) (ps : Params) (ret : Option TypeRef) (t : SymbolTable)
      → Settles (R t) (declare_extern name ps ret t)
  unfolding declare_extern
  declare_extern-Settles name ps ret t =
      then_run (laws.declares name (some (or_void ret)) true false t)
        (λ t'. returns (laws.same_scopes t' _ refl refl))

  declare_externs-Settles :
      (fs : Functions) (t : SymbolTable) → Settles (R t) (declare_externs fs t)
  unfolding declare_externs
  declare_externs-Settles Functions.no_functions t = unchanged t
  declare_externs-Settles
        (Functions.function_cons
          (Function.function name ps ret body receiver is_extern symbol fallible tps cs)
          fs)
        t =
      Settles-if (contains name t.functions) (λ _. raises)
        (λ _. then_run (declare_extern-Settles name ps ret t) (declare_externs-Settles fs))

  add_method-Settles :
      (type_name name : Text) (s : Signature) (t : SymbolTable)
      → Settles (R t) (add_method type_name name s t)
  unfolding add_method
  add_method-Settles type_name name s t =
      Settles-if (contains name (methods_of type_name t)) (λ _. raises)
        (λ _. returns (laws.same_scopes t _ refl refl))

  add_function-Settles :
      (name : Text) (s : Signature) (t : SymbolTable)
      → Settles {E = NameError} (R t) (ok (add_function name s t))
  unfolding add_function
  add_function-Settles name s t = returns (laws.same_scopes t _ refl refl)

  declare_struct-Settles :
      (name : Text) (fields : List (Text × TypeRef)) (embedded : List Text) (t : SymbolTable)
      → Settles {E = NameError} (R t) (ok (declare_struct name fields embedded t))
  unfolding declare_struct
  declare_struct-Settles name fields embedded t = returns (laws.same_scopes t _ refl refl)

  declare_enum-Settles :
      (name : Text) (variants : List Text) (t : SymbolTable)
      → Settles {E = NameError} (R t) (ok (declare_enum name variants t))
  unfolding declare_enum
  declare_enum-Settles name variants t = returns (laws.same_scopes t _ refl refl)

  declare_iface-Settles :
      (name : Text) (iface : Iface) (t : SymbolTable)
      → Settles {E = NameError} (R t) (ok (declare_iface name iface t))
  unfolding declare_iface
  declare_iface-Settles name iface t = returns (laws.same_scopes t _ refl refl)

  mutual
    unfolding walk_stmts

    pub walk_stmts-Settles : (ss : Stmts) (t : SymbolTable) → Settles (R t) (walk_stmts ss t)
    walk_stmts-Settles Stmts.no_stmts t = unchanged t
    walk_stmts-Settles (Stmts.stmt s ss) t =
        then_run (walk_stmt-Settles s t) (walk_stmts-Settles ss)

    pub walk_stmt-Settles : (s : Stmt) (t : SymbolTable) → Settles (R t) (walk_stmt s t)
    walk_stmt-Settles (Stmt.function_declaration f) t = walk_function-Settles f t
    walk_stmt-Settles (Stmt.struct_decl name fields embedded tps cs) t =
        then_run (laws.declares_global name (named (codes "struct")) t)
          (λ t'. declare_struct-Settles name fields embedded t')
    walk_stmt-Settles (Stmt.iface_decl name _ embeds) t =
        then_run (laws.declares_global name (named (codes "iface")) t)
          (λ t'. declare_iface-Settles name _ t')
    walk_stmt-Settles (Stmt.enum_decl name variants) t =
        then_run (laws.declares_global name (named (codes "enum")) t)
          (λ t'. declare_enum-Settles name variants t')
    walk_stmt-Settles (Stmt.extern_block lib fs) t = declare_externs-Settles fs t
    walk_stmt-Settles (Stmt.for_in index value iterable body) t = scoped-Settles t (λ t₁.
        then_run (laws.declares index (typed "i32") false false t₁) (λ t₂.
          then_run (laws.declares value (typed "i32") false false t₂)
            (λ t₃. then_run (walk_expr-Settles iterable t₃) (λ t₄. walk_stmts-Settles body t₄))))
    walk_stmt-Settles (Stmt.for_range index start end body) t = scoped-Settles t (λ t₁.
        then_run (laws.declares index (typed "i32") false false t₁) (λ t₂.
          then_run (walk_expr-Settles start t₂)
            (λ t₃. then_run (walk_expr-Settles end t₃) (λ t₄. walk_stmts-Settles body t₄))))
    walk_stmt-Settles (Stmt.for_condition condition body) t =
        then_run (walk_expr-Settles condition t)
          (λ t'. scoped-Settles t' (λ t₁. walk_stmts-Settles body t₁))
    walk_stmt-Settles (Stmt.block_statement body) t =
        scoped-Settles t (λ t₁. walk_stmts-Settles body t₁)
    walk_stmt-Settles (Stmt.try_statement call name success error) t =
        then_run (walk_expr-Settles call t) (λ t₁.
          then_run
            (scoped-Settles t₁ (λ t₂.
              then_run (declare_success-Settles name t₂) (λ t₃. walk_stmts-Settles success t₃)))
            (λ t₄. walk_error_clause-Settles error t₄))
    walk_stmt-Settles (Stmt.expression_statement e) t = walk_expr-Settles e t
    walk_stmt-Settles (Stmt.assignment target e op) t =
        then_run (walk_expr-Settles target t) (λ t'. walk_expr-Settles e t')
    walk_stmt-Settles (Stmt.update target op) t = walk_expr-Settles target t
    walk_stmt-Settles (Stmt.return_statement e) t = walk_option-Settles e t
    walk_stmt-Settles (Stmt.err_return e) t = walk_expr-Settles e t
    walk_stmt-Settles (Stmt.defer body) t = walk_stmts-Settles body t
    walk_stmt-Settles _ t = unchanged t

    pub walk_function-Settles : (f : Function) (t : SymbolTable) → Settles (R t) (walk_function f t)
    walk_function-Settles (Function.function name ps ret body receiver true symbol fallible tps cs)
          t =
        declare_extern-Settles name ps ret t
    walk_function-Settles
          (Function.function name ps ret body (some (receiver, r)) false symbol fallible tps cs) t =
        then_run (laws.declares _ (some (or_void ret)) false false t) (λ t₁.
          then_run (add_method-Settles (strip_stars (format r)) name (ret, param_list ps) t₁) (λ t₂.
            scoped-Settles t₂ (λ t₃.
              then_run (laws.declares receiver (some r) false false t₃) (λ t₄.
                then_run (declare_params-Settles (param_list ps) t₄)
                  (λ t₅. walk_stmts-Settles body t₅)))))
    walk_function-Settles (Function.function name ps ret body none false symbol fallible tps cs) t =
        then_run (laws.declares name (some (or_void ret)) false false t) (λ t₁.
          then_run (add_function-Settles name (ret, param_list ps) t₁) (λ t₂.
            scoped-Settles t₂ (λ t₃.
              then_run (declare_params-Settles (param_list ps) t₃)
                (λ t₄. walk_stmts-Settles body t₄))))

    pub walk_error_clause-Settles :
        (c : ErrorClause) (t : SymbolTable) → Settles (R t) (walk_error_clause c t)
    walk_error_clause-Settles ErrorClause.no_clause t = unchanged t
    walk_error_clause-Settles (ErrorClause.on_error name block) t = scoped-Settles t (λ t₁.
        then_run (laws.declares name (typed "error") false false t₁)
          (λ t₂. walk_stmts-Settles block t₂))

    pub walk_option-Settles : (e : OptExpr) (t : SymbolTable) → Settles (R t) (walk_option e t)
    walk_option-Settles OptExpr.no_expr t = unchanged t
    walk_option-Settles (OptExpr.this e) t = walk_expr-Settles e t

    pub walk_exprs-Settles : (es : Exprs) (t : SymbolTable) → Settles (R t) (walk_exprs es t)
    walk_exprs-Settles Exprs.no_exprs t = unchanged t
    walk_exprs-Settles (Exprs.expr e es) t =
        then_run (walk_expr-Settles e t) (λ t'. walk_exprs-Settles es t')

    pub walk_fields-Settles : (fs : Fields) (t : SymbolTable) → Settles (R t) (walk_fields fs t)
    walk_fields-Settles Fields.no_fields t = unchanged t
    walk_fields-Settles (Fields.field name e fs) t =
        then_run (walk_expr-Settles e t) (λ t'. walk_fields-Settles fs t')

    pub walk_entries-Settles : (es : Entries) (t : SymbolTable) → Settles (R t) (walk_entries es t)
    walk_entries-Settles Entries.no_entries t = unchanged t
    walk_entries-Settles (Entries.entry k v es) t =
        then_run (walk_expr-Settles k t)
          (λ t₁. then_run (walk_expr-Settles v t₁) (λ t₂. walk_entries-Settles es t₂))

    pub walk_arms-Settles : (rest : Arms) (t : SymbolTable) → Settles (R t) (walk_arms rest t)
    walk_arms-Settles Arms.no_arms t = unchanged t
    walk_arms-Settles (Arms.arm pattern body rest) t =
        then_run (walk_option-Settles pattern t)
          (λ t₁. then_run (walk_expr-Settles body t₁) (λ t₂. walk_arms-Settles rest t₂))

    pub walk_else-Settles : (b : OptBlock) (t : SymbolTable) → Settles (R t) (walk_else b t)
    walk_else-Settles OptBlock.no_block t = unchanged t
    walk_else-Settles (OptBlock.this_block b) t = walk_stmts-Settles b t

    pub walk_expr-Settles : (e : Expr) (t : SymbolTable) → Settles (R t) (walk_expr e t)
    walk_expr-Settles (Expr.binary_op left op right) t =
        then_run (walk_expr-Settles left t) (λ t'. walk_expr-Settles right t')
    walk_expr-Settles (Expr.unary_op op operand) t = walk_expr-Settles operand t
    walk_expr-Settles (Expr.function_call name args type_args) t = walk_exprs-Settles args t
    walk_expr-Settles (Expr.fallible_op e op) t = walk_expr-Settles e t
    walk_expr-Settles (Expr.error_handler e name handler) t =
        then_run (walk_expr-Settles e t) (λ t₁. scoped-Settles t₁ (λ t₂.
          then_run (laws.declares name (typed "error") false false t₂)
            (λ t₃. walk_stmts-Settles handler t₃)))
    walk_expr-Settles (Expr.error_match e name arms) t = then_run (walk_expr-Settles e t) (λ t₁.
        scoped-Settles t₁ (λ t₂.
          then_run (laws.declares name (typed "error") false false t₂)
            (λ t₃. walk_arms-Settles arms t₃)))
    walk_expr-Settles (Expr.function_expr params return_type body fallible) t =
        scoped-Settles t (λ t₁.
          then_run (declare_params-Settles (param_list params) t₁)
            (λ t₂. walk_stmts-Settles body t₂))
    walk_expr-Settles (Expr.if_expr condition then_block else_block) t =
        then_run (walk_expr-Settles condition t) (λ t₁.
          then_run (walk_stmts-Settles then_block t₁) (λ t₂. walk_else-Settles else_block t₂))
    walk_expr-Settles (Expr.block_expr block) t = walk_stmts-Settles block t
    walk_expr-Settles (Expr.match_expr scrutinee arms) t =
        then_run (walk_expr-Settles scrutinee t) (λ t'. walk_arms-Settles arms t')
    walk_expr-Settles (Expr.array_literal length elem elements) t = walk_exprs-Settles elements t
    walk_expr-Settles (Expr.index_access obj index candidate) t =
        then_run (walk_expr-Settles obj t) (λ t'. walk_expr-Settles index t')
    walk_expr-Settles (Expr.method_call obj method args) t =
        then_run (walk_expr-Settles obj t) (λ t'. walk_exprs-Settles args t')
    walk_expr-Settles (Expr.field_access obj field) t = walk_expr-Settles obj t
    walk_expr-Settles (Expr.struct_literal name fields heap) t = walk_fields-Settles fields t
    walk_expr-Settles (Expr.map_literal nc_type entries) t = walk_entries-Settles entries t
    walk_expr-Settles _ t = unchanged t
