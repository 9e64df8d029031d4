-- ===== src/Tests.antt =====
-- Runs of the compiler's parts on small inputs, with ASCII for the Unicode tables.
mod Parsing
mod Naming
use new_cl_lang.Base.{
  ◌*◌, ◌%◌, Bool-cases, inl, inr, ℕ, ◌+◌, ◌-◌, ◌≤◌, ◌≡◌, ◌≢◌, ◌↔◌, refl, Bool, true, false, not,
  ◌&&◌, ◌||◌, [], ◌∷◌, ◌++◌, Option, some, none, leb, if◌then◌else◌, arith, ok, raised, Settles,
  length, get_elem?,
}
use new_cl_lang.Base.Text.{Text, codes, one_of, text_eq, after_prefix}
use new_cl_lang.Base.Dict.{lookup, insert, contains}
use new_cl_lang.Layout.Alignments.{IsAlignment}
use new_cl_lang.Layout.Multiples.{sizeof_type-alignof_type}
use new_cl_lang.Layout.Sizes.{aligned_sizeof_type}
use new_cl_lang.Python.{
  Unicode, AlnumLaw, pos, int_base16, signed16, after_hex_prefix, digits_value, hex_digit, strip,
  trim_end, skip_spaces, int_text, decimal_text, digits_from,
}
use new_cl_lang.Lexer.Token.{TokenKind, string, eof, text}
use new_cl_lang.Lexer.Escape.{is_scalar_value, code_point_of}
use new_cl_lang.Lexer.Lex.{yields, lex_symbol, lex}
use new_cl_lang.Lexer.Progress.{InOrder, lex-InOrder}
use new_cl_lang.Lexer.CodePoints.{IsScalar, decode_escape-code_point_iff}
use new_cl_lang.Lexer.Escape.{decode_escape}
use new_cl_lang.Lexer.StringLiterals.{string_literal, lex-string_literal}
use new_cl_lang.Lexer.Symbols.{symbols}
use new_cl_lang.Lexer.LongestMatch.{lex_symbol-longest}
use new_cl_lang.TypeRef.Syntax.{TypeRef, named, pointer, slice, array, function, nil, cons}
use new_cl_lang.TypeRef.Split.{find_matching}
use new_cl_lang.TypeRef.Parse.{parse_type_ref}
use new_cl_lang.TypeRef.Format.{format}
use new_cl_lang.TypeRef.Brackets.{done, plain, square, square_pair, find_matching-Balanced}
use new_cl_lang.TypeRef.Canonical.{
  IsName, Canonical, of_named, of_pointer, of_slice, of_array, of_function, of_nil, of_cons,
}
use new_cl_lang.TypeRef.Decimal.{AsciiLaw}
use new_cl_lang.TypeRef.RoundTrip.{parse_type_ref-format}
use new_cl_lang.TypeRef.Rewrite.{rewrite_type_ref, substitute, rewrite_type_ref-substitute}
use new_cl_lang.TypeRef.Same.{same_type, same_type_iff, same_type-result_err}
use new_cl_lang.TypeRules.Comparable.{hash_comparable_error_type, comparable_error_type}
use new_cl_lang.TypeRules.Terminates.{comparable_error_type-Settles}
use new_cl_lang.TypeRef.Rewrite.{as_map_type}
use new_cl_lang.TypeRef.Same.{type_key}
use new_cl_lang.Layout.Sizes.{
  LayoutTables, is_pointer, is_function, is_slice, is_array, align_to, fields_from, sizeof_fields,
  max_alignment, alignof_type, sizeof_type,
}
use new_cl_lang.Layout.Alignment.{align_to-least}
use new_cl_lang.Ast.{Stmts, Stmt, Function, Params, OptExpr}
use new_cl_lang.Symtab.Table.{
  Scope, SymbolTable, reserved_magic, runtime_name, already_declared, is_magic_name,
  is_runtime_name, empty_table, push_scope, pop_scope, declare, lookup_symbol,
}
use new_cl_lang.Symtab.Scopes.{with_symbol, lookup_symbol-declare, pop_scope-declare}
use new_cl_lang.Symtab.Declares.{Declares, declare_iff}
use new_cl_lang.Symtab.Build.{raw_symbol, initial_table, build_symbol_table, walk_stmts}
use new_cl_lang.Symtab.Kept.Levels.{WellFormed, Kept}
use new_cl_lang.Symtab.Kept.Program.{
  WellFormed-initial, walk_stmts-Kept, build_symbol_table-WellFormed,
}

abbrev ascii_digit : ℕ → Bool
ascii_digit c = leb 48 c && leb c 57

abbrev ascii_alpha : ℕ → Bool
ascii_alpha c = (leb 65 c && leb c 90) || (leb 97 c && leb c 122)

abbrev ascii_space : ℕ → Bool
ascii_space c = (leb 9 c && leb c 13) || (leb 28 c && leb c 32)

abbrev pub ascii : Unicode
ascii = record {
  is_digit = ascii_digit;
  is_alpha = ascii_alpha;
  is_alnum = λ c. ascii_alpha c || ascii_digit c;
  is_space = ascii_space;
  decimal = λ c. if ascii_digit c then some (c - 48) else none;
}

ascii-AlnumLaw : AlnumLaw ascii
ascii-AlnumLaw = record { alnum_of_alpha = λ c h. ground arith }

ascii-AsciiLaw : AsciiLaw ascii
ascii-AsciiLaw = record {
  decimal_digit = λ d h. ground arith;
  digit_not_space = λ d h. ground arith;
  question_not_space = refl;
  star_not_space = refl;
  square_not_space = refl;
  end_not_space = refl;
  f_not_space = refl;
  r_not_space = refl;
}

-- `fn(?*T,[]str)->[3]i32 err`
abbrev sample_type : TypeRef
sample_type =
    function (cons (pointer (named (codes "T")) true) (cons (slice (named (codes "str"))) nil))
      (array (pos 3) (named (codes "i32"))) true

sample_type-Canonical : Canonical ascii sample_type
unfolding decimal_text digits_from
sample_type-Canonical =
    of_function true refl
      (of_cons (of_pointer true (of_named (refl, tt)))
        (of_cons (of_slice (of_named (refl, (refl, (refl, tt))))) of_nil))
      (of_array 3 refl (of_named (refl, (refl, (refl, tt)))))

parse_type_ref-format_example : parse_type_ref ascii (format sample_type) ≡ ok sample_type
parse_type_ref-format_example = parse_type_ref-format ascii-AsciiLaw sample_type-Canonical

format_sample : format sample_type ≡ codes "fn(?*T,[]str)->[3]i32 err"
unfolding format int_text decimal_text digits_from
format_sample = refl

same_type_iff_example :
    (same_type sample_type (named (codes "T")) ≡ true) ↔ (sample_type ≡ named (codes "T"))
same_type_iff_example = same_type_iff ascii-AsciiLaw sample_type-Canonical (of_named (refl, tt))

same_type-result_err_example :
    (same_type
        (function nil (function nil (named (codes "i32")) false) true)
        (function nil (function nil (named (codes "i32")) true) false)
      ≡ true)
    × (function nil (function nil (named (codes "i32")) false) true
        ≢ function nil (function nil (named (codes "i32")) true) false)
same_type-result_err_example = same_type-result_err nil nil (named (codes "i32"))

find_matching-Balanced_example : find_matching b'[' b']' (codes "[a[b]]c") ≡ some 5
find_matching-Balanced_example =
    find_matching-Balanced {b = true} square_pair (codes "c")
      (plain b'a' refl refl (square (plain b'b' refl refl done) done refl))

abbrev sample_source : Text
sample_source = codes "fun f() { ret x <<= 1 } # end"

lex-InOrder_example : Settles (InOrder 0 (length sample_source)) (lex ascii sample_source)
lex-InOrder_example = lex-InOrder ascii ascii-AlnumLaw sample_source

lex-string_literal_example :
    lex ascii (string_literal (codes "a{b}"))
    ≡ ok (
        record { kind = string; value = text (codes "a{b}"); pos = 8 }
        ∷ record { kind = eof; value = text []; pos = 8 }
        ∷ [])
lex-string_literal_example = lex-string_literal ascii (codes "a{b}") refl

lex_symbol-longest_example :
    (w : Text) × (k : TokenKind) × (r : Text) × (m : ℕ) × (lex_symbol 4 b'<' (codes "<= 1")
      ≡ ok (yields (record { kind = k; value = text w; pos = 4 }) (4 + length w) r))
    × (codes "<<= 1" ≡ w ++ r)
    × (get_elem? symbols m ≡ some (w, k))
    × ((o : ℕ) (x : Text) (j : TokenKind) (q : Text)
        → get_elem? symbols o ≡ some (x, j)
        → after_prefix x (codes "<<= 1") ≡ some q
        → length x ≤ length w)
unfolding after_prefix
lex_symbol-longest_example =
    lex_symbol-longest 4 b'<' (codes "<= 1") 12 (codes "<<") TokenKind.shl (codes "= 1") refl refl

-- `\u{1F600}` in front of `!"`
decode_escape-code_point_iff_example :
    (decode_escape ascii 3 b'"' (b'u' ∷ b'{' ∷ (codes "1F600" ++ (b'}' ∷ codes "!\"")))
      ≡ ok (0x1F600 ∷ [], 12, codes "!\""))
    ↔ ((cp : ℕ) × (int_base16 ascii (codes "1F600") ≡ some (pos cp))
        × IsScalar cp
        × (0x1F600 ∷ [] ≡ cp ∷ [])
        × (12 ≡ 3 + length (codes "1F600") + 4)
        × (codes "!\"" ≡ codes "!\""))
decode_escape-code_point_iff_example =
    decode_escape-code_point_iff ascii 3 b'"' (codes "1F600") (codes "!\"") (0x1F600 ∷ [])
      (codes "!\"") 12 (omega arith) (omega arith)

smile_value : int_base16 ascii (codes "1F600") ≡ some (pos 0x1F600)
unfolding int_base16 signed16 after_hex_prefix digits_value hex_digit strip trim_end skip_spaces
smile_value = refl

-- `fun f(a i32) { { } }`, `struct S { }` and `enum E { A }`
abbrev sample_program : Stmts
sample_program =
    Stmts.stmt
      (Stmt.function_declaration (
        Function.function (codes "f")
          (Params.param (codes "a") (some (named (codes "i32"))) OptExpr.no_expr Params.no_params)
          none (Stmts.stmt (Stmt.block_statement Stmts.no_stmts) Stmts.no_stmts) none false none
          false [] []))
      (Stmts.stmt (Stmt.struct_decl (codes "S") [] [] [] [])
        (Stmts.stmt (Stmt.enum_decl (codes "E") (codes "A" ∷ [])) Stmts.no_stmts))

build_symbol_table-WellFormed_example :
    Settles
      (λ t. WellFormed t × (t.level ≡ pos 0) × (lookup_symbol (codes "raw") t ≡ ok raw_symbol))
      (build_symbol_table sample_program)
build_symbol_table-WellFormed_example = build_symbol_table-WellFormed sample_program

walk_stmts-Kept_example : Settles (Kept initial_table) (walk_stmts sample_program initial_table)
walk_stmts-Kept_example = walk_stmts-Kept sample_program initial_table WellFormed-initial

abbrev i32_type : Option TypeRef
i32_type = some (named (codes "i32"))

abbrev no_symbols : Scope
no_symbols = []

abbrev with_x : SymbolTable
with_x =
    with_symbol (codes "x") i32_type false no_symbols (no_symbols ∷ []) (push_scope empty_table)

declare_x : declare (codes "x") i32_type false false (push_scope empty_table) ≡ ok with_x
unfolding declare push_scope one_of text_eq after_prefix lookup insert
declare_x = refl

declare_iff_example :
    (declare (codes "__COL__") i32_type true false (push_scope empty_table)
      ≡ raised (reserved_magic (codes "__COL__")))
    ↔ Declares
        (codes "__COL__")
        i32_type
        true
        false
        (push_scope empty_table)
        (raised (reserved_magic (codes "__COL__")))
declare_iff_example =
    declare_iff (codes "__COL__") i32_type true false (push_scope empty_table)
      (raised (reserved_magic (codes "__COL__")))

lookup_symbol-declare_example :
    (lookup_symbol (codes "x") with_x
      ≡ ok (record {
        name = codes "x";
        nc_type = i32_type;
        scope_level = (push_scope empty_table).level;
        immutable = false;
      }))
    × ((other : Text)
        → codes "x" ≢ other
        → lookup_symbol other with_x ≡ lookup_symbol other (push_scope empty_table))
lookup_symbol-declare_example =
    lookup_symbol-declare (codes "x") i32_type false false (push_scope empty_table) with_x declare_x

pop_scope-declare_example : pop_scope with_x ≡ ok empty_table
pop_scope-declare_example =
    pop_scope-declare (codes "x") i32_type false false empty_table with_x declare_x

-- `K` stands for `[]i32`, and `V` for itself.
abbrev sample_substitution : Text → TypeRef
sample_substitution n = if text_eq n (codes "K") then slice (named (codes "i32")) else named n

sample_substitution-Canonical :
    (n : Text) → IsName ascii n → Canonical ascii (sample_substitution n)
sample_substitution-Canonical n h = elim (Bool-cases (text_eq n (codes "K"))) [
  | inl e ↦ rw e (of_slice (of_named (refl, (refl, (refl, tt)))))
  | inr e ↦ rw e (of_named h)
]

rewrite_type_ref-substitute_example :
    rewrite_type_ref ascii (λ n. format (sample_substitution n)) sample_type
    ≡ ok (substitute sample_substitution sample_type)
rewrite_type_ref-substitute_example =
    rewrite_type_ref-substitute ascii-AsciiLaw sample_substitution sample_substitution-Canonical
      sample_type-Canonical

-- A table with `struct Node { next Node }`, which contains itself.
abbrev node_table : SymbolTable
node_table = record empty_table {
  scopes =
      ((
        codes "Node",
        record {
          name = codes "Node";
          nc_type = some (named (codes "struct"));
          scope_level = pos 0;
          immutable = false;
        },
      )
        ∷ [])
      ∷ [];
  structs = (codes "Node", (codes "next", named (codes "Node")) ∷ []) ∷ [];
}

comparable_error_type-Settles_example :
    Settles (λ _. Unit {0}) (hash_comparable_error_type node_table (named (codes "Node")))
    × Settles (λ _. Unit {0}) (comparable_error_type node_table (named (codes "Node")))
comparable_error_type-Settles_example =
    comparable_error_type-Settles node_table (named (codes "Node"))

align_to-least_example :
    (align_to 5 4 % 4 ≡ 0) × (5 ≤ align_to 5 4) × ((k : ℕ) → 5 ≤ k * 4 → align_to 5 4 ≤ k * 4)
align_to-least_example = align_to-least 5 4 (omega arith)

-- `struct P { a u8; b i32 }` takes eight bytes.
abbrev pair_tables : LayoutTables
pair_tables = record {
  struct_fields =
      (codes "P", (codes "a", named (codes "u8")) ∷ (codes "b", named (codes "i32")) ∷ []) ∷ [];
  enum_names = [];
  iface_names = [];
}

sizeof_pair : sizeof_type pair_tables 2 (named (codes "P")) ≡ ok 8
unfolding sizeof_type alignof_type sizeof_fields fields_from align_to type_key format one_of text_eq
    lookup as_map_type is_pointer is_function is_slice is_array
sizeof_pair = refl

alignof_pair : alignof_type pair_tables 2 (named (codes "P")) ≡ ok 4
unfolding alignof_type max_alignment type_key format one_of text_eq lookup as_map_type is_pointer
    is_function is_slice is_array
alignof_pair = refl

sizeof_type-alignof_type_example :
    IsAlignment 4 × (8 % 4 ≡ 0) × (aligned_sizeof_type pair_tables 2 (named (codes "P")) ≡ ok 8)
sizeof_type-alignof_type_example =
    sizeof_type-alignof_type pair_tables 2 (named (codes "P")) 8 4 sizeof_pair alignof_pair
