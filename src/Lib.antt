-- ===== src/Lib.antt =====
-- The NC compiler, a compiler written in Python (compiler/): the parts of it that turn a source text into
-- tokens and these into a syntax tree, write and read types, collect a program's declarations, decide what
-- may be compared, type calls of builtin functions, give types their sizes and symbols their labels. The
-- lexer gives tokens to the parser, whose syntax tree the declaration pass walks; the type checker and the
-- code generator ask the resulting symbol table for names, and compare and name types by their canonical
-- strings.
--
-- - Base: shared helpers. Text is the list of code points, a Python dict an association list, and code
--   that raises returns an `Outcome`. Base/Postconditions has the predicate `Settles`: a run that ends,
--   and whose result, if it returns one, has a property.
-- - Python: the functions of Python's `str` and `int` that the compiler calls. The Unicode tables behind
--   `isdigit`, `isalpha`, `isalnum`, `isspace` and `int` are the parameter `Unicode`, with two laws,
--   `AlnumLaw` and `AsciiLaw`, for what is relied on.
-- - Lexer: compiler/lexer.py. `lex` is `lex`, a list for the generator; `decode_escape`,
--   `scan_interpolation_expr`, `scan_string` and `scan_char` are the functions with a leading underscore.
--   A cursor is a position together with the text from there on. `lex_step` is one round of the loop.
--   CodePoints says which escapes of code points are read, LongestMatch which symbols.
-- - TypeRef: compiler/type_ref.py. `parse_type_ref`, `format` (`format_type_ref`), `format_user`, `type_key`
--   and `same_type`, with `split_top_level` and `find_matching`. Canonical says which types can be read back.
-- - Ast: compiler/ast.py, the node classes as one block of data types.
-- - Symtab: compiler/symtab.py. Table has `SymbolTable` and its methods, Build the pass
--   `build_symbol_table`; a function of state takes the table and returns it. ReservedNames and Declares spell
--   out what `declare` answers. Kept/Walk handles the walk
--   once for any relation between tables that satisfies a record of laws; Kept/Levels and Kept/Program
--   fill it.
-- - Parser: compiler/parser.py. A method is a state-passing parser over the tokens that are left (State has the
--   cursor and its moves), and gives a node, an exception, or no fuel. Types has `_parse_type`; Knot the record
--   `Parsers` of the methods that all others come back to; Blocks, Primary, Postfix, Declarations and Statements
--   the methods, given that record; Program ties the knot and has `parse`. Grammar
--   has the grammar of types as a relation, IndexedBlock conditions in front of blocks,
--   LeftAssociative the loops over binary operators. Weight and Terminates are about
--   its fuel.
-- - TypeRules: compiler/type_rules.py. Kinds has the predicates on one type, Comparable the searches through
--   struct fields: a rule says what the type's shape decides, and one search serves both rules.
-- - Layout: compiler/llvm_layout.py, the class `LLVMLayout`, with the module's tables as a parameter.
-- - Builtins: compiler/builtins.py, `infer_builtin_call`, with the type checker's `require_type` as a parameter.
--   Builtins/Arity has the number of arguments of each builtin.
-- - Names: compiler/names.py, the labels of ABI symbols, with the digest of a signature as a parameter.
-- - Tests: runs on small inputs.
--
-- Fuel: `lex_from` and the loop over a string literal run on the number of characters left, plus one, and
-- each round reads a character or more; `parse_fuel` runs on the length of its text plus one, and each
-- call of `parse_type_ref` in itself has a shorter text. A search in TypeRules runs on the number of
-- structs plus one, since each level of calls has seen one struct more. The parser runs on the weight
-- of its tokens plus one, their number with the characters of interpolations: each call of a method by way
-- of the record `Parsers`, and each round of a loop, has read a token. The other functions recur on
-- their data.
--
-- Not modelled: the spans of nodes, the type checker, generics, the driver and its files, `safe_ident`, the
-- calls of llvmlite, and the messages of exceptions, which are constructors with what the message holds.
pub mod Ast
pub mod Base
pub mod Builtins
pub mod Layout
pub mod Lexer
pub mod Names
pub mod Parser
pub mod Python
pub mod Symtab
pub mod Tests
pub mod TypeRef
pub mod TypeRules
