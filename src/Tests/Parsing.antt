-- ===== src/Tests/Parsing.antt =====
-- Runs of the lexer and the parser on small sources.
use new_cl_lang.Base.{
  ℕ, List, [], ◌∷◌, ◌≡◌, ◌≢◌, ◌↔◌, refl, true, false, none, some, length, Outcome, ok, raised,
  out_of_fuel, Settles, arith,
}
use new_cl_lang.Base.Text.{Text, codes, one_of, text_eq}
use new_cl_lang.Lexer.Token.{TokenKind, Token, text, number}
use new_cl_lang.Lexer.Lex.{lex}
use new_cl_lang.Lexer.Kinded.{all_well_kinded, lex-all_well_kinded}
use new_cl_lang.TypeRef.Syntax.{TypeRef, named, pointer, slice}
use new_cl_lang.Parser.State.{
  Parser, same_kind, kind_in, kind_value, expected, expect, expect_name, text_of, text_value, pure,
  ◌>>=◌,
}
use new_cl_lang.Ast.{Expr}
use new_cl_lang.Parser.Postfix.{binary_level, additive_kinds}
use new_cl_lang.Parser.LeftAssociative.{Rounds, done, round, binary_level-joined}
use new_cl_lang.Builtins.{TypeError, infer_builtin_call}
use new_cl_lang.Builtins.Arity.{arity, refused, infer_builtin_call-arity}
use new_cl_lang.Parser.Types.{parse_type}
use new_cl_lang.Parser.Knot.{Setting}
use new_cl_lang.Parser.Primary.{magic_consts, parse_primary}
use new_cl_lang.Parser.Grammar.{ReadsType}
use new_cl_lang.Parser.Grammar.Sound.{parse_type_iff}
use new_cl_lang.Parser.IndexedBlock.{
  indexed_block, qualified_block, parse_primary-indexed_block, parse_primary-qualified_block,
}
use new_cl_lang.Parser.Program.{parse, parsers}
use new_cl_lang.Parser.Terminates.Program.{parse-ne-out_of_fuel}
use new_cl_lang.Tests.{ascii, ascii-AlnumLaw}

abbrev sign : TokenKind → Token
sign k = record { kind = k; value = text []; pos = 0 }

-- `{ break`, without the end of the block
abbrev open_block : List Token
open_block = sign TokenKind.lbrace ∷ sign TokenKind.break_kw ∷ sign TokenKind.eof ∷ []

parse-ne-out_of_fuel_example : parse ascii [] open_block ≢ out_of_fuel
parse-ne-out_of_fuel_example = parse-ne-out_of_fuel ascii ascii-AlnumLaw [] open_block

lex-all_well_kinded_example :
    Settles (λ tokens. all_well_kinded tokens ≡ true) (lex ascii (codes "ret 1u8 + 2.5"))
lex-all_well_kinded_example = lex-all_well_kinded ascii ascii-AlnumLaw (codes "ret 1u8 + 2.5")

abbrev word : Text → Token
word w = record { kind = TokenKind.ident; value = text w; pos = 0 }

-- `[]*T;`
abbrev slice_tokens : List Token
slice_tokens =
    sign TokenKind.lbracket
    ∷ sign TokenKind.rbracket
    ∷ sign TokenKind.star
    ∷ word (codes "T")
    ∷ sign TokenKind.semi
    ∷ []

parse_type_iff_example :
    (parse_type 5 slice_tokens
      ≡ ok (slice (pointer (named (codes "T")) false), sign TokenKind.semi ∷ []))
    ↔ ReadsType slice_tokens (slice (pointer (named (codes "T")) false)) (sign TokenKind.semi ∷ [])
parse_type_iff_example =
    parse_type_iff 5 slice_tokens (sign TokenKind.semi ∷ [])
      (slice (pointer (named (codes "T")) false)) (omega arith)

abbrev plain_setting : Setting
plain_setting = record { unicode = ascii; imported = [] }

one_loop : (parsers plain_setting 1).loops ≡ 1
unfolding parsers
one_loop = refl

no_magic : one_of (codes "flags") magic_consts ≡ false
unfolding one_of text_eq
no_magic = refl

no_map : text_eq (codes "flags") (codes "map") ≡ false
unfolding text_eq
no_map = refl

is_ret :
    (same_kind TokenKind.ret_kw TokenKind.ident ≡ false)
    × (same_kind TokenKind.ret_kw TokenKind.rbrace ≡ false)
unfolding same_kind kind_value
is_ret = (refl, refl)

-- `flags[0] {`
parse_primary-indexed_block_example :
    parse_primary plain_setting (parsers plain_setting 1) (
      indexed_block
        (codes "flags")
        (number 0 none)
        (text [])
        0
        5
        6
        7
        9
        (sign TokenKind.ret_kw ∷ []))
    ≡ raised (
        expected TokenKind.ident
          (record { kind = TokenKind.integer; value = number 0 none; pos = 6 }))
parse_primary-indexed_block_example =
    parse_primary-indexed_block plain_setting (parsers plain_setting 1) 0 (codes "flags")
      (number 0 none) (text []) 0 5 6 7 9 (sign TokenKind.ret_kw ∷ []) one_loop no_magic no_map

-- `flags.ok { ret`
parse_primary-qualified_block_example :
    parse_primary plain_setting
      (parsers plain_setting 1)
      (qualified_block (codes "flags") (codes "ok") (text []) 0 5 6 9 (sign TokenKind.ret_kw) [])
    ≡ raised (expected TokenKind.ident (sign TokenKind.ret_kw))
parse_primary-qualified_block_example =
    parse_primary-qualified_block plain_setting (parsers plain_setting 1) 0 (codes "flags")
      (codes "ok") (text []) 0 5 6 9 (sign TokenKind.ret_kw) [] one_loop no_magic is_ret.0 is_ret.1

-- `a - b;`, with names for operands
abbrev name_operand : Parser Expr
name_operand = expect_name >>= λ n. pure (Expr.identifier n)

abbrev minus_b : List Token
minus_b =
    record { kind = TokenKind.minus; value = text (codes "-"); pos = 0 }
    ∷ word (codes "b")
    ∷ sign TokenKind.semi
    ∷ []

reads_name : (w : Text) (ts : List Token) → name_operand (word w ∷ ts) ≡ ok (Expr.identifier w, ts)
unfolding ◌>>=◌ pure expect same_kind kind_value text_of text_value
reads_name w ts = refl

minus-Rounds :
    Rounds additive_kinds name_operand minus_b
      ((codes "-", Expr.identifier (codes "b")) ∷ [])
      (sign TokenKind.semi ∷ [])
unfolding kind_in same_kind kind_value
minus-Rounds = round refl refl (reads_name (codes "b") (sign TokenKind.semi ∷ [])) (done refl)

binary_level-joined_example :
    binary_level 2 additive_kinds name_operand (word (codes "a") ∷ minus_b)
    ≡ ok (
      Expr.binary_op (Expr.identifier (codes "a")) (codes "-") (Expr.identifier (codes "b")),
      sign TokenKind.semi ∷ [],
    )
binary_level-joined_example =
    binary_level-joined additive_kinds name_operand 2 (word (codes "a") ∷ minus_b) minus_b
      (sign TokenKind.semi ∷ []) (Expr.identifier (codes "a"))
      ((codes "-", Expr.identifier (codes "b")) ∷ []) (reads_name (codes "a") minus_b) minus-Rounds
      (omega arith)

any_type : (given wanted : TypeRef) → Text → Outcome TypeError (Unit {0})
any_type given wanted context = ok tt

append_wrong : (n : ℕ) → arity (codes "append") ≡ some n → length {A = TypeRef} [] ≢ n
unfolding arity one_of text_eq
append_wrong n e z = cc

infer_builtin_call-arity_example :
    infer_builtin_call any_type (codes "append") []
    ≡ refused (codes "append") (arity (codes "append")) []
infer_builtin_call-arity_example =
    infer_builtin_call-arity any_type (codes "append") [] append_wrong
