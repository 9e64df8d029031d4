-- ===== src/Parser/Terminates/Postfix.antt =====
-- `parse_postfix`, `parse_unary` and the levels of binary operators end.
use new_cl_lang.Base.{
  ℕ, zero, suc, ◌≤◌, ◌<◌, ◌≡◌, List, [], ◌∷◌, Option, none, some, arith, Settles, returns, raises,
  Outcome, ok, raised, out_of_fuel, Settles-if, Option-cases, inl, inr, refl,
}
use new_cl_lang.Base.Text.{Text, codes, text_eq}
use new_cl_lang.Lexer.Token.{TokenKind, Token}
use new_cl_lang.TypeRef.Syntax.{TypeRef}
use new_cl_lang.Python.{pos, AlnumLaw}
use new_cl_lang.Ast.{Expr}
use new_cl_lang.Parser.Weight.{weight}
use new_cl_lang.Parser.State.{ParseError, Parser, pure, ◌>>◌, ◌>>=◌, is_caught, kind_at}
use new_cl_lang.Parser.Knot.{Parsers, Setting}
use new_cl_lang.Parser.Postfix.{
  Postfix, plain, name_of, parse_call, attempt, parse_index, choose_brackets, parse_brackets,
  bracket_contains, parse_generic_member, parse_method, parse_member, parse_handler,
  parse_error_match, postfix_step, postfix_loop, parse_postfix, parse_unary, binary_loop,
  binary_level, parse_multiplicative, parse_additive, parse_comparison, parse_logic_and,
  parse_logic_or, parse_expression,
}
use new_cl_lang.Parser.Terminates.Rules.{
  First, Rest, endings, pure-Rest, Rest-if, run_bind, lower, weaken, >>=-First, >>-First, >>=-Rest,
  peek-Rest, advance-First, at_any-Rest, at-Rest, look-Rest, Rest-zero,
}
use new_cl_lang.Parser.Terminates.Blocks.{
  Fits, type-First, type_args-First, parse_block-First, parse_call_args-Rest,
  parse_struct_literal_fields-Rest, parse_match_arms-First,
}
use new_cl_lang.Parser.Terminates.Primary.{parse_primary-First}

module _ {n : ℕ} {self : Parsers} (fit : Fits n self) where
  parse_call-First : (expr : Postfix) → First (suc n) (parse_call self expr)
  unfolding parse_call
  parse_call-First expr = elim (Option-cases (name_of expr.node)) [
    | inl other ↦ rw (other, parse_call) (search (endings, parse_call_args-Rest, fit) depth 30)
    | inr (name, found) ↦
        rw (found, parse_call)
          (>>-First advance-First (
            Rest-if (text_eq name (codes "size_of")) (search (endings, type-First, fit) depth 30)
              (search (endings, parse_call_args-Rest, fit) depth 30)))
  ]

  parse_index-First :
      (expr : Expr) (candidate : Option (List TypeRef))
      → First (suc n) (parse_index self expr candidate)
  unfolding parse_index
  parse_index-First expr candidate = search (endings, fit.expression) depth 30

  -- What was read as type arguments left less weight; an index is read from the bracket on.
  abbrev Left : List Token → Option (List TypeRef × List Token) → Type 0
  Left ts none = Unit {0}
  Left ts (some (args, r)) = weight r < weight ts

  choose_brackets-Settles :
      (expr : Expr) (name : Text) (read : Option (List TypeRef × List Token)) (ts : List Token)
      → Left ts read
      → weight ts < suc n
      → Settles {E = ParseError}
          (λ (x : Postfix × List Token). weight x.1 < weight ts)
          (choose_brackets self expr name read ts)
  unfolding choose_brackets ◌>>◌ pure
  choose_brackets-Settles expr name none ts h lt = (parse_index-First expr none).settles ts lt
  choose_brackets-Settles expr name (some (args, r)) ts h lt =
      run_bind _ (peek-Rest.settles r h) λ t r' _.
        Settles-if (kind_at 0 (TokenKind.lparen ∷ []) r) (λ _. returns h)
          λ _.
            Settles-if (bracket_contains TokenKind.comma (pos 0) ts) (λ _. returns h)
              λ _. (parse_index-First expr (some args)).settles ts lt

  attempt-Left :
      (p : Parser (List TypeRef)) (ts : List Token)
      → First (suc n) p
      → weight ts < suc n
      → Settles {E = ParseError} (Left ts) (attempt p ts)
  unfolding attempt
  attempt-Left p ts h lt = caught (p ts) refl (h.settles ts lt)
    where
      caught :
          (o : Outcome ParseError (List TypeRef × List Token))
          → p ts ≡ o
          → Settles (λ x. weight x.1 < weight ts) o
          → Settles {E = ParseError} (Left ts) (attempt p ts)
      caught (ok (args, r)) e (returns h) = rw (e, attempt) (returns h)
      caught (raised x) e h =
          rw (e, attempt) (Settles-if (is_caught x) (λ _. returns tt) (λ _. raises))
      caught out_of_fuel e h = elim h [ ]

  parse_brackets-First : (expr : Postfix) → First (suc n) (parse_brackets self expr)
  unfolding parse_brackets
  parse_brackets-First expr = elim (Option-cases (name_of expr.node)) [
    | inl other ↦ rw (other, parse_brackets) (parse_index-First expr.node none)
    | inr (name, found) ↦
        rw (found, parse_brackets)
          (record {
            settles = λ ts lt. chosen name ts lt _ (attempt-Left _ ts (type_args-First fit) lt);
          })
  ]
    where
      chosen :
          (name : Text) (ts : List Token)
          → weight ts < suc n
          → (o : Outcome ParseError (Option (List TypeRef × List Token))) → Settles (Left ts) o
          → Settles {E = ParseError}
              (λ (x : Postfix × List Token). weight x.1 < weight ts)
              (elim o [
                | ok read ↦ choose_brackets self expr.node name read ts
                | raised e ↦ raised e
                | out_of_fuel ↦ out_of_fuel
              ])
      chosen name ts lt (ok read) (returns h) = choose_brackets-Settles expr.node name read ts h lt
      chosen name ts lt (raised e) h = raises
      chosen name ts lt out_of_fuel h = elim h [ ]

  parse_generic_member-First : (qname : Text) → First (suc n) (parse_generic_member self qname)
  unfolding parse_generic_member
  parse_generic_member-First qname =
      search (endings, type_args-First, parse_call_args-Rest, parse_struct_literal_fields-Rest, fit)
        depth 30

  parse_method-First :
      (setting : Setting) (expr : Expr) (field : Text)
      → First (suc n) (parse_method setting self expr field)
  unfolding parse_method
  parse_method-First setting expr field = search (endings, parse_call_args-Rest, fit) depth 30

  parse_member-First :
      (setting : Setting) (expr : Postfix) → First (suc n) (parse_member setting self expr)
  unfolding parse_member
  parse_member-First setting expr =
      search (endings, parse_generic_member-First, parse_method-First) depth 30

  parse_handler-First : (expr : Postfix) → First (suc n) (parse_handler self expr)
  unfolding parse_handler
  parse_handler-First expr = search (endings, parse_block-First, fit) depth 30

  parse_error_match-First : (expr : Postfix) → First (suc n) (parse_error_match self expr)
  unfolding parse_error_match
  parse_error_match-First expr = search (endings, parse_match_arms-First, fit) depth 30

  -- One round, with what goes on from the smaller rest.
  postfix_step-Rest :
      {A : Type 0} {next : Postfix → Parser A} {stop : Parser A} (fuel : ℕ) (setting : Setting)
      (expr : Postfix)
      → fuel ≤ n
      → ((e : Postfix) → Rest fuel (next e))
      → Rest (suc fuel) stop
      → Rest (suc fuel) (postfix_step setting self expr next stop)
  unfolding postfix_step
  postfix_step-Rest {next = next} fuel setting expr le hn hs =
      at-Rest _ (goes (parse_call-First expr)) (
        at-Rest _ (goes (parse_brackets-First expr)) (
          at-Rest _ (goes (parse_member-First setting expr)) (
            at-Rest _ (weaken (>>-First advance-First (hn _))) (
              at-Rest _ (weaken (>>-First advance-First (hn _))) (
                look-Rest _ (goes (parse_handler-First expr))
                  (look-Rest _ (goes (parse_error_match-First expr)) hs))))))
    where
      goes : {p : Parser Postfix} → First (suc n) p → Rest (suc fuel) (p >>= next)
      goes h = weaken (>>=-First (lower h (omega arith)) hn)

  postfix_loop-Rest :
      (setting : Setting) (fuel : ℕ)
      → fuel ≤ n
      → (expr : Postfix) → Rest fuel (postfix_loop fuel setting self expr)
  unfolding postfix_loop
  postfix_loop-Rest setting zero le expr = Rest-zero
  postfix_loop-Rest setting (suc fuel) le expr = record {
    settles =
        (postfix_step-Rest fuel setting expr (omega arith)
          (postfix_loop-Rest setting fuel (omega arith)) (pure-Rest expr.node)).settles;
  }

-- A level of binary operators, whose operands end.
module _ {n : ℕ} {operand : Parser Expr} (h : First (suc n) operand) where
  binary_loop-Rest :
      (fuel : ℕ)
      → fuel ≤ n
      → (kinds : List TokenKind) (left : Expr) → Rest fuel (binary_loop fuel kinds operand left)
  unfolding binary_loop
  binary_loop-Rest zero le kinds left = Rest-zero
  binary_loop-Rest (suc fuel) le kinds left = record {
    settles =
        (at_any-Rest kinds
          (weaken (
            >>=-First (search endings depth 30) λ op.
              >>=-Rest (weaken (lower h (omega arith)))
                λ right. binary_loop-Rest fuel (omega arith) kinds (Expr.binary_op left op right)))
          (pure-Rest left)).settles;
  }

  pub binary_level-First : (kinds : List TokenKind) → First (suc n) (binary_level n kinds operand)
  unfolding binary_level
  binary_level-First kinds = >>=-First h (λ left. binary_loop-Rest n (omega arith) kinds left)

module _ {n : ℕ} {self : Parsers} (fit : Fits n self) (setting : Setting)
    (law : AlnumLaw setting.unicode) where
  parse_postfix-First : First (suc n) (parse_postfix setting self)
  unfolding parse_postfix
  parse_postfix-First =
      >>=-First (parse_primary-First fit setting law) (λ e. loop_at self.loops fit.loops (plain e))
    where
      loop_at : (fuel : ℕ) → fuel ≡ n → (e : Postfix) → Rest n (postfix_loop fuel setting self e)
      loop_at fuel same e = rw same (postfix_loop-Rest fit setting n (omega arith) e)

  pub parse_unary-First : First (suc n) (parse_unary setting self)
  unfolding parse_unary
  parse_unary-First = search (endings, fit.unary, parse_postfix-First) depth 30

  levels :
      {operand : Parser Expr}
      → First (suc n) operand
      → (kinds : List TokenKind) → First (suc n) (binary_level self.loops kinds operand)
  levels h kinds = rw (fit.loops) (binary_level-First h kinds)

  pub parse_expression-First : First (suc n) (parse_expression setting self)
  unfolding parse_expression parse_logic_or parse_logic_and parse_comparison parse_additive
      parse_multiplicative
  parse_expression-First = levels (levels (levels (levels (levels parse_unary-First _) _) _) _) _
