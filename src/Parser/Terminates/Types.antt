-- ===== src/Parser/Terminates/Types.antt =====
-- Types, lists of type arguments and lists of type parameters end.
use new_cl_lang.Base.{ℕ, zero, suc, none, some}
use new_cl_lang.Base.Text.{Text, one_of}
use new_cl_lang.Lexer.Token.{TokenValue, Token}
use new_cl_lang.TypeRef.Syntax.{TypeRef}
use new_cl_lang.Parser.State.{Parser}
use new_cl_lang.Parser.Types.{
  length_value, length_of, parse_length, parse_type_args_with, parse_named_type,
  parse_function_type, parse_type_with, parse_type, check_constraint, parse_type_param,
  parse_type_params, known_constraints,
}
use new_cl_lang.Parser.Terminates.Rules.{
  First, Rest, endings, within, First-zero, comma_list-Rest, pure-Rest, fail-Rest, Rest-if,
}

module _ {n : ℕ} where
  length_value-Rest : (t : Token) (v : TokenValue) → Rest n (length_value t v)
  unfolding length_value
  length_value-Rest t (TokenValue.number k none) = pure-Rest k
  length_value-Rest t (TokenValue.number k (some s)) = fail-Rest _
  length_value-Rest t _ = fail-Rest _

  length_of-Rest : (t : Token) → Rest n (length_of t)
  unfolding length_of
  length_of-Rest t = length_value-Rest t t.value

pub parse_length-First : {n : ℕ} → First (suc n) parse_length
unfolding parse_length
parse_length-First = search (endings, length_of-Rest) depth 30

-- With a parser of the types inside that ends on the tokens behind the first.
module _ {n : ℕ} {type : Parser TypeRef} (h : First n type) where
  pub parse_type_args-First : First (suc n) (parse_type_args_with n type)
  unfolding parse_type_args_with
  parse_type_args-First = search (endings, comma_list-Rest, h) depth 30

  parse_named_type-First : First (suc n) (parse_named_type n type)
  unfolding parse_named_type
  parse_named_type-First = search (endings, parse_type_args-First, h) depth 30

  parse_function_type-First : First (suc n) (parse_function_type n type)
  unfolding parse_function_type
  parse_function_type-First = search (endings, comma_list-Rest, h) depth 30

  parse_type_with-First : First (suc n) (parse_type_with n type)
  unfolding parse_type_with
  parse_type_with-First =
      search (endings, parse_length-First, parse_named_type-First, parse_function_type-First, h)
        depth 30

pub parse_type-First : (n : ℕ) → First n (parse_type n)
unfolding parse_type
parse_type-First zero = First-zero
parse_type-First (suc n) = record { settles = (parse_type_with-First (parse_type-First n)).settles }

module _ {n : ℕ} where
  check_constraint-Rest : (c : Text) → Rest n (check_constraint c)
  unfolding check_constraint
  check_constraint-Rest c = Rest-if (one_of c known_constraints) (pure-Rest c) (fail-Rest _)

  parse_type_param-First : First (suc n) parse_type_param
  unfolding parse_type_param
  parse_type_param-First = search (endings, check_constraint-Rest) depth 30

  pub parse_type_params-Rest : Rest n (parse_type_params n)
  unfolding parse_type_params
  parse_type_params-Rest =
      search (endings, within, comma_list-Rest, parse_type_param-First) depth 30
