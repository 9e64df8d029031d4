-- ===== src/Tests/Naming.antt =====
-- compiler/names.py on small inputs.
use new_cl_lang.Base.{◌≤◌, ◌≡◌, refl, true, arith, length}
use new_cl_lang.Base.Text.{codes}
use new_cl_lang.Names.{abi_label, abi_symbol, sub_runs, strip_left, strip_right, abi_hash}
use new_cl_lang.Names.Labels.{is_identifier, abi_label-is_identifier}

pair_label : abi_label (codes "_9.[]Pair[i32, str]_") 48 ≡ codes "_9_Pair_i32_str"
unfolding abi_label sub_runs strip_left strip_right
pair_label = refl

empty_label : abi_label (codes "__[]") 48 ≡ codes "anon"
unfolding abi_label sub_runs strip_left strip_right
empty_label = refl

main_symbol :
    abi_symbol
      (λ signature. codes "0123456789abcdef")
      (codes "fn")
      (codes "std.io")
      (codes "main")
      (codes "void")
    ≡ codes "__nc_fn_std_io_main_0123456789"
unfolding abi_symbol abi_hash abi_label sub_runs strip_left strip_right
main_symbol = refl

abi_label-is_identifier_example :
    (is_identifier (abi_label (codes "9.[]Pair") 3) ≡ true)
    × (length (abi_label (codes "9.[]Pair") 3) ≤ 3)
abi_label-is_identifier_example = abi_label-is_identifier (codes "9.[]Pair") 3 (omega arith)
