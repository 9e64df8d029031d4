-- ===== src/Layout/Alignment.antt =====
-- compiler/llvm_layout.py: `align_to` rounds up to the next multiple.
use new_cl_lang.Base.{ℕ, suc, ◌+◌, ◌-◌, ◌*◌, ◌/◌, ◌%◌, ◌≤◌, ◌<◌, ◌≡◌, arith}
use native.Mathlib.Nat.{div-lt_iff_lt-mul, mul-mod_left, mul-le-mul_right}
use new_cl_lang.Layout.Sizes.{align_to}

quotient-le :
    (x k alignment : ℕ)
    → 0 < alignment
    → x < suc k * alignment
    → x / alignment * alignment ≤ k * alignment
quotient-le x k alignment h lt = mul-le-mul_right alignment (lt_suc ((div-lt_iff_lt-mul h).1 lt))
  where
    lt_suc : x / alignment < suc k → x / alignment ≤ k
    lt_suc lt = omega arith

-- `align_to` gives the least multiple of the alignment that is not below the value: it is a multiple, it is
-- at or above the value, and every multiple at or above the value is at or above it.
pub align_to-least :
    (value alignment : ℕ)
    → 0 < alignment
    → (align_to value alignment % alignment ≡ 0)
      × (value ≤ align_to value alignment)
      × ((k : ℕ) → value ≤ k * alignment → align_to value alignment ≤ k * alignment)
unfolding align_to
align_to-least value alignment h = (
  mul-mod_left ((value + alignment - 1) / alignment) alignment,
  omega arith,
  λ k le. quotient-le (value + alignment - 1) k alignment h (omega arith),
)
