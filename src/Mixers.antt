-- ===== src/Mixers.antt =====
-- cpython-overlay/Include/internal/pycore_retrace_mixers.h: the wy64 mixer, in the branch for
-- compilers with a 128-bit integer (`__SIZEOF_INT128__`).
use retrace_cpython.Base.{ℕ, ◌*◌, ◌%◌, ◌^◌, ◌<◌, bit_xor, arith}
use retrace_cpython.Words.Arith.{shr}
use retrace_cpython.Words.Bits.{bit_xor-lt}

-- The product has 128 bits; the result folds its two halves.
unfoldable pub mix64 : ℕ → ℕ → ℕ
mix64 state value =
    let product : ℕ = bit_xor state 0xa0761d6478bd642f * bit_xor value 0xe7037ed1a0b428db in
    bit_xor (product % 2 ^ 64) (shr product 64 % 2 ^ 64)

pub mix64-lt : (state value : ℕ) → mix64 state value < 2 ^ 64
unfolding mix64
mix64-lt state value = bit_xor-lt 64 _ _ (omega arith) (omega arith)
