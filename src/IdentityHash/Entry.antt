-- ===== src/IdentityHash/Entry.antt =====
-- One word of the key array: a pointer with its probe length (at most 7) in the three low bits.
pub mod Laws
use retrace_cpython.Base.{
  ℕ, ◌+◌, ◌-◌, ◌*◌, ◌/◌, ◌%◌, ◌^◌, ◌<◌, bit_and, bit_or, bit_xor, Bool, ltb, leb, if◌then◌else◌,
}
use retrace_cpython.Words.Arith.{sub64}
use retrace_cpython.Mixers.{mix64}

abbrev pub psl_mask : ℕ
psl_mask = 7

-- ~psl_mask on a 64-bit word
abbrev pub pointer_mask : ℕ
pointer_mask = 2 ^ 64 - 8

abbrev pub psl_saturated : ℕ
psl_saturated = 7

unfoldable pub entry_key : ℕ → ℕ
entry_key entry = bit_and entry pointer_mask

unfoldable pub entry_psl : ℕ → ℕ
entry_psl entry = bit_and entry psl_mask

unfoldable pub make_entry : ℕ → ℕ → ℕ
make_entry key psl =
    let psl' = if ltb psl_saturated psl then psl_saturated else psl in bit_or key psl'

unfoldable pub home_index : ℕ → ℕ → ℕ
unfolding mix64
home_index key mask = bit_and (mix64 key 0x9e3779b97f4a7c15) mask

unfoldable pub exact_psl : ℕ → ℕ → ℕ → ℕ
exact_psl key index mask = let home = home_index key mask in bit_and (sub64 index home) mask

unfoldable pub entry_matches : ℕ → ℕ → Bool
entry_matches entry key = leb (bit_xor entry key) psl_mask
