-- ===== src/Words.antt =====
-- 64-bit words: `uint64_t`, `uintptr_t` and `size_t` as natural numbers below 2 ^ 64.
pub mod Bits
pub mod Arith
