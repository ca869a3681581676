-- ===== src/Words/Arith.antt =====
-- `+`, `-`, `*` and shifts on `uint64_t` and `size_t`, with their wrap-around.
use retrace_cpython.Base.{ℕ, ◌+◌, ◌-◌, ◌*◌, ◌/◌, ◌%◌, ◌^◌}

-- UINT64_MAX, (size_t)-1
abbrev pub word_max : ℕ
word_max = 2 ^ 64 - 1

abbrev pub add64 : ℕ → ℕ → ℕ
add64 a b = (a + b) % 2 ^ 64

abbrev pub sub64 : ℕ → ℕ → ℕ
sub64 a b = (a + 2 ^ 64 - b) % 2 ^ 64

abbrev pub mul64 : ℕ → ℕ → ℕ
mul64 a b = a * b % 2 ^ 64

abbrev pub shr : ℕ → ℕ → ℕ
shr a k = a / 2 ^ k

abbrev pub shl64 : ℕ → ℕ → ℕ
shl64 a k = a * 2 ^ k % 2 ^ 64
