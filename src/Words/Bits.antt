-- ===== src/Words/Bits.antt =====
-- Laws of `&`, `|` and `^` at every width, from the digit recursion that they stand for.
mod Digits
pub use Digits.{bit_and_digit, bit_or_digit, bit_xor_digit, zero-bit_xor}
use native.Mathlib.Nat.{pow-suc, one-le-pow}
use retrace_cpython.Base.{
  ℕ, zero, suc, ◌≡◌, refl, arith, ◌+◌, ◌-◌, ◌*◌, ◌/◌, ◌%◌, ◌^◌, ◌<◌, ◌≤◌, bit_and, bit_or, bit_xor,
  ap, ◌↔◌,
}

and-zero_below : (n a : ℕ) → a ≤ n → bit_and a 0 ≡ 0
and-zero_below n zero h = refl
and-zero_below zero (suc a) h = absurd (omega arith)
and-zero_below (suc n) (suc a) h =
    omega (arith, bit_and_digit (suc a) 0, and-zero_below n (suc a / 2) (omega arith))

pub bit_and-zero : (a : ℕ) → bit_and a 0 ≡ 0
bit_and-zero a = and-zero_below a a (omega arith)

or-zero_below : (n a : ℕ) → a ≤ n → bit_or a 0 ≡ a
or-zero_below n zero h = refl
or-zero_below zero (suc a) h = absurd (omega arith)
or-zero_below (suc n) (suc a) h =
    omega (arith, bit_or_digit (suc a) 0, or-zero_below n (suc a / 2) (omega arith))

pub bit_or-zero : (a : ℕ) → bit_or a 0 ≡ a
bit_or-zero a = or-zero_below a a (omega arith)

and_parts : (k q r : ℕ) → r < 2 ^ k → bit_and (2 ^ k * q + r) (2 ^ k - 1) ≡ r
and_parts zero q r h = omega (arith, bit_and-zero (2 ^ 0 * q + r))
and_parts (suc k) q r h = ground (
  arith,
  bit_and_digit (2 ^ suc k * q + r) (2 ^ suc k - 1),
  pow-suc 2 k,
  one-le-pow k 2,
  double,
  halves,
  and_parts k q (r / 2),
)
  where
    double : 2 ^ suc k * q ≡ 2 * (2 ^ k * q)
    double = omega (arith, ap (λ (t : ℕ). t * q) (pow-suc 2 k))

    halves : (2 ^ suc k * q + r) / 2 ≡ 2 ^ k * q + r / 2
    halves = omega (arith, double)

-- A mask of `k` ones leaves the remainder by `2 ^ k`.
pub bit_and_low : (k a : ℕ) → bit_and a (2 ^ k - 1) ≡ a % 2 ^ k
bit_and_low k a = ground (arith, one-le-pow k 2, and_parts k (a / 2 ^ k) (a % 2 ^ k))

xor-eq_below : (n a b : ℕ) → a ≤ n → bit_xor a b ≡ 0 → a ≡ b
xor-eq_below n zero b h e = omega (arith, zero-bit_xor b)
xor-eq_below zero (suc a) b h e = absurd (omega arith)
xor-eq_below (suc n) (suc a) b h e = omega (
  arith,
  bit_xor_digit (suc a) b,
  xor-eq_below n (suc a / 2) (b / 2) (omega arith) (omega (arith, bit_xor_digit (suc a) b)),
)

pub eq_of_bit_xor : (a b : ℕ) → bit_xor a b ≡ 0 → a ≡ b
eq_of_bit_xor a b e = xor-eq_below a a b (omega arith) e

xor_self_below : (n a : ℕ) → a ≤ n → bit_xor a a ≡ 0
xor_self_below n zero h = refl
xor_self_below zero (suc a) h = absurd (omega arith)
xor_self_below (suc n) (suc a) h =
    omega (arith, bit_xor_digit (suc a) (suc a), xor_self_below n (suc a / 2) (omega arith))

pub bit_xor_self : (a : ℕ) → bit_xor a a ≡ 0
bit_xor_self a = xor_self_below a a (omega arith)

-- `^` and `|` of two `k`-bit words have `k` bits.
pub bit_xor-lt : (k a b : ℕ) → a < 2 ^ k → b < 2 ^ k → bit_xor a b < 2 ^ k
bit_xor-lt zero zero zero h g = omega arith
bit_xor-lt zero zero (suc b) h g = absurd (omega arith)
bit_xor-lt zero (suc a) b h g = absurd (omega arith)
bit_xor-lt (suc k) a b h g =
    ground (arith, bit_xor_digit a b, pow-suc 2 k, bit_xor-lt k (a / 2) (b / 2))

-- `|` of a multiple of 8 with three low bits is their sum.
pub bit_or_eight : (q r : ℕ) → r < 8 → bit_or (8 * q) r ≡ 8 * q + r
bit_or_eight q r h = ground (
  arith,
  bit_or_digit (8 * q) r,
  bit_or_digit (8 * q / 2) (r / 2),
  bit_or_digit (8 * q / 2 / 2) (r / 2 / 2),
  bit_or-zero q,
)

bit_xor-div_eight : (a b : ℕ) → bit_xor a b / 8 ≡ bit_xor (a / 8) (b / 8)
bit_xor-div_eight a b =
    rw (eighth a, eighth b)
      (omega (
        arith,
        bit_xor_digit a b,
        bit_xor_digit (a / 2) (b / 2),
        bit_xor_digit (a / 2 / 2) (b / 2 / 2),
      ))
  where
    eighth : (c : ℕ) → c / 8 ≡ c / 2 / 2 / 2
    eighth c = omega arith

-- Two words agree but for their three low bits exactly when `^` leaves at most three bits.
pub bit_xor_eight : (a b : ℕ) → (bit_xor a b ≤ 7) ↔ (a / 8 ≡ b / 8)
bit_xor_eight a b = (
  λ h. eq_of_bit_xor (a / 8) (b / 8) (omega (arith, bit_xor-div_eight a b)),
  λ e. omega (arith, bit_xor-div_eight a b, same e),
)
  where
    same : a / 8 ≡ b / 8 → bit_xor (a / 8) (b / 8) ≡ 0
    same e = rw e (bit_xor_self (b / 8))

-- Clearing the three low bits of a 64-bit word.
pub bit_and_eight : (a : ℕ) → a < 2 ^ 64 → bit_and a (2 ^ 64 - 8) ≡ 8 * (a / 8)
bit_and_eight a h = omega (
  arith,
  bit_and_digit a (2 ^ 64 - 8),
  bit_and_digit (a / 2) (2 ^ 63 - 4),
  bit_and_digit (a / 2 / 2) (2 ^ 62 - 2),
  bit_and_low 61 (a / 2 / 2 / 2),
)

-- `|` of a multiple of `2 ^ k` with `k` low bits is their sum.
pub bit_or_high : (k q r : ℕ) → r < 2 ^ k → bit_or (q * 2 ^ k) r ≡ q * 2 ^ k + r
bit_or_high zero q zero h = omega (arith, bit_or-zero (q * 2 ^ 0))
bit_or_high zero q (suc r) h = absurd (omega arith)
bit_or_high (suc k) q r h =
    ground
      (arith, bit_or_digit (q * 2 ^ suc k) r, pow-suc 2 k, double, halves, bit_or_high k q (r / 2))
  where
    double : q * 2 ^ suc k ≡ 2 * (q * 2 ^ k)
    double = omega (arith, ap (λ (t : ℕ). q * t) (pow-suc 2 k))

    halves : q * 2 ^ suc k / 2 ≡ q * 2 ^ k
    halves = omega (arith, double)
