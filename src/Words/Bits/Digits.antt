-- ===== src/Words/Bits/Digits.antt =====
-- The lowest digit of a bitwise operation, with the fuel of its definition dropped.
use Prim.Native.Nat.{max, digits, bitwise, differ, bit_and-bitwise, bit_or-bitwise, bit_xor-bitwise}
use native.Mathlib.Nat.{le_refl}
use retrace_cpython.Base.{
  ℕ, zero, suc, ◌≡◌, refl, arith, ◌+◌, ◌*◌, ◌/◌, ◌%◌, ◌≤◌, ◌<◌, min, bit_and, bit_or, bit_xor,
}

module _ (end : ℕ → ℕ) (op : ℕ → ℕ → ℕ) where
  same_digits : (f g a b : ℕ) → a ≤ f → a ≤ g → digits end op f a b ≡ digits end op g a b
  same_digits zero zero a b p q = refl
  same_digits (suc f) zero zero b p q = refl
  same_digits (suc f) zero (suc a) b p q = absurd (omega arith)
  same_digits zero (suc g) zero b p q = refl
  same_digits zero (suc g) (suc a) b p q = absurd (omega arith)
  same_digits (suc f) (suc g) zero b p q = refl
  same_digits (suc f) (suc g) (suc a) b p q =
      rw (same_digits f g (suc a / 2) (b / 2) (omega arith) (omega arith))

  bitwise_digit :
      (a b : ℕ)
      → bitwise end op (suc a) b ≡ bitwise end op (suc a / 2) (b / 2) * 2 + op (suc a % 2) (b % 2)
  bitwise_digit a b =
      omega (arith, same_digits a (suc a / 2) (suc a / 2) (b / 2) (omega arith) (le_refl _))

pub bit_and_digit : (a b : ℕ) → bit_and a b ≡ bit_and (a / 2) (b / 2) * 2 + min (a % 2) (b % 2)
bit_and_digit zero b = simp bit_and-bitwise (omega arith)
bit_and_digit (suc a) b = simp bit_and-bitwise (bitwise_digit (λ y. 0) min a b)

pub bit_or_digit : (a b : ℕ) → bit_or a b ≡ bit_or (a / 2) (b / 2) * 2 + max (a % 2) (b % 2)
bit_or_digit zero b = simp bit_or-bitwise (omega arith)
bit_or_digit (suc a) b = simp bit_or-bitwise (bitwise_digit (λ y. y) max a b)

differ_lem : (a b : ℕ) → a < 2 → b < 2 → differ a b ≡ (a + b) % 2
differ_lem zero zero h k = refl
differ_lem zero (suc zero) h k = refl
differ_lem (suc zero) zero h k = refl
differ_lem (suc zero) (suc zero) h k = refl
differ_lem zero (suc (suc b)) h k = absurd (omega arith)
differ_lem (suc zero) (suc (suc b)) h k = absurd (omega arith)
differ_lem (suc (suc a)) b h k = absurd (omega arith)

pub zero-bit_xor : (b : ℕ) → bit_xor 0 b ≡ b
zero-bit_xor b = bit_xor-bitwise 0 b

pub bit_xor_digit : (a b : ℕ) → bit_xor a b ≡ bit_xor (a / 2) (b / 2) * 2 + (a + b) % 2
bit_xor_digit zero b = simp bit_xor-bitwise (omega arith)
bit_xor_digit (suc a) b = simp bit_xor-bitwise (
    omega (
      arith,
      bitwise_digit (λ y. y) differ a b,
      differ_lem (suc a % 2) (b % 2) (omega arith) (omega arith),
    ))
