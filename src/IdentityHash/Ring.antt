-- ===== src/IdentityHash/Ring.antt =====
-- The slots as a ring of `n` places: the next place, the one before, and how far one place is
-- ahead of another. The masks and the wrapping subtraction of the code compute these.
pub mod Steps
pub mod Walk
use native.Mathlib.Nat.{
  mod-eq_of_lt, mod_self, add-mul-mod_self_left, pow-suc, mul_assoc, mod-lt, one-le-pow,
  pow-le-pow_right, add-zero, add-suc,
}
use retrace_cpython.Base.{
  ℕ, zero, suc, ◌≡◌, ◌≢◌, refl, ap, sym, ◌∙◌, arith, ◌+◌, ◌-◌, ◌*◌, ◌%◌, ◌^◌, ◌<◌, ◌≤◌, bit_and,
  leb, ltb, ◌==◌, if◌then◌else◌, dec_lt,
}
use retrace_cpython.Words.Arith.{add64, sub64}
use retrace_cpython.Words.Bits.{bit_and_low}
use retrace_cpython.IdentityHash.Entry.{home_index, exact_psl}

pub next : ℕ → ℕ → ℕ
next n i = if i + 1 == n then 0 else i + 1

pub prev : ℕ → ℕ → ℕ
prev n i = if i == 0 then n - 1 else i - 1

-- How many steps lead from `h` to `i`.
pub dist : ℕ → ℕ → ℕ → ℕ
dist n h i = if leb h i then i - h else i + n - h

two-pow-add : (b d : ℕ) → 2 ^ (b + d) ≡ 2 ^ b * 2 ^ d
two-pow-add b zero = rw (add-zero) (omega arith)
two-pow-add b (suc d) = ground (
  arith,
  pow-suc 2 d,
  pow-suc 2 (b + d),
  two-pow-add b d,
  add-suc b d,
  mul_assoc (2 ^ b) (2 ^ d) 2,
)

mul_pred : (n m : ℕ) → 0 < m → n * (m - 1) + n ≡ n * m
mul_pred n zero h = absurd (omega arith)
mul_pred n (suc m) h = let e : suc m - 1 ≡ m = omega arith in rw e (omega arith)

-- The sizes of a table: powers of two, such that `n` words of 8 bytes fit the address space.
pub record IsCapacity (n : ℕ) : Type 0 where
  pub order : ℕ
  pub power : n ≡ 2 ^ order
  pub low : 4 ≤ order
  pub high : order ≤ 60

module _ {mask : ℕ} (cap : IsCapacity (suc mask)) where
  pub capacity-ge : 16 ≤ suc mask
  capacity-ge = rw cap.power (pow-le-pow_right (omega arith) {i = 4} cap.low)

  pub capacity-le : suc mask ≤ 2 ^ 60
  capacity-le = rw cap.power (pow-le-pow_right (omega arith) {j = 60} cap.high)

  pub mask-mod : (a : ℕ) → bit_and a mask ≡ a % suc mask
  mask-mod a = rw (cap.power, ones) (bit_and_low cap.order a)
    where
      ones : mask ≡ 2 ^ cap.order - 1
      ones = omega (arith, cap.power)

  pub mask-next : (i : ℕ) → i < suc mask → bit_and (add64 i 1) mask ≡ next (suc mask) i
  unfolding next
  mask-next i h =
      mask-mod _
      ∙ ground (
        arith,
        capacity-ge,
        capacity-le,
        mod_self (suc mask),
        mod-eq_of_lt {n = i + 1} {m = suc mask},
      )

  divides : suc mask * 2 ^ (64 - cap.order) ≡ 2 ^ 64
  divides = rw cap.power (sym (two-pow-add cap.order (64 - cap.order)) ∙ ap (λ k. 2 ^ k) whole)
    where
      whole : cap.order + (64 - cap.order) ≡ 64
      whole = omega (arith, cap.high)

  sub_mod : (i h : ℕ) → i < suc mask → h < suc mask → sub64 i h % suc mask ≡ dist (suc mask) h i
  unfolding dist
  sub_mod i h p q = elim (dec_lt i h) [
    | no behind ↦ ground (arith, capacity-le, mod-eq_of_lt {n = i - h} {m = suc mask})
    | yes ahead ↦ ground (
      arith,
      capacity-le,
      mod-eq_of_lt {n = i + suc mask - h} {m = suc mask},
      add-mul-mod_self_left (i + suc mask - h) (suc mask) (2 ^ (64 - cap.order) - 1),
      shifted,
    )
  ]
    where
      shifted : suc mask * (2 ^ (64 - cap.order) - 1) + suc mask ≡ 2 ^ 64
      shifted = mul_pred (suc mask) _ (one-le-pow (64 - cap.order) 2 (omega arith)) ∙ divides

  pub home_index-lt : (key : ℕ) → home_index key mask < suc mask
  unfolding home_index
  home_index-lt key = rw mask-mod (mod-lt _ (omega arith))

  -- In a table whose number of slots is a power of two from 2 ^ 4 to 2 ^ 60, the wrapping
  -- subtraction and the mask compute how many steps lead from the home of the key to the slot on
  -- the ring.
  pub exact_psl-dist :
      (key i : ℕ) → i < suc mask → exact_psl key i mask ≡ dist (suc mask) (home_index key mask) i
  unfolding exact_psl
  exact_psl-dist key i p = mask-mod _ ∙ sub_mod i _ p (home_index-lt key)
