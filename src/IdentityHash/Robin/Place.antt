-- ===== src/IdentityHash/Robin/Place.antt =====
-- Writing a key into a slot that is empty, or whose entry is nearer to its home.
use retrace_cpython.Base.{ℕ, ◌≢◌, arith, ◌+◌, ◌<◌, ◌≤◌, ℕ_discrete}
use retrace_cpython.IdentityHash.Ring.{prev, dist}
use retrace_cpython.IdentityHash.Ring.Steps.{next-prev, next-ne}
use retrace_cpython.IdentityHash.Scan.{update}
use retrace_cpython.IdentityHash.Robin.{far, Robin}

-- What the slot before must hold for `k` to stand in slot `i`.
abbrev pub Ready : ℕ → (ℕ → ℕ) → (ℕ → ℕ) → ℕ → ℕ → Type 0
Ready n home keys k i =
    0 < dist n (home k) i
    → (keys (prev n i) ≢ 0) × (dist n (home k) i ≤ far n home keys (prev n i) + 1)

module _ {n : ℕ} (home : ℕ → ℕ) (big : 1 < n) {keys : ℕ → ℕ} (robin : Robin n home keys) where
  prev-ne : {i : ℕ} → i < n → prev n i ≢ i
  prev-ne {i} ri e = next-ne ri big (rw e at (next-prev ri))

  pub place-Robin :
      {i k : ℕ}
      → i < n
      → k ≢ 0
      → ((j : ℕ) → j < n → keys j ≢ k)
      → Ready n home keys k i
      → (keys i ≢ 0 → far n home keys i < dist n (home k) i)
      → Robin n home (update keys i k)
  place-Robin {i} {k} ri nonzero fresh ready richer = record {
    near = λ j rj. elim (ℕ_discrete i j) [
      | yes e ↦ λ taken pos. ground (arith, ready, prev-ne rj)
      | no e ↦ elim (ℕ_discrete i (prev n j)) [
        | yes f ↦ λ taken pos. ground (arith, robin.near j rj, richer)
        | no f ↦ λ taken pos. ground (arith, robin.near j rj)
      ]
    ];
    unique = λ a b ra rb taken same. ground (arith, robin.unique a b ra rb, fresh a ra, fresh b rb);
  }
