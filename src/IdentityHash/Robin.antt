-- ===== src/IdentityHash/Robin.antt =====
-- The Robin Hood invariant on the keys alone: `keys i` is the key in slot `i`, or 0 if the slot is
-- empty, and a key wants to stand at its home.
pub mod Place
pub mod Shift
use retrace_cpython.Base.{ℕ, zero, suc, ◌≡◌, ◌≢◌, refl, sym, ◌∙◌, arith, ◌+◌, ◌-◌, ◌<◌, ◌≤◌}
use retrace_cpython.IdentityHash.Ring.{next, prev, dist}
use retrace_cpython.IdentityHash.Ring.Steps.{
  next-lt, prev-lt, prev-next, next-prev, dist-lt, dist-next, dist-prev, dist_injective,
  eq_of_dist-zero,
}

module _ (n : ℕ) (home : ℕ → ℕ) where
  -- The probe length of the entry in slot `i`.
  abbrev pub far : (ℕ → ℕ) → ℕ → ℕ
  far keys i = dist n (home (keys i)) i

  -- The slot before an entry that is not at its home holds an entry that is at most one nearer.
  abbrev pub NearAt : (ℕ → ℕ) → ℕ → Type 0
  NearAt keys i =
      keys i ≢ 0 → 0 < far keys i → (keys (prev n i) ≢ 0) × (far keys i ≤ far keys (prev n i) + 1)

  pub record Robin (keys : ℕ → ℕ) : Type 0 where
    pub near : (i : ℕ) → i < n → NearAt keys i
    pub unique : (i j : ℕ) → i < n → j < n → keys i ≢ 0 → keys i ≡ keys j → i ≡ j

  module _ (home-lt : (k : ℕ) → home k < n) {keys : ℕ → ℕ} (robin : Robin keys) where
    -- Every slot from the home of an entry up to its own is taken, by entries that are no nearer
    -- to their homes.
    reach_by :
        (m : ℕ) {i j : ℕ}
        → i < n
        → j < n
        → keys i ≢ 0
        → dist n (home (keys i)) j + m ≡ far keys i
        → (keys j ≢ 0) × (dist n (home (keys i)) j ≤ far keys j)
    reach_by zero {i} {j} ri rj taken e =
        let same : j ≡ i = dist_injective rj (home-lt (keys i)) i ri (omega arith) in
        rw same (taken, omega arith)
    reach_by (suc m) {i} {j} ri rj taken e =
        let h = home (keys i) in
        let step = dist-next rj (home-lt (keys i)) (omega (arith, dist-lt ri (home-lt (keys i)))) in
        let (held, there) = reach_by m ri (next-lt rj) taken (omega (arith, step)) in
        let (before, nearer) = robin.near (next n j) (next-lt rj) held (omega arith) in
        let back = prev-next rj in
        (rw back at before, omega (arith, (rw back at nearer), step, there))

    pub reach :
        {i j : ℕ}
        → i < n
        → j < n
        → keys i ≢ 0
        → dist n (home (keys i)) j ≤ far keys i
        → (keys j ≢ 0) × (dist n (home (keys i)) j ≤ far keys j)
    reach {i} {j} ri rj taken p =
        reach_by (far keys i - dist n (home (keys i)) j) ri rj taken (omega arith)

    -- The same for a key that stands in slot `i`.
    pub reach_key :
        (q : ℕ) {i j : ℕ}
        → i < n
        → j < n
        → keys i ≡ q
        → q ≢ 0
        → dist n (home q) j ≤ dist n (home q) i
        → (keys j ≢ 0) × (dist n (home q) j ≤ far keys j)
    reach_key q ri rj e nonzero p =
        rw (← e) (reach ri rj (λ z. nonzero (sym e ∙ z)) (rw (← e) at p))
