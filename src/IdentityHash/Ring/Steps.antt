-- ===== src/IdentityHash/Ring/Steps.antt =====
-- Walking round the ring.
use retrace_cpython.Base.{ℕ, ◌≡◌, ◌≢◌, arith, ◌+◌, ◌<◌}
use retrace_cpython.IdentityHash.Ring.{next, prev, dist}

module _ {n i : ℕ} (ri : i < n) where
  pub next-lt : next n i < n
  unfolding next prev dist
  next-lt = ground arith

  pub prev-lt : prev n i < n
  unfolding next prev dist
  prev-lt = ground arith

  pub prev-next : prev n (next n i) ≡ i
  unfolding next prev dist
  prev-next = ground arith

  pub next-prev : next n (prev n i) ≡ i
  unfolding next prev dist
  next-prev = ground arith

  pub next-ne : 1 < n → next n i ≢ i
  unfolding next prev dist
  next-ne h = ground arith

  pub next-next-ne : 2 < n → next n (next n i) ≢ i
  unfolding next prev dist
  next-next-ne h = ground arith

  module _ {h : ℕ} (rh : h < n) where
    pub dist-lt : dist n h i < n
    unfolding next prev dist
    dist-lt = ground arith

    pub dist-next : dist n h i + 1 < n → dist n h (next n i) ≡ dist n h i + 1
    unfolding next prev dist
    dist-next p = ground arith

    pub dist-prev : 0 < dist n h i → dist n h (prev n i) + 1 ≡ dist n h i
    unfolding next prev dist
    dist-prev p = ground arith

    pub dist_injective : (j : ℕ) → j < n → dist n h i ≡ dist n h j → i ≡ j
    unfolding next prev dist
    dist_injective j rj p = ground arith

    pub eq_of_dist-zero : dist n h i ≡ 0 → i ≡ h
    unfolding next prev dist
    eq_of_dist-zero p = ground arith

    pub next-dist : i ≢ h → dist n (next n i) h + 1 ≡ dist n i h
    unfolding next prev dist
    next-dist p = ground arith

pub dist_self : (n h : ℕ) → dist n h h ≡ 0
unfolding next prev dist
dist_self n h = ground arith
