-- ===== src/IdentityHash/Robin/Shift.antt =====
-- Taking an entry out: the invariant with a hole, and the shift that moves the hole on.
use retrace_cpython.Base.{ℕ, ◌≡◌, ◌≢◌, sym, ◌∙◌, ap, arith, ◌+◌, ◌<◌, ◌≤◌, ℕ_discrete, ◌⊎◌}
use retrace_cpython.IdentityHash.Ring.{next, prev, dist}
use retrace_cpython.IdentityHash.Ring.Steps.{
  next-lt, prev-lt, prev-next, next-prev, next-ne, next-next-ne, dist-prev,
}
use retrace_cpython.IdentityHash.Scan.{update}
use retrace_cpython.IdentityHash.Robin.{far, NearAt, Robin}

module _ (n : ℕ) (home : ℕ → ℕ) where
  -- The slot after the hole may be too far from its home by one.
  pub record Hole (keys : ℕ → ℕ) (hole : ℕ) : Type 0 where
    pub empty : keys hole ≡ 0
    pub near : (i : ℕ) → i < n → i ≢ next n hole → NearAt n home keys i
    pub unique : (i j : ℕ) → i < n → j < n → keys i ≢ 0 → keys i ≡ keys j → i ≡ j
    pub bridge :
        keys (next n hole) ≢ 0
        → 1 < far n home keys (next n hole)
        → (keys (prev n hole) ≢ 0)
          × (far n home keys (next n hole) ≤ far n home keys (prev n hole) + 2)

module _ {n : ℕ} (home : ℕ → ℕ) (home-lt : (k : ℕ) → home k < n) (big : 2 < n) where
  not_before : {i j : ℕ} → i < n → i ≢ next n j → j ≢ prev n i
  not_before {i} {j} ri p e = p (sym (ap (next n) e ∙ next-prev ri))

  pub open_hole :
      {keys : ℕ → ℕ} {hole : ℕ}
      → Robin n home keys
      → hole < n
      → Hole n home (update keys hole 0) hole
  open_hole {keys} {hole} robin rh = record {
    empty = ground arith;
    near = λ i ri p taken pos. ground (arith, robin.near i ri, not_before ri p);
    unique = λ a b ra rb taken same. ground (arith, robin.unique a b ra rb);
    bridge = λ taken pos. ground (
      arith,
      robin.near hole rh,
      robin.near (next n hole) (next-lt rh),
      prev-next rh,
      next-ne rh (omega arith),
      next-ne (prev-lt rh) (omega arith),
      next-prev rh,
    );
  }

  pub close_hole :
      {keys : ℕ → ℕ} {hole : ℕ}
      → Hole n home keys hole
      → (keys (next n hole) ≡ 0) ⊎ (far n home keys (next n hole) ≡ 0)
      → Robin n home keys
  close_hole {keys} {hole} h stop = record {
    near = λ i ri taken pos. elim (ℕ_discrete i (next n hole)) [
      | yes e ↦ ground arith
      | no e ↦ h.near i ri e taken pos
    ];
    unique = h.unique;
  }

  module _ {keys : ℕ → ℕ} {hole : ℕ} (rh : hole < n) (h : Hole n home keys hole) where
    abbrev scan : ℕ
    scan = next n hole

    abbrev pub shifted : ℕ → ℕ
    shifted = update (update keys hole (keys scan)) scan 0

    pub far-shifted :
        0 < far n home keys scan → dist n (home (keys scan)) hole + 1 ≡ far n home keys scan
    far-shifted pos = rw (prev-next rh) at (dist-prev (next-lt rh) (home-lt (keys scan)) pos)

    pub shift-Hole : keys scan ≢ 0 → 0 < far n home keys scan → Hole n home shifted scan
    shift-Hole taken pos = record {
      empty = ground arith;
      near = λ i ri p. elim (ℕ_discrete i hole) [
        | yes e ↦ λ held far_i. ground (
          arith,
          h.bridge taken,
          far-shifted pos,
          next-prev rh,
          next-ne rh (omega arith),
          next-ne (prev-lt rh) (omega arith),
          next-next-ne rh big,
        )
        | no e ↦ λ held far_i. ground (arith, h.near i ri, next-prev ri)
      ];
      unique = λ a b ra rb held same. ground (
        arith,
        h.empty,
        next-ne rh (omega arith),
        h.unique a b ra rb,
        h.unique scan b (next-lt rh) rb,
        h.unique a scan ra (next-lt rh),
      );
      bridge = λ held far_i. ground (
        arith,
        far-shifted pos,
        prev-next rh,
        prev-next (next-lt rh),
        next-ne rh (omega arith),
        next-ne (next-lt rh) (omega arith),
        next-next-ne rh big,
        h.near (next n scan) (next-lt (next-lt rh)),
      );
    }
