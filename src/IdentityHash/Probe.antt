-- ===== src/IdentityHash/Probe.antt =====
-- The probe loop of a lookup finds the slot of a key, and stops at the first sign that it is absent.
use retrace_cpython.Base.{
  ℕ, zero, suc, ◌≡◌, ◌≢◌, sym, ap, ◌∙◌, arith, ◌+◌, ◌<◌, ◌≤◌, ltb, ◌==◌, none, some, get_or,
  bit_and, done, ℕ_discrete,
}
use retrace_cpython.Words.Arith.{add64}
use retrace_cpython.IdentityHash.Entry.{entry_key, entry_matches}
use retrace_cpython.IdentityHash.Entry.Laws.{IsPointer, entry_matches-eq, entry_key-zero}
use retrace_cpython.IdentityHash.Table.{Table, capacity}
use retrace_cpython.IdentityHash.Operations.{ends_probe, probe_loop, probe}
use retrace_cpython.IdentityHash.Ring.{next, dist, mask-next, home_index-lt, capacity-le}
use retrace_cpython.IdentityHash.Ring.Steps.{dist_injective}
use retrace_cpython.IdentityHash.Ring.Walk.{At, further, start}
use retrace_cpython.IdentityHash.Robin.{far, reach_key}
use retrace_cpython.IdentityHash.Scan.{empty_slot}
use retrace_cpython.IdentityHash.Invariant.{key_at, size, home, IsTable, ends_probe-eq}

-- One visit to a slot, in terms of the key there and its probe length.
module _ {t : Table} (ok : IsTable t) {q : ℕ} (pointer : IsPointer q) where
  abbrev pub distance : ℕ → ℕ
  distance i = far (size t) (home t.mask) (key_at t) i

  pub visit_empty : (i : ℕ) → i < size t → key_at t i ≡ 0 → get_or t.keys i 0 ≡ 0
  visit_empty i ri e = (ok.coded i ri).empty e

  pub visit_taken : (i : ℕ) → key_at t i ≢ 0 → get_or t.keys i 0 ≢ 0
  visit_taken i taken e = taken (ap entry_key e ∙ entry_key-zero)

  pub visit_matches : (i : ℕ) → i < size t → entry_matches (get_or t.keys i 0) q ≡ (key_at t i == q)
  visit_matches i ri = entry_matches-eq ((ok.coded i ri).word) pointer

  pub visit_ends :
      (i p : ℕ)
      → i < size t
      → key_at t i ≢ 0
      → ends_probe (get_or t.keys i 0) i t.mask p ≡ ltb (distance i) p
  visit_ends i p ri taken = ends_probe-eq ok.cap ri p (ok.coded i ri) taken

  module _ (nonzero : q ≢ 0) {z : ℕ} (rz : z < size t) (gap : key_at t z ≡ 0) where
    abbrev pub h : ℕ
    h = home t.mask q

    pub rh : h < size t
    rh = home_index-lt ok.cap q

    pub onward :
        {fuel index psl : ℕ}
        → At (size t) h z (suc fuel) index psl
        → (bit_and (add64 index 1) t.mask ≡ next (size t) index) × (add64 psl 1 ≡ psl + 1)
    onward {fuel} {index} {psl} at =
        (mask-next ok.cap index at.inside, omega (arith, at.ahead, capacity-le ok.cap))

    pub taken-ne : (i : ℕ) → key_at t i ≢ 0 → i ≢ z
    taken-ne i taken e = taken (ap (key_at t) e ∙ gap)

    -- The loop has not gone past the slot of the key.
    pub record Before (index psl i : ℕ) : Type 0 where
      pub there : i < size t
      pub found : key_at t i ≡ q
      pub short : psl ≤ dist (size t) h i

    pub passes :
        {fuel index psl i : ℕ}
        → At (size t) h z fuel index psl
        → Before index psl i
        → (key_at t index ≢ 0) × (psl ≤ distance index)
    passes {index} {psl} {i} at b =
        let p : dist (size t) h index ≤ dist (size t) h i = omega (arith, at.walked, b.short) in
        let (held, near) =
          reach_key (size t) (home t.mask) (home_index-lt ok.cap) ok.robin q b.there at.inside
            b.found nonzero p in
        (held, omega (arith, near, at.walked))

    pub arrives :
        {fuel index psl i : ℕ}
        → At (size t) h z fuel index psl
        → Before index psl i
        → key_at t index ≡ q
        → index ≡ i
    arrives {index} {i = i} at b f =
        ok.robin.unique index i at.inside b.there (λ z. nonzero (sym f ∙ z)) (f ∙ sym b.found)

    pub approaches :
        {fuel index psl i : ℕ}
        → At (size t) h z fuel index psl
        → Before index psl i
        → ¬ (key_at t index ≡ q)
        → Before (next (size t) index) (psl + 1) i
    approaches {index} {psl} {i} at b f = record {
      there = b.there;
      found = b.found;
      short = beyond;
    }
      where
        apart : index ≢ i
        apart same = f (ap (key_at t) same ∙ b.found)

        level : dist (size t) h index ≢ dist (size t) h i
        level same = apart (dist_injective at.inside rh i b.there same)

        beyond : psl + 1 ≤ dist (size t) h i
        beyond = omega (arith, level, at.walked, b.short)

    probe_present :
        (fuel index psl i : ℕ)
        → At (size t) h z fuel index psl
        → Before index psl i
        → probe_loop fuel t q index psl ≡ done (some i)
    unfolding probe_loop
    probe_present zero index psl i at b = absurd (omega (arith, at.enough))
    probe_present (suc fuel) index psl i at b =
        let seen = passes at b in
        let on = onward at in
        elim (ℕ_discrete (key_at t index) q) [
          | yes f ↦
              ground
                (arith, visit_taken index seen.0, visit_matches index at.inside, arrives at b f)
          | no f ↦
              rw (on.0, on.1)
                (ground (
                  arith,
                  visit_taken index seen.0,
                  visit_matches index at.inside,
                  visit_ends index psl at.inside seen.0,
                  seen.1,
                  probe_present fuel (next (size t) index) (psl + 1) i
                      (further rh rz at (taken-ne index seen.0)) (approaches at b f),
                ))
        ]

    probe_absent :
        (fuel index psl : ℕ)
        → At (size t) h z fuel index psl
        → ((i : ℕ) → i < size t → key_at t i ≢ q)
        → probe_loop fuel t q index psl ≡ done none
    unfolding probe_loop
    probe_absent zero index psl at missing = absurd (omega (arith, at.enough))
    probe_absent (suc fuel) index psl at missing =
        let (stay, more) = onward at in
        elim (ℕ_discrete (key_at t index) 0) [
          | yes e ↦ ground (arith, visit_empty index at.inside e)
          | no held ↦
              rw (stay, more)
                (ground (
                  arith,
                  visit_matches index at.inside,
                  missing index at.inside,
                  probe_absent fuel (next (size t) index) (psl + 1)
                      (further rh rz at (taken-ne index held)) missing,
                ))
        ]

-- In a table with an empty slot the probe loop ends, and finds exactly the slot of the key.
module _ {t : Table} (ok : IsTable t) (room : t.used < size t) {q : ℕ} (pointer : IsPointer q)
    (nonzero : q ≢ 0) where
  pub capacity-size : capacity t ≡ size t
  unfolding capacity
  capacity-size = omega (arith, capacity-le ok.cap)

  pub gap : (z : ℕ) × (z < size t) × (key_at t z ≡ 0)
  gap = empty_slot (size t) (key_at t) (omega (arith, ok.counted))

  pub probe-found : (i : ℕ) → i < size t → key_at t i ≡ q → probe t q ≡ done (some i)
  unfolding probe
  probe-found i ri e = rw capacity-size (
      probe_present ok pointer nonzero gap.1 gap.2 _ _ _ i (start (home_index-lt ok.cap q) gap.1)
        (record { there = ri; found = e; short = omega arith }))

  pub probe-missing : ((i : ℕ) → i < size t → key_at t i ≢ q) → probe t q ≡ done none
  unfolding probe
  probe-missing missing = rw capacity-size (
      probe_absent ok pointer nonzero gap.1 gap.2 _ _ _ (start (home_index-lt ok.cap q) gap.1)
        missing)
