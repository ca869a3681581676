-- ===== src/IdentityHash/Delete.antt =====
-- `_PyRetrace_DeleteIdentityHash`.
pub mod Gap
pub mod Move
pub mod Loop
use retrace_cpython.Base.{
  ℕ, suc, ◌≡◌, ◌≢◌, refl, sym, ap, ◌∙◌, arith, ◌+◌, ◌-◌, ◌<◌, ◌==◌, if◌then◌else◌, Option, none,
  some, Bool, true, false, bit_and, Run, done, ◌>>=◌, inl, inr, ℕ_discrete,
}
use retrace_cpython.Words.Arith.{add64, sub64}
use retrace_cpython.IdentityHash.Entry.Laws.{IsPointer}
use retrace_cpython.IdentityHash.Table.{Table, Slot, capacity}
use retrace_cpython.IdentityHash.Operations.{probe, shift_loop, delete_identity_hash}
use retrace_cpython.IdentityHash.Ring.{next, dist, mask-next, capacity-le}
use retrace_cpython.IdentityHash.Ring.Steps.{next-lt, dist-lt}
use retrace_cpython.IdentityHash.Scan.{
  update, scan, scan-present, scan-absent, slot_cases, occupied-update, occupied-le,
}
use retrace_cpython.IdentityHash.Invariant.{key_at, value_at, size, home, IsTable, view}
use retrace_cpython.IdentityHash.Lookup.{view_found, view_missing, view-unused}
use retrace_cpython.IdentityHash.Probe.{probe-found, probe-missing, capacity-size, gap}
use Gap.{Holed, open-Holed, holed_view, remaining}
use Loop.{Closed, shift-Closed}

-- Whether a reading found the key.
abbrev pub found : Option ℕ → Bool
found none = false
found (some v) = true

-- The table no longer maps `k`, and maps every other address as before.
pub record Deleted (t : Table) (k : ℕ) (t' : Table) : Type 0 where
  pub table : IsTable t'
  pub mask : t'.mask ≡ t.mask
  pub used : t'.used ≡ (if found (view t k) then t.used - 1 else t.used)
  pub reads : (q : ℕ) → q ≢ 0 → view t' q ≡ (if k == q then none else view t q)

module _ (t : Table) (k : ℕ) where
  run_absent : probe t k ≡ done none → delete_identity_hash (some t) k ≡ done (some t, false)
  unfolding delete_identity_hash
  run_absent p = ground arith

  run_present :
      {hole : ℕ} {t' : Table}
      → t.used ≢ 0
      → probe t k ≡ done (some hole)
      → shift_loop
          (suc (capacity t))
          (record t { used = sub64 t.used 1 })
          hole
          (bit_and (add64 hole 1) t.mask)
        ≡ done t'
      → delete_identity_hash (some t) k ≡ done (some t', true)
  unfolding delete_identity_hash
  run_present n p s = ground arith

module _ {t : Table} (ok : IsTable t) (room : t.used < size t) {k : ℕ} (pointer : IsPointer k)
    (nonzero : k ≢ 0) where
  unchanged : view t k ≡ none → Deleted t k t
  unchanged e = record {
    table = ok;
    mask = refl;
    used = ground arith;
    reads = λ q nz. elim (ℕ_discrete k q) [ yes f ↦ rw (← f) (ground arith) | no f ↦ ground arith ];
  }

  module _ {i : ℕ} (ri : i < size t) (e : key_at t i ≡ k) where
    abbrev lowered : Table
    lowered = record t { used = t.used - 1 }

    held : key_at t i ≢ 0
    held z = nonzero (sym e ∙ z)

    counts : t.used - 1 + 1 ≡ t.used
    counts = ground (arith, ok.counted, occupied-update (size t) (key_at t) i 0 ri, held)

    opened : Holed lowered i
    opened = open-Holed ok ri held counts

    opened_reads : (q : ℕ) → q ≢ 0 → holed_view lowered i q ≡ (if k == q then none else view t q)
    unfolding holed_view
    opened_reads q nz = elim (slot_cases (remaining t i) (value_at t) q (size t)) [
      | inl (j, rj, f) ↦
          scan-present (remaining t i) (value_at t) q (size t) j rj f
            (λ a ra g. opened.gap.unique a j ra rj (λ z. nz (sym g ∙ z)) (g ∙ sym f))
          ∙ ground (arith, view_found ok nz j rj, ok.robin.unique i j ri rj held, nz)
      | inr missing ↦
          scan-absent (remaining t i) (value_at t) q (size t) missing ∙ sym (elsewhere missing)
    ]
      where
        elsewhere :
            ((j : ℕ) → j < size t → remaining t i j ≢ q)
            → (if k == q then none else view t q) ≡ none
        elsewhere missing = elim (ℕ_discrete k q) [
          | yes f ↦ ground arith
          | no f ↦ ground (arith, view_missing ok nz (λ j rj g. missing j rj (ground arith)))
        ]

    one_less : sub64 t.used 1 ≡ t.used - 1
    one_less =
        omega (arith, counts, ok.counted, occupied-le (size t) (key_at t), capacity-le ok.cap)

    another : (z : ℕ) × (z < size t) × (key_at t z ≡ 0)
    another = gap ok room pointer nonzero

    delete_present :
        (t' : Table) × (delete_identity_hash (some t) k ≡ done (some t', true)) × Deleted t k t'
    delete_present =
        let (t', run, c) =
          shift-Closed (suc (size t)) opened (another.1) (another.2)
            (λ f. held (ap (key_at t) (sym f) ∙ another.2))
            (omega (arith, dist-lt (another.1) (next-lt {i = i} ri))) in
        (
          t',
          run_present t k (omega (arith, counts)) (probe-found ok room pointer nonzero i ri e)
              (rw (capacity-size ok room pointer nonzero, one_less, mask-next ok.cap i ri) run),
          record {
            table = c.table;
            mask = c.mask;
            used = c.used ∙ ground (arith, view_found ok nonzero i ri e);
            reads = λ q nz. c.reads q nz ∙ opened_reads q nz;
          },
        )

  -- In a well-formed table with an empty slot a deletion ends, keeps the table well formed, forgets
  -- the address and no other, and reports whether it was there.
  pub delete-Deleted :
      (t' : Table) × (delete_identity_hash (some t) k ≡ done (some t', found (view t k)))
      × Deleted t k t'
  delete-Deleted = elim (slot_cases (key_at t) (value_at t) k (size t)) [
    | inl (i, ri, e) ↦
        let (t', run, d) = delete_present ri e in
        (t', run ∙ ground (arith, view_found ok nonzero i ri e), d)
    | inr missing ↦ (
      t,
      run_absent t k (probe-missing ok room pointer nonzero missing)
          ∙ ground (arith, view_missing ok nonzero missing),
      unchanged (view_missing ok nonzero missing),
    )
  ]
