-- ===== src/IdentityHash/Grow/Copy.antt =====
-- Growth copies every entry of the old table into the new one.
use retrace_cpython.Base.{
  ℕ, zero, suc, ◌≡◌, ◌≢◌, refl, sym, ap, ◌∙◌, subst, arith, ◌+◌, ◌*◌, ◌<◌, ◌≤◌, none, get_or, done,
  ℕ_discrete,
}
use retrace_cpython.IdentityHash.Entry.{entry_key}
use retrace_cpython.IdentityHash.Entry.Laws.{entry_key-IsPointer, entry_key-zero}
use retrace_cpython.IdentityHash.Table.{Table}
use retrace_cpython.IdentityHash.Insert.{insert_known_room}
use retrace_cpython.IdentityHash.Insert.Room.{insert-Stored}
use retrace_cpython.IdentityHash.Operations.{reinsert}
use retrace_cpython.IdentityHash.Scan.{scan, scan-absent, occupied, occupied-le}
use retrace_cpython.IdentityHash.Invariant.{key_at, value_at, size, IsTable, view}

-- The new table is twice as large or more, and holds what the first `i` slots of the old one hold.
pub record Copied (old : Table) (i : ℕ) (new : Table) : Type 0 where
  pub table : IsTable new
  pub room : 2 * size old ≤ size new
  pub used : new.used ≡ occupied i (key_at old)
  pub reads : (q : ℕ) → q ≢ 0 → view new q ≡ scan i (key_at old) (value_at old) q

module _ {old : Table} (ok : IsTable old) where
  entry-zero : (i : ℕ) → i < size old → key_at old i ≡ 0 → get_or old.keys i 0 ≡ 0
  entry-zero i ri e = (ok.coded i ri).empty e

  entry-ne : (i : ℕ) → key_at old i ≢ 0 → get_or old.keys i 0 ≢ 0
  entry-ne i held e = held (ap entry_key e ∙ entry_key-zero)

  skip : {i : ℕ} {new : Table} → key_at old i ≡ 0 → Copied old i new → Copied old (suc i) new
  unfolding scan occupied
  skip {i} e c = record {
    table = c.table;
    room = c.room;
    used = ground (arith, c.used);
    reads = λ q nz. ground (arith, c.reads q nz);
  }

  copy :
      {i : ℕ} {new : Table}
      → i < size old
      → key_at old i ≢ 0
      → Copied old i new
      → (t : Table) × (insert_known_room new (key_at old i) (value_at old i) ≡ done t)
        × Copied old (suc i) t
  unfolding scan occupied
  copy {i} {new} ri held c =
      let (t, run, s) =
        insert-Stored c.table (entry_key-IsPointer ((ok.coded i ri).word)) held (value_at old i)
          (omega (arith, c.used, c.room, occupied-le i (key_at old))) in
      (
        t,
        run,
        record {
          table = s.table;
          room = omega (arith, c.room, s.mask);
          used = ground (arith, s.used, c.used, c.reads (key_at old i) held, absent);
          reads = λ q nz. ground (arith, s.reads q nz, c.reads q nz);
        },
      )
    where
      absent : scan i (key_at old) (value_at old) (key_at old i) ≡ none
      absent =
          scan-absent (key_at old) (value_at old) (key_at old i) i
            λ j p same. ground (arith, ok.robin.unique i j ri (omega arith) held (sym same))

  pub reinsert-Copied :
      (n i : ℕ) {new : Table}
      → i + n ≡ size old
      → Copied old i new
      → (t : Table) × (reinsert n i old new ≡ done t) × Copied old (size old) t
  unfolding reinsert
  reinsert-Copied zero i {new} e c = (new, refl, subst (λ k. Copied old k new) (omega (arith, e)) c)
  reinsert-Copied (suc n) i {new} e c =
      let next : i + 1 ≡ suc i = omega arith in
      elim (ℕ_discrete (key_at old i) 0) [
        | yes empty ↦
            let (t, run, d) = reinsert-Copied n (suc i) (omega (arith, e)) (skip empty c) in
            (t, rw (next, entry-zero i (omega (arith, e)) empty) run, d)
        | no held ↦
            let (u, put, c') = copy {i = i} (omega (arith, e)) held c in
            let (t, run, d) = reinsert-Copied n (suc i) (omega (arith, e)) c' in
            (t, rw next (ground (arith, entry-ne i held, put, run)), d)
      ]
