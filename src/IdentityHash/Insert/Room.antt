-- ===== src/IdentityHash/Insert/Room.antt =====
-- `_PyRetrace_IdentityHashTableInsertKnownRoom`, whether or not the table holds the key.
use retrace_cpython.Base.{
  ℕ, zero, suc, ◌≡◌, ◌≢◌, refl, sym, ap, ◌∙◌, arith, ◌+◌, ◌<◌, ◌==◌, if◌then◌else◌, ltb, Option,
  none, some, get_or, set, length-set, get_or-set, true, false, done, inl, inr, ℕ_discrete,
}
use retrace_cpython.IdentityHash.Entry.{entry_matches}
use retrace_cpython.IdentityHash.Entry.Laws.{IsPointer}
use retrace_cpython.IdentityHash.Table.{Table}
use retrace_cpython.IdentityHash.Insert.{Carry, insert_loop, insert_known_room, full_psl}
use retrace_cpython.IdentityHash.Insert.Visit.{loop_match, loop_on, displace_stay}
use retrace_cpython.IdentityHash.Insert.Loop.{Carrying, insert_fresh}
use retrace_cpython.IdentityHash.Ring.{next, home_index-lt}
use retrace_cpython.IdentityHash.Ring.Steps.{dist_self}
use retrace_cpython.IdentityHash.Ring.Walk.{At, further, start}
use retrace_cpython.IdentityHash.Scan.{slot_cases}
use retrace_cpython.IdentityHash.Invariant.{
  key_at, value_at, size, home, IsTable, view, full_psl-dist,
}
use retrace_cpython.IdentityHash.Lookup.{view_found, view_missing}
use retrace_cpython.IdentityHash.Probe.{
  visit_taken, visit_matches, Before, onward, taken-ne, passes, arrives, approaches, capacity-size,
  gap,
}

abbrev pub overwritten : Table → ℕ → ℕ → Table
overwritten t i v = record t { values = set t.values i v }

-- How many keys a write of a key with this reading adds.
abbrev pub added : Option ℕ → ℕ
added none = 1
added (some v) = 0

-- The table maps `k` to `v` and every other address as before; a new key is counted.
pub record Stored (t : Table) (k v : ℕ) (t' : Table) : Type 0 where
  pub table : IsTable t'
  pub mask : t'.mask ≡ t.mask
  pub used : t'.used ≡ t.used + added (view t k)
  pub reads : (q : ℕ) → q ≢ 0 → view t' q ≡ (if k == q then some v else view t q)

module _ {t : Table} (ok : IsTable t) {k : ℕ} (pointer : IsPointer k) (nonzero : k ≢ 0)
    (v : ℕ) where
  module _ {i : ℕ} (ri : i < size t) (e : key_at t i ≡ k) where
    overwritten-IsTable : IsTable (overwritten t i v)
    overwritten-IsTable = record {
      cap = ok.cap;
      keys_length = ok.keys_length;
      values_length = length-set t.values i v ∙ ok.values_length;
      coded = ok.coded;
      robin = ok.robin;
      counted = ok.counted;
      threshold = ok.threshold;
    }

    overwritten_reads :
        (q : ℕ) → q ≢ 0 → view (overwritten t i v) q ≡ (if k == q then some v else view t q)
    overwritten_reads q nz = elim (slot_cases (key_at t) (value_at t) q (size t)) [
      | inl (j, rj, f) ↦
          view_found overwritten-IsTable nz j rj f
          ∙ ground (
            arith,
            get_or-set t.values i j v 0 (rw ok.values_length ri),
            view_found ok nz j rj f,
            ok.robin.unique i j ri rj (λ z. nonzero (sym e ∙ z)),
          )
      | inr missing ↦
          view_missing overwritten-IsTable nz missing
          ∙ ground (arith, view_missing ok nz missing, missing i ri)
    ]

    overwritten-Stored : Stored t k v (overwritten t i v)
    overwritten-Stored = record {
      table = overwritten-IsTable;
      mask = refl;
      used = rw (view_found ok nonzero i ri e) (omega arith);
      reads = overwritten_reads;
    }

  module _ {z : ℕ} (rz : z < size t) (hollow : key_at t z ≡ 0) where
    abbrev carry : ℕ → Carry
    carry psl = record { table = t; key = k; value = v; psl = psl }

    insert_present :
        (fuel index psl i : ℕ)
        → At (size t) (home t.mask k) z fuel index psl
        → Before ok pointer nonzero rz hollow index psl i
        → insert_loop fuel (carry psl) index ≡ done (overwritten t i v)
    insert_present zero index psl i at b = absurd (omega (arith, at.enough))
    insert_present (suc fuel) index psl i at b =
        let seen = passes ok pointer nonzero rz hollow at b in
        let taken = visit_taken ok pointer index seen.0 in
        elim (ℕ_discrete (key_at t index) k) [
          | yes f ↦
              let hit : entry_matches (get_or t.keys index 0) k ≡ true =
                ground (arith, visit_matches ok pointer index at.inside) in
              let same = arrives ok pointer nonzero rz hollow at b f in
              loop_match fuel (carry psl) index taken hit ∙ ap (λ j. done (overwritten t j v)) same
          | no f ↦
              let miss : entry_matches (get_or t.keys index 0) k ≡ false =
                ground (arith, visit_matches ok pointer index at.inside) in
              let far_enough : ltb (full_psl (get_or t.keys index 0) index t.mask) psl ≡ false =
                rw (full_psl-dist ok.cap at.inside (ok.coded index at.inside) seen.0)
                  (ground (arith, seen.1)) in
              let on = onward ok pointer nonzero rz hollow at in
              loop_on fuel (carry psl) index taken miss
              ∙ rw (displace_stay fuel (carry psl) index far_enough, on.1, on.0)
                  (insert_present fuel (next (size t) index) (psl + 1) i
                    (further (home_index-lt ok.cap k) rz at
                      (taken-ne ok pointer nonzero rz hollow index seen.0))
                    (approaches ok pointer nonzero rz hollow at b f))
        ]

  module _ (room : t.used < size t) where
    hollow : (z : ℕ) × (z < size t) × (key_at t z ≡ 0)
    hollow = gap ok room pointer nonzero

    begins : At (size t) (home t.mask k) (hollow.0) (suc (size t)) (home t.mask k) 0
    begins = start (home_index-lt ok.cap k) hollow.1

    fresh-Carrying :
        ((j : ℕ) → j < size t → key_at t j ≢ k)
        → Carrying
            (hollow.0)
            (suc (size t))
            (record { table = t; key = k; value = v; psl = 0 })
            (home t.mask k)
    fresh-Carrying missing = record {
      ok = ok;
      inside = hollow.1;
      gap = hollow.2;
      pointer = pointer;
      nonzero = nonzero;
      fresh = missing;
      at = begins;
      ready = λ pos. absurd (omega (arith, dist_self (size t) (home t.mask k)));
    }

    -- In a well-formed table with an empty slot, the insertion of an address that is not 0 ends
    -- with a well-formed table of the same mask, which maps the key to the value and every other
    -- address as before; the count grows by one if the key is new.
    pub insert-Stored : (t' : Table) × (insert_known_room t k v ≡ done t') × Stored t k v t'
    unfolding insert_known_room
    insert-Stored = elim (slot_cases (key_at t) (value_at t) k (size t)) [
      | inl (i, ri, e) ↦ (
        overwritten t i v,
        rw (capacity-size ok room pointer nonzero) (
            insert_present (hollow.1) (hollow.2) (suc (size t)) (home t.mask k) 0 i begins
              (record { there = ri; found = e; short = omega arith })),
        overwritten-Stored ri e,
      )
      | inr missing ↦
          let (t', run, i) = insert_fresh (suc (size t)) (fresh-Carrying missing) in
          (
            t',
            rw (capacity-size ok room pointer nonzero) run,
            record {
              table = i.table;
              mask = i.mask;
              used = rw (view_missing ok nonzero missing) i.used;
              reads = i.reads;
            },
          )
    ]
