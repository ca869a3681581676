-- ===== src/IdentityHash/Grow.antt =====
-- `_PyRetrace_GrowIdentityHashTable` and the test for growth in `_PyRetrace_SetIdentityHash`.
pub mod Fresh
pub mod Copy
use retrace_cpython.Base.{
  ℕ, suc, ◌≡◌, ◌≢◌, refl, sym, ◌∙◌, ap, arith, ◌+◌, ◌*◌, ◌/◌, ◌<◌, ◌≤◌, ◌==◌, leb, ltb,
  if◌then◌else◌, Option, none, some, Bool, true, false, Run, done, ◌>>=◌, ◌⊎◌, inl, inr, Bool-cases,
}
use retrace_cpython.Words.Arith.{add64, mul64}
use retrace_cpython.IdentityHash.Table.{Table, Slot, Malloc, capacity, new_table}
use retrace_cpython.IdentityHash.Operations.{
  reinsert, wanted_capacity, grow_table, must_grow, with_room,
}
use retrace_cpython.IdentityHash.Ring.{capacity-ge, capacity-le}
use retrace_cpython.IdentityHash.Scan.{scan, occupied}
use retrace_cpython.IdentityHash.Invariant.{size, IsTable, view}
use retrace_cpython.IdentityHash.Lookup.{view-unused}
use retrace_cpython.IdentityHash.Sound.{IsRoomy, IsSound, slot_view, used-lt-size}
use Fresh.{Fresh as IsFresh, Refused, new_table_cases}
use Copy.{Copied, reinsert-Copied}

abbrev pub slot_used : Slot → ℕ
slot_used none = 0
slot_used (some t) = t.used

-- A table with room for one more key, that reads as the table before.
pub record Roomier (slot : Slot) (t : Table) : Type 0 where
  pub table : IsTable t
  pub room : t.used + 1 ≤ t.resize_at
  pub used : t.used ≡ slot_used slot
  pub reads : (q : ℕ) → q ≢ 0 → view t q ≡ slot_view slot q

first_table : {t : Table} → IsFresh 16 t → Roomier none t
first_table f = record {
  table = f.table;
  room = omega (arith, f.table.threshold, f.unused, f.large);
  used = f.unused;
  reads = λ q nz. view-unused f.table nz f.unused;
}

module _ {old : Table} (s : IsRoomy old) where
  size_fits : capacity old ≡ size old
  unfolding capacity
  size_fits = omega (arith, capacity-le s.table.cap)

  pub wanted_twice : wanted_capacity (some old) ≡ 2 * size old
  unfolding wanted_capacity
  wanted_twice = rw size_fits (omega (arith, capacity-le s.table.cap))

  -- The doubled capacity never wraps round.
  larger : leb (wanted_capacity (some old)) (capacity old) ≡ false
  larger = rw (wanted_twice, size_fits) (ground arith)

  grow_refused :
      (malloc : Malloc)
      → new_table malloc (wanted_capacity (some old)) ≡ done none
      → grow_table malloc (some old) ≡ done none
  unfolding grow_table
  grow_refused malloc run = rw (larger, run)

  copies : {new : Table} → IsFresh (wanted_capacity (some old)) new → Copied old 0 new
  unfolding scan occupied
  copies f = record {
    table = f.table;
    room = omega (arith, f.large, wanted_twice);
    used = f.unused;
    reads = λ q nz. view-unused f.table nz f.unused;
  }

  grow_done :
      (malloc : Malloc) {new : Table}
      → new_table malloc (wanted_capacity (some old)) ≡ done (some new)
      → IsFresh (wanted_capacity (some old)) new
      → (t : Table) × (grow_table malloc (some old) ≡ done (some t)) × Roomier (some old) t
  unfolding grow_table view
  grow_done malloc {new} made f =
      let (t, run, c) = reinsert-Copied s.table (size old) 0 (omega arith) (copies f) in
      (
        t,
        rw (larger, made, size_fits, run),
        record {
          table = c.table;
          room = omega (
            arith,
            c.room,
            c.used,
            c.table.threshold,
            s.table.counted,
            s.roomy,
            s.table.threshold,
            capacity-ge s.table.cap,
          );
          used = c.used ∙ sym s.table.counted;
          reads = c.reads;
        },
      )

-- On a sound slot the growth ends: it fails only if memory is refused or more than 2 ^ 60 slots
-- are wanted, and otherwise the new table is well formed, has room for one more key, counts as
-- many keys and maps every object as the slot did.
pub grow_cases :
    (malloc : Malloc) (slot : Slot)
    → IsSound slot
    → ((grow_table malloc slot ≡ done none) × Refused malloc (wanted_capacity slot))
      ⊎ ((t : Table) × (grow_table malloc slot ≡ done (some t)) × Roomier slot t)
unfolding grow_table wanted_capacity
grow_cases malloc none s = elim (new_table_cases malloc (wanted_capacity none)) [
  | inl (run, why) ↦ inl (run, why)
  | inr (t, run, fresh) ↦ inr (t, run, first_table fresh)
]
grow_cases malloc (some old) s = elim (new_table_cases malloc (wanted_capacity (some old))) [
  | inl (run, why) ↦ inl (grow_refused s malloc run, why)
  | inr (new, run, fresh) ↦ inr (grow_done s malloc run fresh)
]

-- A table with room for one more key serves as it is; else it grows.
pub with_room_cases :
    (malloc : Malloc) (slot : Slot)
    → IsSound slot
    → ((with_room malloc slot ≡ done none)
        × (must_grow slot ≡ true)
        × Refused malloc (wanted_capacity slot))
      ⊎ ((t : Table) × (with_room malloc slot ≡ done (some t)) × Roomier slot t)
unfolding with_room must_grow
with_room_cases malloc none s = elim (grow_cases malloc none s) [
  | inl (run, why) ↦ inl (run, refl, why)
  | inr (t, run, r) ↦ inr (t, run, r)
]
with_room_cases malloc (some old) s = elim (Bool-cases (must_grow (some old))) [
  | inl full ↦ elim (grow_cases malloc (some old) s) [
    | inl (run, why) ↦ inl (ground arith, full, why)
    | inr (t, run, r) ↦ inr (t, ground arith, r)
  ]
  | inr spare ↦ inr (
    old,
    ground arith,
    record { table = s.table; room = spare_room spare; used = refl; reads = λ q nz. refl },
  )
]
  where
    no_wrap : add64 old.used 1 ≡ old.used + 1
    no_wrap = omega (arith, used-lt-size s, capacity-le s.table.cap)

    spare_room : must_grow (some old) ≡ false → old.used + 1 ≤ old.resize_at
    spare_room spare = ground (arith, no_wrap)
