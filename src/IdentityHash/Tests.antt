-- ===== src/IdentityHash/Tests.antt =====
-- Runs of the identity hash table, and the theorems on concrete tables.
use retrace_cpython.Base.{
  ℕ, zero, suc, ◌≡◌, ◌≢◌, refl, arith, ◌+◌, ◌*◌, ◌<◌, ◌≤◌, ltb, true, false, Option, none, some,
  List, [], ◌∷◌, Run, done, ◌>>=◌, ◌⊎◌, inl,
}
use retrace_cpython.IdentityHash.Entry.{
  entry_key, entry_psl, make_entry, home_index, exact_psl, entry_matches,
}
use retrace_cpython.IdentityHash.Entry.Laws.{entry_key-make_entry, entry_psl-make_entry}
use retrace_cpython.IdentityHash.Table.{Table, Slot, Malloc, new_table}
use retrace_cpython.IdentityHash.Insert.{insert_known_room}
use retrace_cpython.IdentityHash.Insert.Room.{Stored, added, insert-Stored}
use retrace_cpython.IdentityHash.Operations.{
  ends_probe, wanted_capacity, grow_table, must_grow, set_identity_hash, lookup_identity_hash,
  delete_identity_hash, probe, with_room, reinsert, shift_loop,
}
use retrace_cpython.IdentityHash.Ring.{dist, IsCapacity, exact_psl-dist}
use retrace_cpython.IdentityHash.Invariant.{IsTable, view, ends_probe-eq, make_entry-IsCoded}
use retrace_cpython.IdentityHash.Sound.{IsObject, IsRoomy, slot_view, lookup-slot_view}
use retrace_cpython.IdentityHash.Grow.{Roomier, grow_cases}
use retrace_cpython.IdentityHash.Grow.Fresh.{Fresh, Refused, blank, blank-IsTable, new_table_cases}
use retrace_cpython.IdentityHash.Delete.{found}
use retrace_cpython.IdentityHash.Map.{Maps, set_cases, delete-Maps}
use retrace_cpython.IdentityHash.History.{
  Call, Reply, store, remove, lookup, clear, Contents, Replays, Holds, perform_all,
  perform_all-Replays,
}

abbrev generous : Malloc
generous = record { table_ok = true; keys_ok = true; values_ok = true; contents = λ i. i }

object : (n : ℕ) → n < 100 → n ≢ 0 → IsObject (16 * n)
object n small nz = record {
  pointer = record { word = omega arith; aligned = omega arith };
  nonzero = omega arith;
}

sixteen : IsObject 16
sixteen = object 1 (omega arith) (omega arith)

-- `n` objects are stored.
fill : ℕ → Slot → Run Slot
fill zero s = done s
fill (suc n) s = set_identity_hash generous s (16 * suc n) (100 + n) >>= λ r. fill n r.0

fill_then_look : fill 12 none >>= (λ s. lookup_identity_hash s 160) ≡ done (some 109)
unfolding fill set_identity_hash with_room grow_table new_table reinsert insert_known_room
    lookup_identity_hash probe must_grow wanted_capacity home_index make_entry entry_key
    entry_matches
fill_then_look = refl

delete_then_look :
    (fill 12 none >>= λ s. delete_identity_hash s 160 >>= λ r. lookup_identity_hash (r.0) 160)
    ≡ done none
unfolding fill set_identity_hash with_room grow_table new_table reinsert insert_known_room
    lookup_identity_hash probe delete_identity_hash shift_loop must_grow wanted_capacity home_index
    make_entry entry_key entry_matches
delete_then_look = refl

delete_keeps_others :
    (fill 12 none >>= λ s. delete_identity_hash s 160 >>= λ r. lookup_identity_hash (r.0) 48)
    ≡ done (some 102)
unfolding fill set_identity_hash with_room grow_table new_table reinsert insert_known_room
    lookup_identity_hash probe delete_identity_hash shift_loop must_grow wanted_capacity home_index
    make_entry entry_key entry_matches
delete_keeps_others = refl

-- An empty table of sixteen slots.
abbrev small : Table
small = blank generous 16

small-IsTable : IsTable small
small-IsTable =
    blank-IsTable generous {order = 4} {capacity = 16} {wanted = 16}
      (record { power = refl; low = omega arith; high = omega arith; tight = inl refl })
      (omega arith)

-- The table with one object, and what the insertion says of it.
stored_one : (t : Table) × (insert_known_room small 16 7 ≡ done t) × Stored small 16 7 t
stored_one = insert-Stored small-IsTable sixteen.pointer sixteen.nonzero 7 (omega arith)

abbrev calls : List Call
calls = store generous 16 7 ∷ lookup 16 ∷ remove 16 ∷ lookup 16 ∷ clear ∷ []

perform_all-Replays_example :
    (slot' : Slot) × (replies : List Reply) × (m' : Contents) × (perform_all none calls
      ≡ done (slot', replies))
    × Replays (λ q. none) calls replies m'
    × Holds slot' m'
perform_all-Replays_example =
    perform_all-Replays calls (sixteen, (sixteen, (sixteen, (sixteen, (tt, tt)))))
      (record { sound = tt; reads = λ q nz. refl })

set_cases_example :
    ((set_identity_hash generous none 16 7 ≡ done (none, false))
      × (must_grow none ≡ true)
      × Refused generous (wanted_capacity none))
    ⊎ ((t : Table) × (set_identity_hash generous none 16 7 ≡ done (some t, true))
        × Maps none 16 (some 7) (some t))
set_cases_example = set_cases generous {slot = none} tt sixteen 7

added-le : (o : Option ℕ) → added o ≤ 1
added-le none = omega arith
added-le (some v) = omega arith

one-IsRoomy : IsRoomy (stored_one.0)
one-IsRoomy = record {
  table = stored_one.2.table;
  roomy = omega (
    arith,
    added-le (view small 16),
    stored_one.2.used,
    stored_one.2.table.threshold,
    stored_one.2.mask,
  );
}

abbrev one_slot : Slot
one_slot = some (stored_one.0)

delete-Maps_example :
    (slot' : Slot) × (delete_identity_hash one_slot 16
      ≡ done (slot', found (slot_view one_slot 16)))
    × Maps one_slot 16 none slot'
delete-Maps_example = delete-Maps one_slot one-IsRoomy sixteen

lookup-slot_view_example : lookup_identity_hash one_slot 16 ≡ done (slot_view one_slot 16)
lookup-slot_view_example = lookup-slot_view one_slot 16 one-IsRoomy sixteen

insert-Stored_example : (t : Table) × (insert_known_room small 16 7 ≡ done t) × Stored small 16 7 t
insert-Stored_example = insert-Stored small-IsTable sixteen.pointer sixteen.nonzero 7 (omega arith)

grow_cases_example :
    ((grow_table generous none ≡ done none) × Refused generous (wanted_capacity none))
    ⊎ ((t : Table) × (grow_table generous none ≡ done (some t)) × Roomier none t)
grow_cases_example = grow_cases generous none tt

new_table_cases_example :
    ((new_table generous 100 ≡ done none) × Refused generous 100)
    ⊎ ((t : Table) × (new_table generous 100 ≡ done (some t)) × Fresh 100 t)
new_table_cases_example = new_table_cases generous 100

sixteen_slots : IsCapacity 16
sixteen_slots = small-IsTable.cap

ends_probe-eq_example :
    ends_probe (make_entry 16 (dist 16 (home_index 16 15) 3)) 3 15 5
    ≡ ltb (dist 16 (home_index (entry_key (make_entry 16 (dist 16 (home_index 16 15) 3))) 15) 3) 5
ends_probe-eq_example =
    ends_probe-eq {mask = 15} {i = 3} sixteen_slots (omega arith) 5
      (make_entry-IsCoded (dist 16 (home_index 16 15) 3) sixteen.pointer sixteen.nonzero refl)
      (rw (entry_key-make_entry (dist 16 (home_index 16 15) 3) sixteen.pointer) sixteen.nonzero)

exact_psl-dist_example : exact_psl 16 3 15 ≡ dist 16 (home_index 16 15) 3
exact_psl-dist_example = exact_psl-dist {mask = 15} sixteen_slots 16 3 (omega arith)

entry_psl-make_entry_example : entry_psl (make_entry 16 9) ≡ 7
entry_psl-make_entry_example = entry_psl-make_entry 9 sixteen.pointer
