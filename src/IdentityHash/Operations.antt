-- ===== src/IdentityHash/Operations.antt =====
-- The operations on the table of an interpreter: lookup, growth, set, delete and clear.
use retrace_cpython.Base.{
  ℕ, zero, suc, ◌+◌, bit_and, Bool, true, false, ltb, leb, ◌==◌, if◌then◌else◌, Option, none, some,
  get_or, set, Run, done, out_of_fuel, ◌>>=◌,
}
use retrace_cpython.Words.Arith.{add64, sub64, mul64}
use retrace_cpython.IdentityHash.Entry.{
  psl_saturated, entry_key, entry_psl, make_entry, home_index, exact_psl, entry_matches,
}
use retrace_cpython.IdentityHash.Table.{Table, Slot, Malloc, min_capacity, capacity, new_table}
use retrace_cpython.IdentityHash.Insert.{full_psl, insert_known_room}

-- The test that ends an unsuccessful probe. The probe length is computed anew only if it is
-- saturated and seems too short.
unfoldable pub ends_probe : ℕ → ℕ → ℕ → ℕ → Bool
ends_probe entry index mask psl =
    if ltb (entry_psl entry) psl
    then (if entry_psl entry == psl_saturated
        then ltb (exact_psl (entry_key entry) index mask) psl
        else true)
    else false

-- The slot at which the key stands, if any.
unfoldable pub probe_loop : ℕ → Table → ℕ → ℕ → ℕ → Run (Option ℕ)
unfolding ends_probe
probe_loop zero table key index psl = out_of_fuel
probe_loop (suc fuel) table key index psl =
    let entry = get_or table.keys index 0 in
    let rest = probe_loop fuel table key (bit_and (add64 index 1) table.mask) (add64 psl 1) in
    if entry == 0
    then done none
    else if entry_matches entry key
    then done (some index)
    else if ends_probe entry index table.mask psl
    then done none
    else rest

unfoldable pub probe : Table → ℕ → Run (Option ℕ)
unfolding capacity probe_loop
probe table key = probe_loop (suc (capacity table)) table key (home_index key table.mask) 0

-- A table that is NULL or holds nothing is not probed.
unfoldable pub lookup_identity_hash : Slot → ℕ → Run (Option ℕ)
lookup_identity_hash none key = done none
lookup_identity_hash (some table) key = if table.used == 0 then done none else do
  found ← probe table key
  done (elim found [ none ↦ none | some index ↦ some (get_or table.values index 0) ])

-- The entries from slot `i` on, `n` of them, go into the new table.
unfoldable pub reinsert : ℕ → ℕ → Table → Table → Run Table
reinsert zero i old new = done new
reinsert (suc n) i old new =
    let entry = get_or old.keys i 0 in
    (if entry == 0
      then done new
      else insert_known_room new (entry_key entry) (get_or old.values i 0))
    >>= reinsert n (i + 1) old

unfoldable pub wanted_capacity : Slot → ℕ
unfolding capacity
wanted_capacity none = min_capacity
wanted_capacity (some old) = mul64 (capacity old) 2

-- `none` is the failure -1, which leaves the old table in place.
unfoldable pub grow_table : Malloc → Slot → Run (Option Table)
grow_table malloc none = new_table malloc (wanted_capacity none)
grow_table malloc (some old) =
    if leb (wanted_capacity (some old)) (capacity old) then done none else do
      fresh ← new_table malloc (wanted_capacity (some old))
      elim fresh [
        | none ↦ done none
        | some new ↦ reinsert (capacity old) 0 old new >>= λ t. done (some t)
      ]

unfoldable pub must_grow : Slot → Bool
must_grow none = true
must_grow (some table) = ltb table.resize_at (add64 table.used 1)

-- The table in which there is room for one more key; `none` is the failure of the growth.
unfoldable pub with_room : Malloc → Slot → Run (Option Table)
with_room malloc slot = if must_grow slot then grow_table malloc slot else done slot

-- The state of the interpreter afterwards, and whether the call returned 0. The key is the
-- address of an object: it is not 0, and its three low bits are.
unfoldable pub set_identity_hash : Malloc → Slot → ℕ → ℕ → Run (Slot × Bool)
set_identity_hash malloc slot key value = do
  room ← with_room malloc slot
  elim room [
    | none ↦ done (slot, false)
    | some table ↦ insert_known_room table key value >>= λ t. done (some t, true)
  ]

-- The backward shift: the entry at `scan` moves to the hole, until one stands at its home.
unfoldable pub shift_loop : ℕ → Table → ℕ → ℕ → Run Table
unfolding full_psl
shift_loop zero table hole scan = out_of_fuel
shift_loop (suc fuel) table hole scan =
    let entry = get_or table.keys scan 0 in
    let psl = full_psl entry scan table.mask in
    let closed : Table = record table { keys = set table.keys hole 0 } in
    let rest =
      shift_loop fuel
        (record table {
          keys = set table.keys hole (make_entry (entry_key entry) (sub64 psl 1));
          values = set table.values hole (get_or table.values scan 0);
        })
        scan (bit_and (add64 scan 1) table.mask) in
    if entry == 0 then done closed else if psl == 0 then done closed else rest

-- The table afterwards, and whether the key was there.
unfoldable pub delete_identity_hash : Slot → ℕ → Run (Slot × Bool)
delete_identity_hash none key = done (none, false)
delete_identity_hash (some table) key = if table.used == 0 then done (some table, false) else do
  found ← probe table key
  elim found [
    | none ↦ done (some table, false)
    | some hole ↦ do
      t ←
          shift_loop (suc (capacity table)) (record table { used = sub64 table.used 1 }) hole
            (bit_and (add64 hole 1) table.mask)
      done (some t, true)
  ]

unfoldable pub clear_identity_hash_table : Slot → Slot
clear_identity_hash_table slot = none
