-- ===== src/IdentityHash/Insert.antt =====
-- `_PyRetrace_IdentityHashTableInsertKnownRoom`: insertion into a table with an empty slot.
pub mod Visit
pub mod Write
pub mod Loop
pub mod Room
use retrace_cpython.Base.{
  ℕ, zero, suc, ◌+◌, ◌-◌, ◌*◌, ◌/◌, ◌^◌, bit_and, Bool, true, false, ◌&&◌, ◌||◌, ltb, leb, ◌==◌,
  if◌then◌else◌, Option, none, some, List, [], ◌∷◌, replicate, get_or, set, Run, done, out_of_fuel,
  ◌>>=◌,
}
use retrace_cpython.Words.Arith.{word_max, add64, mul64}
use retrace_cpython.IdentityHash.Entry.{
  psl_saturated, entry_key, entry_psl, make_entry, home_index, exact_psl, entry_matches,
}
use retrace_cpython.IdentityHash.Table.{Table, capacity}

-- What the insertion carries from slot to slot.
pub record Carry : Type 0 where
  pub table : Table
  pub key : ℕ
  pub value : ℕ
  pub psl : ℕ

-- The probe length of an entry, computed anew if it is saturated.
unfoldable pub full_psl : ℕ → ℕ → ℕ → ℕ
full_psl entry index mask =
    if entry_psl entry == psl_saturated
    then exact_psl (entry_key entry) index mask
    else entry_psl entry

-- An entry that is nearer to its home than the carried one gives up its slot.
unfoldable pub displace : Carry → ℕ → Carry
unfolding full_psl
displace c index =
    let entry = get_or c.table.keys index 0 in
    let psl = full_psl entry index c.table.mask in
    if ltb psl c.psl
    then (record {
      table = record c.table {
        keys = set c.table.keys index (make_entry c.key c.psl);
        values = set c.table.values index c.value;
      };
      key = entry_key entry;
      value = get_or c.table.values index 0;
      psl = psl;
    })
    else c

unfoldable pub insert_loop : ℕ → Carry → ℕ → Run Table
unfolding displace
insert_loop zero c index = out_of_fuel
insert_loop (suc fuel) c index =
    let entry = get_or c.table.keys index 0 in
    let next = displace c index in
    let rest =
      insert_loop fuel (record next { psl = add64 next.psl 1 })
        (bit_and (add64 index 1) c.table.mask) in
    if entry == 0
    then done (record c.table {
      keys = set c.table.keys index (make_entry c.key c.psl);
      values = set c.table.values index c.value;
      used = add64 c.table.used 1;
    })
    else if entry_matches entry c.key
    then done (record c.table { values = set c.table.values index c.value })
    else rest

-- The loop visits each slot once at most.
unfoldable pub insert_known_room : Table → ℕ → ℕ → Run Table
unfolding capacity insert_loop
insert_known_room table key value =
    insert_loop (suc (capacity table)) (record { table = table; key = key; value = value; psl = 0 })
      (home_index key table.mask)
