-- ===== src/IdentityHash/Insert/Visit.antt =====
-- One round of the insertion loop.
use retrace_cpython.Base.{ℕ, suc, ◌≡◌, ◌≢◌, arith, ltb, true, false, get_or, set, bit_and, done}
use retrace_cpython.Words.Arith.{add64}
use retrace_cpython.IdentityHash.Entry.{entry_key, make_entry, entry_matches}
use retrace_cpython.IdentityHash.Insert.{Carry, full_psl, displace, insert_loop}

module _ (fuel : ℕ) (c : Carry) (index : ℕ) where
  abbrev entry : ℕ
  entry = get_or c.table.keys index 0

  pub loop_empty :
      entry ≡ 0
      → insert_loop (suc fuel) c index
        ≡ done (record c.table {
          keys = set c.table.keys index (make_entry c.key c.psl);
          values = set c.table.values index c.value;
          used = add64 c.table.used 1;
        })
  unfolding insert_loop
  loop_empty e = ground arith

  pub loop_match :
      entry ≢ 0
      → entry_matches entry c.key ≡ true
      → insert_loop (suc fuel) c index
        ≡ done (record c.table { values = set c.table.values index c.value })
  unfolding insert_loop
  loop_match e m = ground arith

  pub loop_on :
      entry ≢ 0
      → entry_matches entry c.key ≡ false
      → insert_loop (suc fuel) c index
        ≡ insert_loop fuel
            (record (displace c index) { psl = add64 ((displace c index).psl) 1 })
            (bit_and (add64 index 1) c.table.mask)
  unfolding insert_loop
  loop_on e m = ground arith

  pub displace_stay : ltb (full_psl entry index c.table.mask) c.psl ≡ false → displace c index ≡ c
  unfolding displace
  displace_stay e = ground arith

  pub displace_swap :
      ltb (full_psl entry index c.table.mask) c.psl ≡ true
      → displace c index ≡ record {
        table = record c.table {
          keys = set c.table.keys index (make_entry c.key c.psl);
          values = set c.table.values index c.value;
        };
        key = entry_key entry;
        value = get_or c.table.values index 0;
        psl = full_psl entry index c.table.mask;
      }
  unfolding displace
  displace_swap e = ground arith
