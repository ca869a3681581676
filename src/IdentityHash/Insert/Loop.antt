-- ===== src/IdentityHash/Insert/Loop.antt =====
-- The insertion of a key that the table does not hold.
use retrace_cpython.Base.{
  ℕ, zero, suc, ◌≡◌, ◌≢◌, refl, ap, ◌∙◌, arith, ◌+◌, ◌<◌, ◌≤◌, ◌==◌, if◌then◌else◌, ltb, some,
  get_or, true, false, done, ℕ_discrete, dec_lt,
}
use retrace_cpython.Words.Arith.{add64}
use retrace_cpython.IdentityHash.Entry.{entry_matches}
use retrace_cpython.IdentityHash.Entry.Laws.{IsPointer, entry_key-IsPointer}
use retrace_cpython.IdentityHash.Table.{Table}
use retrace_cpython.IdentityHash.Insert.{Carry, insert_loop, full_psl}
use retrace_cpython.IdentityHash.Insert.Visit.{loop_empty, loop_on, displace_stay, displace_swap}
use retrace_cpython.IdentityHash.Insert.Write.{after, key_at-written, written-IsTable, view-written}
use retrace_cpython.IdentityHash.Ring.{next, mask-next, home_index-lt, capacity-le}
use retrace_cpython.IdentityHash.Ring.Steps.{prev-next}
use retrace_cpython.IdentityHash.Ring.Walk.{At, further, exchange}
use retrace_cpython.IdentityHash.Robin.{far}
use retrace_cpython.IdentityHash.Robin.Place.{Ready}
use retrace_cpython.IdentityHash.Scan.{occupied-le}
use retrace_cpython.IdentityHash.Invariant.{
  key_at, value_at, size, home, IsTable, view, full_psl-dist,
}
use retrace_cpython.IdentityHash.Lookup.{view_found}
use retrace_cpython.IdentityHash.Probe.{visit_empty, visit_taken, visit_matches}

-- The table afterwards holds one key more, and reads as before elsewhere.
pub record Inserted (t : Table) (k v : ℕ) (t' : Table) : Type 0 where
  pub table : IsTable t'
  pub mask : t'.mask ≡ t.mask
  pub used : t'.used ≡ t.used + 1
  pub reads : (q : ℕ) → q ≢ 0 → view t' q ≡ (if k == q then some v else view t q)

-- The loop carries a key that is not in the table, and the slot before lets it stand here.
pub record Carrying (z fuel : ℕ) (c : Carry) (index : ℕ) : Type 0 where
  pub ok : IsTable c.table
  pub inside : z < size c.table
  pub gap : key_at c.table z ≡ 0
  pub pointer : IsPointer c.key
  pub nonzero : c.key ≢ 0
  pub fresh : (j : ℕ) → j < size c.table → key_at c.table j ≢ c.key
  pub at : At (size c.table) (home c.table.mask c.key) z fuel index c.psl
  pub ready : Ready (size c.table) (home c.table.mask) (key_at c.table) c.key index

module _ {z fuel : ℕ} {c : Carry} {index : ℕ} (s : Carrying z (suc fuel) c index) where
  open s use {ok, at, pointer, nonzero}

  pub ri : index < size c.table
  ri = at.inside

  abbrev pub there : ℕ
  there = key_at c.table index

  used_small : add64 c.table.used 1 ≡ c.table.used + 1
  used_small =
      omega (arith, ok.counted, occupied-le (size c.table) (key_at c.table), capacity-le ok.cap)

  abbrev pub stored : ℕ → Table
  stored used = after ok ri pointer c.value used

  -- An empty slot takes the entry.
  place_empty :
      there ≡ 0
      → (t' : Table) × (insert_loop (suc fuel) c index ≡ done t')
        × Inserted c.table c.key c.value t'
  place_empty e = (
    stored (c.table.used + 1),
    loop_empty fuel c index (visit_empty ok pointer index ri e) ∙ rw (used_small, at.walked),
    record {
      table = fine;
      mask = refl;
      used = refl;
      reads = λ q nz. view-written ok ri pointer c.value (c.table.used + 1) fine nz ∙ ground arith;
    },
  )
    where
      fine : IsTable (stored (c.table.used + 1))
      fine =
          written-IsTable ok ri pointer c.value (c.table.used + 1) nonzero s.fresh s.ready
            (λ held. absurd (held e)) (ground arith)

  module _ (held : there ≢ 0) where
    no_match : entry_matches (get_or c.table.keys index 0) c.key ≡ false
    no_match = ground (arith, visit_matches ok pointer index ri, s.fresh index ri)

    psl_here :
        full_psl (get_or c.table.keys index 0) index c.table.mask
        ≡ far (size c.table) (home c.table.mask) (key_at c.table) index
    psl_here = full_psl-dist ok.cap ri (ok.coded index ri) held

    apart : index ≢ z
    apart e = held (ap (key_at c.table) e ∙ s.gap)

    psl_small : add64 c.psl 1 ≡ c.psl + 1
    psl_small = omega (arith, at.ahead, capacity-le ok.cap)

    -- An entry that is no nearer to its home stays.
    stay :
        c.psl ≤ far (size c.table) (home c.table.mask) (key_at c.table) index
        → (insert_loop (suc fuel) c index
            ≡ insert_loop fuel (record c { psl = c.psl + 1 }) (next (size c.table) index))
          × Carrying z fuel (record c { psl = c.psl + 1 }) (next (size c.table) index)
    stay le = (
      loop_on fuel c index (visit_taken ok pointer index held) no_match
          ∙ rw (
            displace_stay fuel c index (rw psl_here (ground arith)),
            psl_small,
            mask-next ok.cap index ri,
          ),
      record {
        ok = ok;
        inside = s.inside;
        gap = s.gap;
        pointer = pointer;
        nonzero = nonzero;
        fresh = s.fresh;
        at = moved;
        ready = λ _. rw (prev-next ri) (held, omega (arith, moved.walked, le));
      },
    )
      where
        moved :
            At
              (size c.table)
              (home c.table.mask c.key)
              z
              fuel
              (next (size c.table) index)
              (c.psl + 1)
        moved = further (home_index-lt ok.cap c.key) s.inside at apart

    module _ (lt : far (size c.table) (home c.table.mask) (key_at c.table) index < c.psl) where
      -- What the loop carries on after the entry in the slot has given it up.
      abbrev pub evicted : Carry
      evicted = record {
        table = stored c.table.used;
        key = there;
        value = value_at c.table index;
        psl = far (size c.table) (home c.table.mask) (key_at c.table) index + 1;
      }

      full : IsTable (stored c.table.used)
      full =
          written-IsTable ok ri pointer c.value c.table.used nonzero s.fresh s.ready
            (λ _. omega (arith, lt, at.walked)) (ground arith)

      moved :
          At (size c.table) (home c.table.mask there) z fuel (next (size c.table) index) evicted.psl
      moved =
          further (home_index-lt ok.cap there) s.inside
            (exchange (home c.table.mask there) at (omega arith)) apart

      -- The key that was put in stands where it was written, and it is not the one that left.
      left : (j : ℕ) → j < size c.table → key_at (stored c.table.used) j ≢ there
      left j rj = ground (
        arith,
        key_at-written ok ri pointer c.value c.table.used j,
        s.fresh index ri,
        ok.robin.unique index j ri rj held,
      )

      nearer : ltb (full_psl (get_or c.table.keys index 0) index c.table.mask) c.psl ≡ true
      nearer = rw psl_here (ground arith)

      far_small :
          add64 (far (size c.table) (home c.table.mask) (key_at c.table) index) 1
          ≡ far (size c.table) (home c.table.mask) (key_at c.table) index + 1
      far_small = omega (arith, at.ahead, capacity-le ok.cap, lt)

      own : key_at (stored c.table.used) index ≡ c.key
      own = ground (arith, key_at-written ok ri pointer c.value c.table.used index)

      swap :
          (insert_loop (suc fuel) c index ≡ insert_loop fuel evicted (next (size c.table) index))
          × Carrying z fuel evicted (next (size c.table) index)
      swap = (
        loop_on fuel c index (visit_taken ok pointer index held) no_match
            ∙ rw (
              displace_swap fuel c index nearer,
              at.walked,
              psl_here,
              far_small,
              mask-next ok.cap index ri,
            ),
        record {
          ok = full;
          inside = s.inside;
          gap = ground (arith, key_at-written ok ri pointer c.value c.table.used z, apart, s.gap);
          pointer = entry_key-IsPointer ((ok.coded index ri).word);
          nonzero = held;
          fresh = left;
          at = moved;
          ready = λ _. rw (prev-next ri, own) (nonzero, omega (arith, moved.walked, at.walked, lt));
        },
      )

      -- One round, seen through the finished table.
      swap_reads :
          {t' : Table}
          → Inserted evicted.table evicted.key evicted.value t'
          → Inserted c.table c.key c.value t'
      swap_reads i = record {
        table = i.table;
        mask = i.mask;
        used = i.used;
        reads = λ q nz. ground (
          arith,
          i.reads q nz,
          view-written ok ri pointer c.value c.table.used full nz,
          s.fresh index ri,
          view_found ok nz index ri,
        );
      }

-- The loop ends, with the key in the table.
pub insert_fresh :
    (fuel : ℕ) {z : ℕ} {c : Carry} {index : ℕ}
    → Carrying z fuel c index
    → (t' : Table) × (insert_loop fuel c index ≡ done t') × Inserted c.table c.key c.value t'
insert_fresh zero s = absurd (omega (arith, s.at.enough))
insert_fresh (suc fuel) {z} {c} {index} s = elim (ℕ_discrete (key_at c.table index) 0) [
  | yes e ↦ place_empty s e
  | no held ↦ elim (dec_lt (far (size c.table) (home c.table.mask) (key_at c.table) index) c.psl) [
    | yes lt ↦
        let (t', run, i) = insert_fresh fuel (swap s held lt).1 in
        (t', (swap s held lt).0 ∙ run, swap_reads s held lt i)
    | no ge ↦
        let (t', run, i) = insert_fresh fuel (stay s held (omega arith)).1 in
        (
          t',
          (stay s held (omega arith)).0 ∙ run,
          record { table = i.table; mask = i.mask; used = i.used; reads = i.reads },
        )
  ]
]
