-- ===== src/IdentityHash/Map.antt =====
-- The operations as they are called: the table is a finite map from objects to hashes.
use retrace_cpython.Base.{
  ℕ, ◌≡◌, ◌≢◌, refl, ◌∙◌, arith, ◌==◌, if◌then◌else◌, Option, none, some, true, false, done, ◌⊎◌,
  inl, inr,
}
use retrace_cpython.IdentityHash.Table.{Table, Slot, Malloc}
use retrace_cpython.IdentityHash.Insert.{insert_known_room}
use retrace_cpython.IdentityHash.Insert.Room.{insert-Stored}
use retrace_cpython.IdentityHash.Operations.{
  wanted_capacity, must_grow, set_identity_hash, delete_identity_hash,
}
use retrace_cpython.IdentityHash.Sound.{IsObject, IsSound, slot_view, used-lt-size}
use retrace_cpython.IdentityHash.Grow.{Roomier, with_room_cases}
use retrace_cpython.IdentityHash.Grow.Fresh.{Refused}
use retrace_cpython.IdentityHash.Delete.{found, delete-Deleted}

-- The slot is sound and maps `k` to `r`, and every other object as before.
pub record Maps (slot : Slot) (k : ℕ) (r : Option ℕ) (slot' : Slot) : Type 0 where
  pub sound : IsSound slot'
  pub reads : (q : ℕ) → q ≢ 0 → slot_view slot' q ≡ (if k == q then r else slot_view slot q)

module _ (malloc : Malloc) {slot : Slot} (s : IsSound slot) {k : ℕ} (object : IsObject k)
    (v : ℕ) where
  put :
      {t : Table}
      → Roomier slot t
      → (t' : Table) × (insert_known_room t k v ≡ done t') × Maps slot k (some v) (some t')
  put {t} r =
      let (t', run, w) =
        insert-Stored r.table object.pointer object.nonzero v
          (omega (arith, r.room, r.table.threshold)) in
      (
        t',
        run,
        record {
          sound = record {
            table = w.table;
            roomy = ground (arith, w.used, w.mask, w.table.threshold, r.table.threshold, r.room);
          };
          reads = λ q nz. w.reads q nz ∙ ground (arith, r.reads q nz);
        },
      )

  -- On a sound slot, setting the hash of an object ends. It fails only if the table had to grow
  -- and either memory was refused or more than 2 ^ 60 slots were wanted, and then the slot is
  -- unchanged; otherwise the slot is sound and maps the object to the hash and every other
  -- object as before.
  pub set_cases :
      ((set_identity_hash malloc slot k v ≡ done (slot, false))
        × (must_grow slot ≡ true)
        × Refused malloc (wanted_capacity slot))
      ⊎ ((t : Table) × (set_identity_hash malloc slot k v ≡ done (some t, true))
          × Maps slot k (some v) (some t))
  unfolding set_identity_hash
  set_cases = elim (with_room_cases malloc slot s) [
    | inl (run, full, why) ↦ inl (rw run, full, why)
    | inr (t, run, r) ↦ let (t', wrote, m) = put r in inr (t', rw (run, wrote), m)
  ]

-- On a sound slot, deleting an object ends with a sound slot that maps the object to nothing and
-- every other object as before, and reports whether the object had a hash.
pub delete-Maps :
    (slot : Slot)
    → IsSound slot
    → {k : ℕ} → IsObject k
    → (slot' : Slot) × (delete_identity_hash slot k ≡ done (slot', found (slot_view slot k)))
      × Maps slot k none slot'
delete-Maps none s {k} o =
    (none, unfold delete_identity_hash in refl, record { sound = tt; reads = λ q nz. ground arith })
delete-Maps (some t) s {k} o =
    let (t', run, d) = delete-Deleted s.table (used-lt-size s) o.pointer o.nonzero in
    (
      some t',
      run,
      record {
        sound = record {
          table = d.table;
          roomy = ground (arith, d.table.threshold, s.table.threshold, d.mask, d.used, s.roomy);
        };
        reads = d.reads;
      },
    )
