-- ===== src/IdentityHash/Sound.antt =====
-- The table of an interpreter between two operations, and what it maps an address to.
use retrace_cpython.Base.{ℕ, ◌≡◌, ◌≢◌, refl, arith, ◌<◌, ◌≤◌, Option, none, some, done}
use retrace_cpython.IdentityHash.Entry.Laws.{IsPointer}
use retrace_cpython.IdentityHash.Table.{Table, Slot}
use retrace_cpython.IdentityHash.Operations.{lookup_identity_hash}
use retrace_cpython.IdentityHash.Ring.{capacity-ge}
use retrace_cpython.IdentityHash.Invariant.{size, IsTable, view}
use retrace_cpython.IdentityHash.Lookup.{lookup-view}

-- The address of an object, as the callers pass it.
pub record IsObject (k : ℕ) : Type 0 where
  pub pointer : IsPointer k
  pub nonzero : k ≢ 0

-- A table that is well formed and at most five eighths full.
pub record IsRoomy (t : Table) : Type 0 where
  pub table : IsTable t
  pub roomy : t.used ≤ t.resize_at

abbrev pub IsSound : Slot → Type 0
IsSound none = Unit
IsSound (some t) = IsRoomy t

abbrev pub slot_view : Slot → ℕ → Option ℕ
slot_view none q = none
slot_view (some t) q = view t q

pub used-lt-size : {t : Table} → IsRoomy t → t.used < size t
used-lt-size r = omega (arith, r.roomy, r.table.threshold, capacity-ge r.table.cap)

-- On a sound slot, the lookup of an object ends and returns what a look at every slot of the
-- table finds.
pub lookup-slot_view :
    (slot : Slot) (q : ℕ)
    → IsSound slot
    → IsObject q
    → lookup_identity_hash slot q ≡ done (slot_view slot q)
unfolding lookup_identity_hash
lookup-slot_view none q s o = refl
lookup-slot_view (some t) q s o = lookup-view s.table (used-lt-size s) q o.pointer o.nonzero
