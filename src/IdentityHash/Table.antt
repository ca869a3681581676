-- ===== src/IdentityHash/Table.antt =====
-- cpython-overlay/Include/internal/pycore_retrace_identity_hash.h: the Robin Hood table that
-- remembers the hash of an object by its address. A `Py_hash_t` is the 64-bit word that holds it.
use retrace_cpython.Base.{
  ℕ, zero, suc, ◌-◌, ◌/◌, Bool, ◌&&◌, ltb, if◌then◌else◌, Option, none, some, List, [], ◌∷◌,
  replicate, Run, done, out_of_fuel, ◌>>=◌,
}
use retrace_cpython.Words.Arith.{word_max, add64, mul64}

pub record Table : Type 0 where
  pub mask : ℕ
  pub used : ℕ
  pub resize_at : ℕ
  pub keys : List ℕ
  pub values : List ℕ

-- `interp->retrace.identity_hashes`; `none` is NULL
abbrev pub Slot : Type 0
Slot = Option Table

-- What the three calls of `PyMem_RawMalloc` answer: whether each block is given, and what the block
-- of values holds before anything is written to it.
pub record Malloc : Type 0 where
  pub table_ok : Bool
  pub keys_ok : Bool
  pub values_ok : Bool
  pub contents : ℕ → ℕ

abbrev pub min_capacity : ℕ
min_capacity = 16

unfoldable pub capacity : Table → ℕ
capacity table = add64 table.mask 1

unfoldable pub resize_at_for : ℕ → ℕ
resize_at_for capacity = mul64 capacity 5 / 8

-- The doubling of `_PyRetrace_NewIdentityHashTable`; `none` is its NULL.
unfoldable pub double_until : ℕ → ℕ → ℕ → Run (Option ℕ)
double_until zero capacity wanted = out_of_fuel
double_until (suc fuel) capacity wanted =
    let rest = double_until fuel (mul64 capacity 2) wanted in
    if ltb capacity wanted
    then (if ltb (word_max / 2) capacity then done none else rest)
    else done (some capacity)

-- The contents of a block of `n` words.
unfoldable pub block : (ℕ → ℕ) → ℕ → List ℕ
block contents zero = []
block contents (suc n) = contents n ∷ block contents n

-- A word takes 8 bytes.
unfoldable pub allocate_table : Malloc → ℕ → Option Table
unfolding resize_at_for block
allocate_table malloc capacity =
    if ltb (word_max / 8) capacity
    then none
    else if malloc.table_ok && (malloc.keys_ok && malloc.values_ok)
    then some (record {
      mask = capacity - 1;
      used = 0;
      resize_at = resize_at_for capacity;
      keys = replicate capacity 0;
      values = block malloc.contents capacity;
    })
    else none

unfoldable pub new_table : Malloc → ℕ → Run (Option Table)
unfolding double_until allocate_table
new_table malloc wanted = do
  capacity ← double_until 64 min_capacity wanted
  done (elim capacity [ none ↦ none | some c ↦ allocate_table malloc c ])
