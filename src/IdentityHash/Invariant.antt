-- ===== src/IdentityHash/Invariant.antt =====
-- When a table is well formed, and what it maps an address to.
use retrace_cpython.Base.{
  ℕ, suc, ◌≡◌, ◌≢◌, sym, ◌∙◌, arith, ◌*◌, ◌/◌, ◌^◌, ◌<◌, min, ltb, Option, length, get_or,
}
use retrace_cpython.IdentityHash.Entry.{entry_key, entry_psl, make_entry, home_index}
use retrace_cpython.IdentityHash.Entry.Laws.{
  IsPointer, make_entry-eq, entry_key-make_entry, entry_psl-make_entry,
}
use retrace_cpython.IdentityHash.Table.{Table}
use retrace_cpython.IdentityHash.Insert.{full_psl}
use retrace_cpython.IdentityHash.Operations.{ends_probe}
use retrace_cpython.IdentityHash.Ring.{dist, IsCapacity, exact_psl-dist}
use retrace_cpython.IdentityHash.Scan.{scan, occupied}
use retrace_cpython.IdentityHash.Robin.{Robin}

abbrev pub key_at : Table → ℕ → ℕ
key_at t i = entry_key (get_or t.keys i 0)

abbrev pub value_at : Table → ℕ → ℕ
value_at t i = get_or t.values i 0

abbrev pub size : Table → ℕ
size t = suc t.mask

-- The home of a key in a table with this mask.
abbrev pub home : ℕ → ℕ → ℕ
home mask key = home_index key mask

-- The word in slot `i` packs a key with its probe length, cut off at 7.
pub record IsCoded (mask i entry : ℕ) : Type 0 where
  pub word : entry < 2 ^ 64
  pub empty : entry_key entry ≡ 0 → entry ≡ 0
  pub psl :
      entry_key entry ≢ 0
      → entry_psl entry ≡ min (dist (suc mask) (home mask (entry_key entry)) i) 7

pub record IsTable (t : Table) : Type 0 where
  pub cap : IsCapacity (size t)
  pub keys_length : length t.keys ≡ size t
  pub values_length : length t.values ≡ size t
  pub coded : (i : ℕ) → i < size t → IsCoded t.mask i (get_or t.keys i 0)
  pub robin : Robin (size t) (home t.mask) (key_at t)
  pub counted : t.used ≡ occupied (size t) (key_at t)
  pub threshold : t.resize_at ≡ size t * 5 / 8

-- The hash under an address, by a look at every slot.
unfoldable pub view : Table → ℕ → Option ℕ
view t q = scan (size t) (key_at t) (value_at t) q

module _ {mask i entry : ℕ} (cap : IsCapacity (suc mask)) (ri : i < suc mask) where
  pub full_psl-dist :
      IsCoded mask i entry
      → entry_key entry ≢ 0
      → full_psl entry i mask ≡ dist (suc mask) (home mask (entry_key entry)) i
  unfolding full_psl
  full_psl-dist c taken = ground (arith, c.psl taken, exact_psl-dist cap (entry_key entry) i ri)

  -- For a slot of a table whose word packs a key with its probe length cut off at 7, the lazy
  -- test that ends a lookup, which computes a saturated probe length anew only if it seems too
  -- short, is the test on the full probe length.
  pub ends_probe-eq :
      (p : ℕ)
      → IsCoded mask i entry
      → entry_key entry ≢ 0
      → ends_probe entry i mask p ≡ ltb (dist (suc mask) (home mask (entry_key entry)) i) p
  unfolding ends_probe
  ends_probe-eq p c taken = ground (arith, c.psl taken, exact_psl-dist cap (entry_key entry) i ri)

pub make_entry-IsCoded :
    {mask i key : ℕ} (p : ℕ)
    → IsPointer key
    → key ≢ 0
    → p ≡ dist (suc mask) (home mask key) i
    → IsCoded mask i (make_entry key p)
make_entry-IsCoded {mask} {i} {key} p h nonzero e = record {
  word = omega (arith, make_entry-eq p h, h.word, h.aligned);
  empty = λ z. absurd (nonzero (sym (entry_key-make_entry p h) ∙ z));
  psl = λ _. rw (entry_key-make_entry p h, ← e) (entry_psl-make_entry p h);
}
