-- ===== src/IdentityHash/Entry/Laws.antt =====
-- Packing a pointer and a probe length into one word, and reading them back.
use retrace_cpython.Base.{ℕ, ◌≡◌, arith, ◌+◌, ◌*◌, ◌/◌, ◌%◌, ◌^◌, ◌<◌, min, ◌==◌}
use retrace_cpython.Words.Bits.{bit_or_eight, bit_and_eight, bit_xor_eight, bit_and_low}
use retrace_cpython.IdentityHash.Entry.{entry_key, entry_psl, make_entry, entry_matches}

-- The address of an object: 8 divides it.
pub record IsPointer (k : ℕ) : Type 0 where
  pub word : k < 2 ^ 64
  pub aligned : k % 8 ≡ 0

pub make_entry-eq : {k : ℕ} (p : ℕ) → IsPointer k → make_entry k p ≡ k + min p 7
unfolding make_entry
make_entry-eq {k} p h = ground (arith, bit_or_eight (k / 8) 7, bit_or_eight (k / 8) p, eights)
  where
    eights : 8 * (k / 8) ≡ k
    eights = omega arith

pub entry_key-eq : {e : ℕ} → e < 2 ^ 64 → entry_key e ≡ 8 * (e / 8)
unfolding entry_key
entry_key-eq {e} h = bit_and_eight e h

pub entry_psl-eq : (e : ℕ) → entry_psl e ≡ e % 8
unfolding entry_psl
entry_psl-eq e = bit_and_low 3 e

pub entry_key-make_entry : {k : ℕ} (p : ℕ) → IsPointer k → entry_key (make_entry k p) ≡ k
entry_key-make_entry {k} p h =
    rw (make_entry-eq p h) (omega (arith, entry_key-eq {e = k + min p 7} (omega arith)))

-- The probe length read back from an entry packed from an aligned address is the one packed, cut
-- off at 7.
pub entry_psl-make_entry : {k : ℕ} (p : ℕ) → IsPointer k → entry_psl (make_entry k p) ≡ min p 7
entry_psl-make_entry {k} p h = rw (make_entry-eq p h) (omega (arith, entry_psl-eq (k + min p 7)))

pub entry_key-IsPointer : {e : ℕ} → e < 2 ^ 64 → IsPointer (entry_key e)
entry_key-IsPointer h = record {
  word = omega (arith, entry_key-eq h);
  aligned = omega (arith, entry_key-eq h);
}

-- For a 64-bit entry and an aligned address, the comparison by exclusive or holds exactly if the
-- key packed in the entry is the address.
pub entry_matches-eq : {e k : ℕ} → e < 2 ^ 64 → IsPointer k → entry_matches e k ≡ (entry_key e == k)
unfolding entry_matches
entry_matches-eq {e} {k} h p = ground (arith, entry_key-eq h, bit_xor_eight e k)

pub entry_key-zero : entry_key 0 ≡ 0
entry_key-zero = entry_key-eq {e = 0} (omega arith)
