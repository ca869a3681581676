-- ===== src/ObjectHash/Tests.antt =====
-- The hash of an object that is asked for again after other calls.
use retrace_cpython.Base.{ℕ, ◌≡◌, ◌∙◌, ap, arith, true, Option, none, some, [], done, inl, inr}
use retrace_cpython.IdentityHash.Table.{Slot, Malloc}
use retrace_cpython.IdentityHash.Operations.{wanted_capacity, lookup_identity_hash}
use retrace_cpython.IdentityHash.Sound.{IsObject, slot_view, lookup-slot_view}
use retrace_cpython.Spaces.{ThreadState, initialize_thread_state}
use retrace_cpython.ObjectHash.{hash_pointer}
use retrace_cpython.ObjectHash.Stable.{Hashed, hash_pointer-Hashed}
use retrace_cpython.ObjectHash.Later.{Later, now, then_call, hashes, hash_pointer-Later}

abbrev generous : Malloc
generous = record { table_ok = true; keys_ok = true; values_ok = true; contents = λ i. i }

sixteen : IsObject 16
sixteen = record {
  pointer = record { word = omega arith; aligned = omega arith };
  nonzero = omega arith;
}

thirty_two : IsObject 32
thirty_two = record {
  pointer = record { word = omega arith; aligned = omega arith };
  nonzero = omega arith;
}

abbrev caller : ThreadState
caller =
    initialize_thread_state
      (record { address = 7; thread_id = 70; cpython_thread_ident = 0; retrace_thread_id = 0 }) 100
      []

abbrev raw : ℕ → ℕ
raw ptr = ptr

-- The first call for the object.
first_call :
    (s : Slot) × (hash : ℕ) × (hash_pointer raw generous (some caller) none 16 ≡ done (s, hash))
    × Hashed generous none 16 s hash
first_call = hash_pointer-Hashed raw generous none tt 16 sixteen caller

-- The call for another object.
second_call :
    (s : Slot) × (hash : ℕ) × (hash_pointer raw generous (some caller) first_call.0 32
      ≡ done (s, hash))
    × Hashed generous first_call.0 32 s hash
second_call = hash_pointer-Hashed raw generous first_call.0 first_call.3.sound 32 thirty_two caller

first_held : slot_view first_call.0 16 ≡ some first_call.1
unfolding wanted_capacity
first_held = elim first_call.3.held [
  | inl held ↦ held
  | inr (full, inl big) ↦ absurd (ground (arith, big))
  | inr (full, inr missing) ↦ absurd (cc)
]

first_looked_up : lookup_identity_hash first_call.0 16 ≡ done (some first_call.1)
first_looked_up =
    lookup-slot_view first_call.0 16 first_call.3.sound sixteen
    ∙ ap (λ (o : Option ℕ). done o) first_held

other_hashed : Later 16 first_call.0 second_call.0
other_hashed =
    then_call now (hashes raw generous (some caller) 32 second_call.1 (omega arith) second_call.2)

hash_pointer-Later_example :
    hash_pointer raw generous (some caller) second_call.0 16 ≡ done (second_call.0, first_call.1)
hash_pointer-Later_example =
    hash_pointer-Later 16 first_call.1 sixteen first_call.3.sound first_looked_up other_hashed raw
      generous caller
