-- ===== src/ObjectHash/Stable.antt =====
-- The hash of an object stays the same until the object is deleted.
use retrace_cpython.Base.{
  ℕ, ◌≡◌, ◌≢◌, refl, sym, ◌∙◌, ap, arith, ◌<◌, ◌%◌, ◌^◌, bit_and, ◌==◌, if◌then◌else◌, true, false,
  Option, none, some, done, ◌⊎◌, inl, inr, Bool-cases, Option-cases,
}
use retrace_cpython.Words.Arith.{word_max}
use retrace_cpython.Words.Bits.{bit_and_low}
use retrace_cpython.IdentityHash.Table.{Slot, Malloc}
use retrace_cpython.IdentityHash.Operations.{wanted_capacity, must_grow}
use retrace_cpython.IdentityHash.Sound.{IsObject, IsSound, slot_view, lookup-slot_view}
use retrace_cpython.IdentityHash.Grow.Fresh.{Refused}
use retrace_cpython.IdentityHash.Map.{set_cases}
use retrace_cpython.Spaces.{ThreadState}
use retrace_cpython.ObjectHash.{
  Caller, normalize_py_hash, raw_pointer_hash, use_coordinate_pointer_hash, coordinate_hash_of,
  can_cache_pointer_hash, new_pointer_hash, lookup_from, store_from, hash_unless, hash_pointer,
}

-- An address that is cached is that of an object in the table, and the other way round.
pub cached-IsObject : (ptr : ℕ) → ptr < 2 ^ 64 → can_cache_pointer_hash ptr ≡ true → IsObject ptr
unfolding can_cache_pointer_hash
cached-IsObject ptr word h =
    let low : bit_and ptr 7 ≡ ptr % 8 = bit_and_low 3 ptr in
    record {
      pointer = record { word = word; aligned = ground (arith, h, low) };
      nonzero = λ e. absurd (ground (arith, h, e));
    }

pub object_cached : (ptr : ℕ) → IsObject ptr → can_cache_pointer_hash ptr ≡ true
unfolding can_cache_pointer_hash
object_cached ptr o =
    let low : bit_and ptr 7 ≡ ptr % 8 = bit_and_low 3 ptr in
    let nonzero : (ptr == 0) ≡ false = ground (arith, o.nonzero) in
    ground (arith, low, o.pointer.aligned, nonzero)

-- What is held stays.
abbrev pub Keeps : Slot → Slot → Type 0
Keeps s s' = (q hash : ℕ) → q ≢ 0 → slot_view s q ≡ some hash → slot_view s' q ≡ some hash

-- No object has the hash -1.
abbrev pub HasHashes : Slot → Type 0
HasHashes s = (q : ℕ) → q ≢ 0 → slot_view s q ≢ some word_max

normalized : (hash : ℕ) → normalize_py_hash hash ≢ word_max
unfolding normalize_py_hash
normalized hash e = ground (arith, e)

new_hash : (raw : ℕ → ℕ) (tstate : Caller) (ptr : ℕ) → new_pointer_hash raw tstate ptr ≢ word_max
unfolding new_pointer_hash raw_pointer_hash
new_hash raw tstate ptr = elim (Bool-cases (use_coordinate_pointer_hash tstate)) [
  | inl y ↦ rw y (normalized (coordinate_hash_of tstate))
  | inr n ↦ rw n (normalized (raw ptr))
]

-- What a call for the object `k` leaves in the table, and returns.
pub record Hashed (malloc : Malloc) (s : Slot) (k : ℕ) (s' : Slot) (hash : ℕ) : Type 0 where
  pub sound : IsSound s'
  pub keeps : Keeps s s'
  pub is_hash : HasHashes s → (hash ≢ word_max) × HasHashes s'
  pub held :
      (slot_view s' k ≡ some hash) ⊎ ((must_grow s ≡ true) × Refused malloc (wanted_capacity s))

module _ (raw : ℕ → ℕ) (malloc : Malloc) (s : Slot) (sound : IsSound s) (k : ℕ)
    (object : IsObject k) (t : ThreadState) where
  looked_up : lookup_from (some t) s k ≡ done (slot_view s k)
  unfolding lookup_from
  looked_up = lookup-slot_view s k sound object

  hash_runs :
      hash_pointer raw malloc (some t) s k ≡ hash_unless raw malloc (some t) s k (slot_view s k)
  unfolding hash_pointer
  hash_runs = rw (object_cached k object, looked_up) refl

  -- A hash that is held is returned.
  pub hash_found :
      (hash : ℕ) → slot_view s k ≡ some hash → hash_pointer raw malloc (some t) s k ≡ done (s, hash)
  unfolding hash_unless
  hash_found hash e = hash_runs ∙ ap (λ (o : Option ℕ). hash_unless raw malloc (some t) s k o) e

  kept : (hash : ℕ) → slot_view s k ≡ some hash → Hashed malloc s k s hash
  kept hash e = record {
    sound = sound;
    keeps = λ q h nz held. held;
    is_hash = λ hashes. (λ f. hashes k object.nonzero (e ∙ ap (λ (n : ℕ). some n) f), hashes);
    held = inl e;
  }

  written :
      (hash q h : ℕ)
      → slot_view s k ≡ none
      → slot_view s q ≡ some h
      → (if k == q then some hash else slot_view s q) ≡ some h
  written hash q h missing held = elim (Bool-cases (k == q)) [
    | inr n ↦ rw n held
    | inl y ↦
        let e : k ≡ q = ground arith in
        absurd (ground (arith, sym missing ∙ ap (λ (a : ℕ). slot_view s a) e ∙ held))
  ]

  not_written :
      (hash q : ℕ)
      → hash ≢ word_max
      → slot_view s q ≢ some word_max
      → (if k == q then some hash else slot_view s q) ≢ some word_max
  not_written hash q fresh old e = elim (Bool-cases (k == q)) [
    | inl y ↦ fresh (ground (arith, y, e))
    | inr n ↦ old (ground (arith, n, e))
  ]

  stored :
      slot_view s k ≡ none
      → (s' : Slot) × (hash_pointer raw malloc (some t) s k
          ≡ done (s', new_pointer_hash raw (some t) k))
        × Hashed malloc s k s' (new_pointer_hash raw (some t) k)
  unfolding hash_unless store_from
  stored missing =
      let hash = new_pointer_hash raw (some t) k in
      let fresh = ap (λ (o : Option ℕ). hash_unless raw malloc (some t) s k o) missing in
      elim (set_cases malloc sound object hash) [
        | inl (run, full, why) ↦ (
          s,
          hash_runs ∙ fresh ∙ rw run refl,
          record {
            sound = sound;
            keeps = λ q h nz held. held;
            is_hash = λ hashes. (new_hash raw (some t) k, hashes);
            held = inr (full, why);
          },
        )
        | inr (table, run, maps) ↦ (
          some table,
          hash_runs ∙ fresh ∙ rw run refl,
          record {
            sound = maps.sound;
            keeps = λ q h nz held. maps.reads q nz ∙ written hash q h missing held;
            is_hash = λ hashes. (
              new_hash raw (some t) k,
              λ q nz e.
                  not_written hash q (new_hash raw (some t) k) (hashes q nz)
                    (sym (maps.reads q nz) ∙ e),
            );
            held = inl (maps.reads k object.nonzero ∙ ground arith);
          },
        )
      ]

  -- A call ends and leaves a well-formed table, which keeps what it held and holds the hash returned,
  -- unless there was no memory to grow it; and no hash is -1 if none was.
  pub hash_pointer-Hashed :
      (s' : Slot) × (hash : ℕ) × (hash_pointer raw malloc (some t) s k ≡ done (s', hash))
      × Hashed malloc s k s' hash
  hash_pointer-Hashed = elim (Option-cases (slot_view s k)) [
    | inr (hash, e) ↦ (s, hash, hash_found hash e, kept hash e)
    | inl missing ↦
        let (s', run, h) = stored missing in (s', new_pointer_hash raw (some t) k, run, h)
  ]
