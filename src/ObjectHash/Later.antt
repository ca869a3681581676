-- ===== src/ObjectHash/Later.antt =====
-- The hash of an object over the calls of a program.
use retrace_cpython.Base.{
  ℕ, ◌≡◌, ◌≢◌, refl, sym, ◌∙◌, subst, arith, ◌<◌, ◌^◌, ◌==◌, true, false, none, some, Run, done,
  inl, inr, Bool-cases,
}
use retrace_cpython.IdentityHash.Table.{Slot, Malloc}
use retrace_cpython.IdentityHash.Operations.{lookup_identity_hash}
use retrace_cpython.IdentityHash.Sound.{IsObject, IsSound, slot_view, lookup-slot_view}
use retrace_cpython.IdentityHash.Map.{delete-Maps}
use retrace_cpython.Spaces.{ThreadState}
use retrace_cpython.ObjectHash.{
  Caller, can_cache_pointer_hash, raw_pointer_hash, new_pointer_hash, lookup_from, store_from,
  hash_unless, hash_pointer, delete_object_identity_hash,
}
use retrace_cpython.ObjectHash.Stable.{cached-IsObject, hash_found, hash_pointer-Hashed}

-- A call by any thread, at any coordinates: the hash of an address, or the deletion of an object
-- other than `k`.
pub data Other (k : ℕ) (s s' : Slot) : Type 0 where
  hashes :
      (raw : ℕ → ℕ) (malloc : Malloc) (tstate : Caller) (ptr hash : ℕ)
      → ptr < 2 ^ 64
      → hash_pointer raw malloc tstate s ptr ≡ done (s', hash)
      → Other k s s'
  deletes :
      (tstate : Caller) (obj : ℕ)
      → obj < 2 ^ 64
      → obj ≢ k
      → delete_object_identity_hash tstate s obj ≡ done s'
      → Other k s s'

pub data Later (k : ℕ) (s : Slot) : Slot → Type 0 where
  now : Later k s s
  then_call : {u v : Slot} → Later k s u → Other k u v → Later k s v

abbrev Holds : ℕ → ℕ → Slot → Type 0
Holds k hash s = IsSound s × (slot_view s k ≡ some hash)

done_slot : (s s' : Slot) (a b : ℕ) → ◌≡◌ {A = Run (Slot × ℕ)} (done (s, a)) (done (s', b)) → s ≡ s'
done_slot s s' a b e = cc

module _ (k hash : ℕ) (nonzero : k ≢ 0) where
  uncached_hash :
      (raw : ℕ → ℕ) (malloc : Malloc) (tstate : Caller) (s s' : Slot) (ptr h : ℕ)
      → can_cache_pointer_hash ptr ≡ false
      → hash_pointer raw malloc tstate s ptr ≡ done (s', h)
      → s ≡ s'
  unfolding hash_pointer
  uncached_hash raw malloc tstate s s' ptr h n e =
      done_slot s s' (raw_pointer_hash raw ptr) h (sym (simp n refl) ∙ e)

  no_caller :
      (raw : ℕ → ℕ) (malloc : Malloc) (s s' : Slot) (ptr h : ℕ)
      → can_cache_pointer_hash ptr ≡ true
      → hash_pointer raw malloc none s ptr ≡ done (s', h)
      → s ≡ s'
  unfolding hash_pointer lookup_from hash_unless store_from
  no_caller raw malloc s s' ptr h y e =
      done_slot s s' (new_pointer_hash raw none ptr) h (sym (simp y refl) ∙ e)

  hashes-Holds :
      (raw : ℕ → ℕ) (malloc : Malloc) (tstate : Caller) (s s' : Slot) (ptr h : ℕ)
      → ptr < 2 ^ 64
      → hash_pointer raw malloc tstate s ptr ≡ done (s', h)
      → Holds k hash s
      → Holds k hash s'
  hashes-Holds raw malloc tstate s s' ptr h word e held =
      elim (Bool-cases (can_cache_pointer_hash ptr)) [
        | inr n ↦ subst (Holds k hash) (uncached_hash raw malloc tstate s s' ptr h n e) held
        | inl y ↦ by_caller tstate y e
      ]
    where
      by_caller :
          (tstate : Caller)
          → can_cache_pointer_hash ptr ≡ true
          → hash_pointer raw malloc tstate s ptr ≡ done (s', h)
          → Holds k hash s'
      by_caller none y e = subst (Holds k hash) (no_caller raw malloc s s' ptr h y e) held
      by_caller (some t) y e =
          let object = cached-IsObject ptr word y in
          let (u, found, run, after) = hash_pointer-Hashed raw malloc s held.0 ptr object t in
          let same = done_slot u s' found h (sym run ∙ e) in
          subst (Holds k hash) same (after.sound, after.keeps k hash nonzero held.1)

  deletes-Holds :
      (tstate : Caller) (s s' : Slot) (obj : ℕ)
      → obj < 2 ^ 64
      → obj ≢ k
      → delete_object_identity_hash tstate s obj ≡ done s'
      → Holds k hash s
      → Holds k hash s'
  unfolding delete_object_identity_hash
  deletes-Holds none s s' obj word other e held = subst (Holds k hash) (cc) held
  deletes-Holds (some t) s s' obj word other e held =
      elim (Bool-cases (can_cache_pointer_hash obj)) [
        | inr n ↦
            let same : done s ≡ done s' = sym (simp n refl) ∙ e in subst (Holds k hash) (cc) held
        | inl y ↦
            let (u, run, maps) = delete-Maps s held.0 (cached-IsObject obj word y) in
            let same : done u ≡ done s' = sym (simp (y, run) refl) ∙ e in
            let elsewhere : (obj == k) ≡ false = ground arith in
            subst (Holds k hash) (cc) (maps.sound, maps.reads k nonzero ∙ (rw elsewhere held.1))
      ]

  Later-Holds : {s s' : Slot} → Later k s s' → Holds k hash s → Holds k hash s'
  Later-Holds now held = held
  Later-Holds (then_call {u} {v} later (hashes raw malloc tstate ptr h word e)) held =
      hashes-Holds raw malloc tstate u v ptr h word e (Later-Holds later held)
  Later-Holds (then_call {u} {v} later (deletes tstate obj word other e)) held =
      deletes-Holds tstate u v obj word other e (Later-Holds later held)

-- If a well-formed table holds a hash of an object, then after any calls for hashes of addresses
-- and for deletions of other objects, by any thread at any coordinates, with memory or without,
-- the hash that is asked for is the same, and the table is not changed by the question.
pub hash_pointer-Later :
    (k hash : ℕ) {s s' : Slot}
    → IsObject k
    → IsSound s
    → lookup_identity_hash s k ≡ done (some hash)
    → Later k s s'
    → (raw : ℕ → ℕ) (malloc : Malloc) (t : ThreadState)
    → hash_pointer raw malloc (some t) s' k ≡ done (s', hash)
hash_pointer-Later k hash {s} {s'} object sound looked later raw malloc t =
    let same : done (slot_view s k) ≡ done (some hash) =
      sym (lookup-slot_view s k sound object) ∙ looked in
    let held = Later-Holds k hash object.nonzero later (sound, cc) in
    hash_found raw malloc s' held.0 k object t hash held.1
