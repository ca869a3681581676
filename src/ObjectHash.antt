-- ===== src/ObjectHash.antt =====
-- The hash of an object by its address: cpython-overlay/Include/internal/pycore_retrace.h, lines 458
-- to 477 and 769 to 845.
pub mod Stable
pub mod Later
mod Tests
use retrace_cpython.Base.{
  ℕ, ◌-◌, ◌^◌, bit_and, ◌==◌, not, ◌&&◌, if◌then◌else◌, Bool, true, false, Option, none, some, List,
  [], ◌∷◌, Run, done, out_of_fuel, ◌>>=◌,
}
use retrace_cpython.Words.Arith.{word_max}
use retrace_cpython.Frames.{Frame, Space}
use retrace_cpython.Coordinates.Hash.{root_coordinate_hash, frame_coordinate_hash_in_space}
use retrace_cpython.IdentityHash.Entry.{psl_mask}
use retrace_cpython.IdentityHash.Table.{Table, Slot, Malloc}
use retrace_cpython.IdentityHash.Operations.{
  lookup_identity_hash, set_identity_hash, delete_identity_hash,
}
use retrace_cpython.Spaces.{
  ThreadState, nearest_visible_frame, current_thread_frame, current_space_state,
}

-- -1 is not a hash; the hash is the 64-bit word that holds it.
unfoldable pub normalize_py_hash : ℕ → ℕ
normalize_py_hash hash = if hash == word_max then word_max - 1 else hash

-- `raw` is `_Py_HashPointerRaw`.
unfoldable pub raw_pointer_hash : (ℕ → ℕ) → ℕ → ℕ
unfolding normalize_py_hash
raw_pointer_hash raw ptr = normalize_py_hash (raw ptr)

unfoldable pub can_cache_pointer_hash : ℕ → Bool
can_cache_pointer_hash ptr = not (ptr == 0) && (bit_and ptr psl_mask == 0)

abbrev pub has_frame : List Frame → Bool
has_frame [] = false
has_frame (frame ∷ frames) = true

unfoldable pub use_coordinate_pointer_hash : Option ThreadState → Bool
unfolding nearest_visible_frame current_thread_frame
use_coordinate_pointer_hash none = false
use_coordinate_pointer_hash (some tstate) =
    if tstate.identity.retrace_thread_id == 0
    then false
    else has_frame (nearest_visible_frame (current_thread_frame tstate))

unfoldable pub hash_in_found_space : ℕ → List Frame → Option Space → ℕ
unfolding root_coordinate_hash frame_coordinate_hash_in_space
hash_in_found_space thread_id frames none = root_coordinate_hash thread_id none
hash_in_found_space thread_id frames (some space) =
    frame_coordinate_hash_in_space thread_id frames space

-- The hash at the nearest visible frame, in the space of that frame, which is one of the thread's;
-- it is asked for only if there is such a frame.
unfoldable pub hash_at_visible : ThreadState → List Frame → ℕ
unfolding hash_in_found_space current_space_state
hash_at_visible tstate [] = root_coordinate_hash tstate.identity.retrace_thread_id none
hash_at_visible tstate (frame ∷ frames) =
    hash_in_found_space tstate.identity.retrace_thread_id (frame ∷ frames)
      (current_space_state tstate frame.retrace.space)

unfoldable pub current_coordinate_hash : ThreadState → ℕ
unfolding hash_at_visible nearest_visible_frame current_thread_frame
current_coordinate_hash tstate =
    hash_at_visible tstate (nearest_visible_frame (current_thread_frame tstate))

unfoldable pub coordinate_hash_of : Option ThreadState → ℕ
unfolding current_coordinate_hash
coordinate_hash_of none = 0
coordinate_hash_of (some tstate) = current_coordinate_hash tstate

unfoldable pub new_pointer_hash : (ℕ → ℕ) → Option ThreadState → ℕ → ℕ
unfolding coordinate_hash_of use_coordinate_pointer_hash normalize_py_hash raw_pointer_hash
new_pointer_hash raw tstate ptr =
    if use_coordinate_pointer_hash tstate
    then normalize_py_hash (coordinate_hash_of tstate)
    else raw_pointer_hash raw ptr

-- The thread state of the caller; none is NULL, and then there is no interpreter either.
abbrev pub Caller : Type 0
Caller = Option ThreadState

unfoldable pub lookup_from : Caller → Slot → ℕ → Run (Option ℕ)
lookup_from none slot ptr = done none
lookup_from (some tstate) slot ptr = lookup_identity_hash slot ptr

unfoldable pub store_from : Malloc → Caller → Slot → ℕ → ℕ → Run (Slot × Bool)
store_from malloc none slot ptr hash = done (slot, false)
store_from malloc (some tstate) slot ptr hash = set_identity_hash malloc slot ptr hash

-- A hash that is not found is made, and kept if there is memory.
unfoldable pub hash_unless : (ℕ → ℕ) → Malloc → Caller → Slot → ℕ → Option ℕ → Run (Slot × ℕ)
hash_unless raw malloc tstate slot ptr (some hash) = done (slot, hash)
hash_unless raw malloc tstate slot ptr none =
    store_from malloc tstate slot ptr (new_pointer_hash raw tstate ptr) >>= λ r.
    done (r.0, new_pointer_hash raw tstate ptr)

-- The table of the interpreter afterwards, and the hash.
unfoldable pub hash_pointer : (ℕ → ℕ) → Malloc → Caller → Slot → ℕ → Run (Slot × ℕ)
hash_pointer raw malloc tstate slot ptr =
    if can_cache_pointer_hash ptr
    then lookup_from tstate slot ptr >>= hash_unless raw malloc tstate slot ptr
    else done (slot, raw_pointer_hash raw ptr)

unfoldable pub delete_object_identity_hash : Caller → Slot → ℕ → Run Slot
unfolding can_cache_pointer_hash
delete_object_identity_hash none slot obj = done slot
delete_object_identity_hash (some tstate) slot obj =
    if can_cache_pointer_hash obj
    then (delete_identity_hash slot obj >>= λ r. done r.0)
    else done slot
