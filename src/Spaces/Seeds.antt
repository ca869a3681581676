-- ===== src/Spaces/Seeds.antt =====
-- A new thread and the end of a thread: cpython-overlay/Include/internal/pycore_retrace.h, lines
-- 496 to 529, 592 to 682 and 742 to 749.
pub mod Parents
pub mod Seeded
mod Tests
use retrace_cpython.Base.{
  ℕ, ◌==◌, not, ◌&&◌, if◌then◌else◌, Bool, true, false, Option, none, some, List, [], ◌∷◌, Run,
  done, out_of_fuel, ◌>>=◌,
}
use retrace_cpython.Frames.{Frame, Space, Counter, root_counter, space_id_root}
use retrace_cpython.Coordinates.Hash.{mix_visible_frame_coordinates}
use retrace_cpython.Mixers.{mix64}
use retrace_cpython.Threads.Ids.{
  initial_root_coordinate_hash, mix_bytes, compose_thread_id, normalize_thread_id,
}
use retrace_cpython.Threads.Unique.{Thread, unique_thread_id}
use retrace_cpython.Threads.Ident.{thread_state_from_public_ident, same_thread}
use retrace_cpython.Callbacks.{CallbackState, Callbacks}
use retrace_cpython.Spaces.{
  ThreadState, Calloc, current_space_state, resolve_current_space, current_thread_frame,
  write_space, set_current_space_by_id,
}

-- "retrace.root-seed.v2", "retrace.thread-id.v2" and "retrace"
abbrev pub root_seed_domain : List ℕ
root_seed_domain =
    b'r' ∷ b'e' ∷ b't' ∷ b'r' ∷ b'a' ∷ b'c' ∷ b'e' ∷ b'.' ∷ b'r' ∷ b'o' ∷ b'o' ∷ b't' ∷ b'-' ∷ b's'
    ∷ b'e' ∷ b'e' ∷ b'd' ∷ b'.' ∷ b'v' ∷ b'2' ∷ []

abbrev pub thread_id_domain : List ℕ
thread_id_domain =
    b'r' ∷ b'e' ∷ b't' ∷ b'r' ∷ b'a' ∷ b'c' ∷ b'e' ∷ b'.' ∷ b't' ∷ b'h' ∷ b'r' ∷ b'e' ∷ b'a' ∷ b'd'
    ∷ b'-' ∷ b'i' ∷ b'd' ∷ b'.' ∷ b'v' ∷ b'2' ∷ []

abbrev pub default_root_seed : List ℕ
default_root_seed = b'r' ∷ b'e' ∷ b't' ∷ b'r' ∷ b'a' ∷ b'c' ∷ b'e' ∷ []

-- The bytes of the environment variable, if it is set.
abbrev pub seed_of : Option (List ℕ) → List ℕ
seed_of none = default_root_seed
seed_of (some seed) = seed

unfoldable pub root_thread_id_seed : Option (List ℕ) → ℕ
unfolding mix_bytes compose_thread_id initial_root_coordinate_hash
root_thread_id_seed env =
    compose_thread_id space_id_root
      (mix_bytes (mix_bytes initial_root_coordinate_hash root_seed_domain) (seed_of env))

-- No frame is visible in a space that is NULL.
unfoldable pub mix_frames : ℕ → List Frame → Option ℕ → ℕ
unfolding mix_visible_frame_coordinates
mix_frames hash frames none = hash
mix_frames hash frames (some space) = mix_visible_frame_coordinates hash frames space

-- The seed from a parent that has an id; its current space may be made.
unfoldable pub seed_from : Calloc → ThreadState → ℕ → ThreadState × ℕ
unfolding resolve_current_space current_thread_frame mix_frames
seed_from calloc parent hash =
    let (resolved, space) = resolve_current_space calloc parent in
    (
      resolved,
      mix_frames (mix64 hash parent.identity.retrace_thread_id) (current_thread_frame resolved)
          space,
    )

unfoldable pub seed_hash :
    Option (List ℕ) → Calloc → Option ThreadState → ℕ → Option ThreadState × ℕ
unfolding seed_from root_thread_id_seed
seed_hash env calloc none hash = (none, mix64 hash (root_thread_id_seed env))
seed_hash env calloc (some parent) hash =
    if parent.identity.retrace_thread_id == 0
    then (some parent, mix64 hash (root_thread_id_seed env))
    else let (resolved, mixed) = seed_from calloc parent hash in (some resolved, mixed)

-- The parent afterwards, and the seed.
unfoldable pub thread_id_seed :
    Option (List ℕ) → Calloc → Option ThreadState → Option ThreadState × ℕ
unfolding seed_hash mix_bytes normalize_thread_id initial_root_coordinate_hash
thread_id_seed env calloc parent =
    let (after, hash) =
      seed_hash env calloc parent (mix_bytes initial_root_coordinate_hash thread_id_domain) in
    (after, normalize_thread_id hash)

abbrev pub id_of_space : Option Space → ℕ
id_of_space none = space_id_root
id_of_space (some space) = space.space_id

-- The id of the parent's current space.
unfoldable pub inherited_id : Option ThreadState → ℕ
unfolding current_space_state
inherited_id none = space_id_root
inherited_id (some parent) = id_of_space (current_space_state parent parent.current_space)

abbrev pub set_root_hash : ℕ → Space → Space
set_root_hash hash space = record space { root_coordinate_hash = hash }

-- The first space of a thread is its root space.
unfoldable pub write_root : List Space → (Space → Space) → List Space
write_root [] write = []
write_root (space ∷ spaces) write = write space ∷ spaces

abbrev pub with_id : Thread → ℕ → Thread
with_id identity id = record identity { retrace_thread_id = id }

-- The child once its id is chosen.
unfoldable pub seed_child : Calloc → ThreadState → ℕ → ℕ → ThreadState
unfolding set_current_space_by_id write_root
seed_child calloc child id space_id =
    let named : ThreadState = record child {
      identity = with_id child.identity id;
      spaces = write_root child.spaces (set_root_hash id);
      inherited_space_id = space_id;
    } in
    (set_current_space_by_id calloc named space_id).0

-- A child that is its own parent has none.
unfoldable pub parent_of : Option ThreadState → ThreadState → Option ThreadState
parent_of none child = none
parent_of (some parent) child =
    if parent.identity.address == child.identity.address then none else some parent

-- `threads` are those of the interpreter. The fuel is for the choice of the id.
unfoldable pub seed_thread_state :
    ℕ
    → Option (List ℕ)
    → Calloc
    → Calloc
    → List Thread
    → Option ThreadState
    → ThreadState
    → Run (Option ThreadState × ThreadState)
unfolding thread_id_seed inherited_id seed_child unique_thread_id parent_of
seed_thread_state fuel env parent_calloc child_calloc threads given child =
    let parent = parent_of given child in
    let space_id = inherited_id parent in
    let (after, seed) = thread_id_seed env parent_calloc parent in
    unique_thread_id fuel threads child.identity.address space_id seed >>= λ id.
    done (after, seed_child child_calloc child id space_id)

unfoldable pub register_thread_ident : ThreadState → ℕ → ThreadState
register_thread_ident tstate ident =
    let named : Thread = record tstate.identity { cpython_thread_ident = ident } in
    record tstate { identity = named }

unfoldable pub thread_matches_async_exc_id : List Thread → Option Thread → ℕ → Bool
unfolding thread_state_from_public_ident same_thread
thread_matches_async_exc_id threads target id =
    same_thread target (thread_state_from_public_ident threads id)

-- The entries forget a thread that ends.
unfoldable pub forget_last : Option ℕ → ℕ → Option ℕ
forget_last none address = none
forget_last (some last) address = if last == address then none else some last

unfoldable pub forget_thread : List CallbackState → ℕ → List CallbackState
unfolding forget_last
forget_thread [] address = []
forget_thread (entry ∷ entries) address =
    record entry { last_bytecode_thread = forget_last entry.last_bytecode_thread address }
    ∷ forget_thread entries address

abbrev pub root_only : List Space → List Space
root_only [] = []
root_only (root ∷ spaces) = root ∷ []

abbrev pub root_address : List Space → Option ℕ
root_address [] = none
root_address (root ∷ spaces) = some root.address

abbrev pub root_pointer : List Space → Option Counter
root_pointer [] = none
root_pointer (root ∷ spaces) = some (root_counter root.address)

-- The thread afterwards, the interpreter's last thread and its entries.
unfoldable pub clear_thread_state :
    ThreadState → Option ℕ → List CallbackState → ThreadState × Option ℕ × List CallbackState
unfolding forget_last forget_thread
clear_thread_state tstate last entries = (
  record tstate {
    thread_id_object = none;
    spaces = root_only tstate.spaces;
    current_space = root_address tstate.spaces;
    call_ordinal_ptr = root_pointer tstate.spaces;
  },
  forget_last last tstate.identity.address,
  forget_thread entries tstate.identity.address,
)

-- What the end of an interpreter leaves of its callbacks by space.
unfoldable pub clear_space_callbacks : Callbacks → Callbacks
clear_space_callbacks interp = record interp {
  space_callbacks = [];
  thread_switch_armed = false;
  call_at_extra_armed = false;
}
