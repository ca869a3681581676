-- ===== src/Spaces.antt =====
-- The coordinate spaces of a thread, and the frame that it executes: cpython-overlay/Include/internal/pycore_retrace.h,
-- lines 196 to 318, 338 to 383 and 399 to 420, and Modules/retracemodule.c, lines 103 to 123 and 165 to 169.
pub mod Activation
pub mod Writes
pub mod Linked
pub mod Growth
pub mod Scopes
pub mod Find
pub mod Current
pub mod Seeds
mod Tests
use retrace_cpython.Base.{
  ℕ, ◌==◌, not, ◌&&◌, if◌then◌else◌, Bool, true, false, Option, none, some, List, [], ◌∷◌, ◌++◌,
}
use retrace_cpython.Frames.{
  Frame, FrameState, Space, Counter, root_counter, frame_counter, scope_counter, counts_in,
  frame_is_visible, space_id_root, last_call_ordinal_unset,
}
use retrace_cpython.Coordinates.Hash.{space_root_coordinate_hash}
use retrace_cpython.Threads.Ids.{initial_root_coordinate_hash}
use retrace_cpython.Threads.Unique.{Thread}

-- `RetraceSpaceScope`, a variable of the call that enters a space. The scopes of a thread are those
-- of the calls in progress, the innermost first.
pub record Scope : Type 0 where
  pub address : ℕ
  pub previous_space : Option ℕ
  pub previous_space_id : ℕ
  pub previous_call_ordinal_ptr : Option Counter
  pub space : Option ℕ
  pub initial_root_call_ordinal : ℕ
  pub local_root_call_ordinal : ℕ
  pub use_local_root : Bool
  pub active : Bool

-- `_PyRetraceThreadState`, with the ids of the thread (`identity`) and its frames, the one that it
-- executes first. The circle of spaces is a list that begins with the root space and ends with
-- `last_space`; it is never empty.
pub record ThreadState : Type 0 where
  pub identity : Thread
  pub thread_id_object : Option ℕ
  pub spaces : List Space
  pub current_space : Option ℕ
  pub call_ordinal_ptr : Option Counter
  pub inherited_space_id : ℕ
  pub thread_callback_active : Bool
  pub thread_callback_frame : Option ℕ
  pub frames : List Frame
  pub scopes : List Scope

unfoldable pub initialize_space_state : ℕ → ℕ → ℕ → Space
initialize_space_state address space_id root_hash = record {
  address = address;
  space_id = space_id;
  seen = false;
  depth = 0;
  root_call_ordinal = 0;
  last_delta_root_call_ordinal = last_call_ordinal_unset;
  root_coordinate_hash = root_hash;
}

-- The state of a thread whose root space stands at `root`.
unfoldable pub initialize_thread_state : Thread → ℕ → List Frame → ThreadState
unfolding initialize_space_state
initialize_thread_state tstate root frames = record {
  identity = record tstate { cpython_thread_ident = 0; retrace_thread_id = 0 };
  thread_id_object = none;
  spaces = initialize_space_state root space_id_root initial_root_coordinate_hash ∷ [];
  current_space = some root;
  call_ordinal_ptr = some (root_counter root);
  inherited_space_id = space_id_root;
  thread_callback_active = false;
  thread_callback_frame = none;
  frames = frames;
  scopes = [];
}

unfoldable pub find_space : List Space → ℕ → Option Space
find_space [] space_id = none
find_space (space ∷ spaces) space_id =
    let rest = find_space spaces space_id in if space.space_id == space_id then some space else rest

unfoldable pub find_thread_space : ThreadState → ℕ → Option Space
unfolding find_space
find_thread_space tstate space_id = find_space tstate.spaces space_id

-- The space at an address: what a pointer to a space of the thread points to.
unfoldable pub space_at : List Space → ℕ → Option Space
space_at [] address = none
space_at (space ∷ spaces) address =
    let rest = space_at spaces address in if space.address == address then some space else rest

unfoldable pub owns : List Space → ℕ → Bool
owns [] candidate = false
owns (space ∷ spaces) candidate =
    let rest = owns spaces candidate in if space.address == candidate then true else rest

unfoldable pub thread_owns_space : ThreadState → Option ℕ → Bool
unfolding owns
thread_owns_space tstate none = true
thread_owns_space tstate (some candidate) = owns tstate.spaces candidate

-- A write to the space at an address.
unfoldable pub write_space : List Space → ℕ → (Space → Space) → List Space
write_space [] address write = []
write_space (space ∷ spaces) address write =
    let rest = write_space spaces address write in
    if space.address == address then write space ∷ spaces else space ∷ rest

-- The address of a new space, if there is memory for it.
abbrev pub Calloc : Type 0
Calloc = Option ℕ

unfoldable pub append_space : ThreadState → ℕ → Calloc → ThreadState × Option Space
unfolding initialize_space_state
append_space tstate space_id none = (tstate, none)
append_space tstate space_id (some address) =
    let space =
      initialize_space_state address space_id
        (space_root_coordinate_hash tstate.identity.retrace_thread_id) in
    (record tstate { spaces = tstate.spaces ++ space ∷ [] }, some space)

unfoldable pub get_or_append : ThreadState → ℕ → Calloc → Option Space → ThreadState × Option Space
unfolding append_space
get_or_append tstate space_id calloc (some space) = (tstate, some space)
get_or_append tstate space_id calloc none = append_space tstate space_id calloc

-- `none` is the failure NULL.
unfoldable pub get_thread_space : Calloc → ThreadState → ℕ → ThreadState × Option Space
unfolding get_or_append find_thread_space
get_thread_space calloc tstate space_id =
    get_or_append tstate space_id calloc (find_thread_space tstate space_id)

unfoldable pub make_current : ThreadState → ℕ → Option Space → ThreadState × Bool
make_current tstate space_id none = (tstate, false)
make_current tstate space_id (some space) = (
  record tstate {
    current_space = some space.address;
    inherited_space_id = space_id;
    call_ordinal_ptr =
        if space.depth == 0 then some (root_counter space.address) else tstate.call_ordinal_ptr;
  },
  true,
)

-- The result tells whether the call returned 0.
unfoldable pub set_current_space_by_id : Calloc → ThreadState → ℕ → ThreadState × Bool
unfolding make_current get_thread_space
set_current_space_by_id calloc tstate space_id =
    let (found, space) = get_thread_space calloc tstate space_id in
    make_current found space_id space

-- What the current space points to.
unfoldable pub current_space_state : ThreadState → Option ℕ → Option Space
unfolding space_at
current_space_state tstate none = none
current_space_state tstate (some address) = space_at tstate.spaces address

abbrev pub has_id : Option Space → ℕ → Bool
has_id none space_id = false
has_id (some space) space_id = space.space_id == space_id

-- The current space is set anew if it is NULL or not the one with the inherited id. `none` is NULL.
unfoldable pub resolve_current_space : Calloc → ThreadState → ThreadState × Option ℕ
unfolding current_space_state set_current_space_by_id
resolve_current_space calloc tstate =
    if has_id (current_space_state tstate tstate.current_space) tstate.inherited_space_id
    then (tstate, tstate.current_space)
    else let (changed, ok) = set_current_space_by_id calloc tstate tstate.inherited_space_id in
      (changed, if ok then changed.current_space else none)

-- A frame pointer stands for the chain of frames from it on; none is NULL.
unfoldable pub nearest_visible_frame : List Frame → List Frame
unfolding frame_is_visible
nearest_visible_frame [] = []
nearest_visible_frame (frame ∷ frames) =
    let rest = nearest_visible_frame frames in
    if frame_is_visible frame then frame ∷ frames else rest

unfoldable pub nearest_visible_frame_in_space : List Frame → ℕ → List Frame
unfolding counts_in
nearest_visible_frame_in_space [] space = []
nearest_visible_frame_in_space (frame ∷ frames) space =
    let rest = nearest_visible_frame_in_space frames space in
    if counts_in frame space then frame ∷ frames else rest

-- The chain from the frame at an address on.
unfoldable pub chain_from : List Frame → ℕ → List Frame
chain_from [] address = []
chain_from (frame ∷ frames) address =
    let rest = chain_from frames address in
    if frame.address == address then frame ∷ frames else rest

unfoldable pub callback_frames : ThreadState → Option ℕ → List Frame
unfolding chain_from
callback_frames tstate none = []
callback_frames tstate (some address) = chain_from tstate.frames address

unfoldable pub current_thread_frame : ThreadState → List Frame
unfolding callback_frames current_space_state
current_thread_frame tstate =
    if tstate.thread_callback_active
      && not (has_id (current_space_state tstate tstate.current_space) space_id_root)
    then callback_frames tstate tstate.thread_callback_frame
    else tstate.frames

-- For a space that is not NULL, as all callers have it.
unfoldable pub thread_state_frame : ThreadState → Space → List Frame
unfolding callback_frames current_space_state
thread_state_frame tstate space =
    if tstate.thread_callback_active
      && not (has_id (current_space_state tstate tstate.current_space) space.space_id)
    then callback_frames tstate tstate.thread_callback_frame
    else tstate.frames
