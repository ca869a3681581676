-- ===== src/Spaces/Activation.antt =====
-- A frame becomes active in a space and leaves it: pycore_retrace.h, lines 855 to 897 and 936 to 991.
use retrace_cpython.Base.{
  ℕ, ◌+◌, ◌-◌, ◌^◌, ◌==◌, if◌then◌else◌, Bool, true, false, Option, none, some, List, [], ◌∷◌,
}
use retrace_cpython.Words.Arith.{add64}
use retrace_cpython.Threads.Ids.{coordinate_hash_unset}
use retrace_cpython.Frames.{
  Frame, FrameState, Space, Counter, root_counter, frame_counter, scope_counter,
  initial_frame_state, frame_is_visible,
}
use retrace_cpython.Spaces.{
  Scope, ThreadState, Calloc, write_space, thread_owns_space, resolve_current_space,
}

abbrev pub with_state : (FrameState → FrameState) → Frame → Frame
with_state write frame = record frame { retrace = write frame.retrace }

-- A write to the frame at an address.
unfoldable pub write_frame : List Frame → ℕ → (FrameState → FrameState) → List Frame
write_frame [] address write = []
write_frame (frame ∷ frames) address write =
    let rest = write_frame frames address write in
    if frame.address == address then with_state write frame ∷ frames else frame ∷ rest

unfoldable pub write_scope : List Scope → ℕ → (Scope → Scope) → List Scope
write_scope [] address write = []
write_scope (scope ∷ scopes) address write =
    let rest = write_scope scopes address write in
    if scope.address == address then write scope ∷ scopes else scope ∷ rest

abbrev pub count_root : Space → Space
count_root space = record space { root_call_ordinal = add64 space.root_call_ordinal 1 }

abbrev pub count_frame : FrameState → FrameState
count_frame state = record state { current_call_ordinal = add64 state.current_call_ordinal 1 }

abbrev pub count_scope : Scope → Scope
count_scope scope = record scope { local_root_call_ordinal = add64 scope.local_root_call_ordinal 1 }

-- `++*counter`, if it is not NULL.
unfoldable pub count_call : ThreadState → Option Counter → ThreadState
unfolding write_space write_frame write_scope
count_call tstate none = tstate
count_call tstate (some (root_counter a)) = record tstate {
  spaces = write_space tstate.spaces a count_root;
}
count_call tstate (some (frame_counter a)) = record tstate {
  frames = write_frame tstate.frames a count_frame;
}
count_call tstate (some (scope_counter a)) = record tstate {
  scopes = write_scope tstate.scopes a count_scope;
}

unfoldable pub frame_at : List Frame → ℕ → Option Frame
frame_at [] address = none
frame_at (frame ∷ frames) address =
    let rest = frame_at frames address in if frame.address == address then some frame else rest

abbrev pub enter_depth : Space → Space
enter_depth space = record space {
  seen = true;
  depth = if space.depth == 2 ^ 32 - 1 then space.depth else space.depth + 1;
}

abbrev pub leave_depth : Space → Space
leave_depth space = record space { depth = space.depth - 1 }

abbrev pub activated : ℕ → Option Counter → FrameState → FrameState
activated space ordinal_ptr state = record state {
  space = some space;
  current_call_ordinal = 0;
  previous_call_ordinal_ptr = ordinal_ptr;
  coordinate_hash = coordinate_hash_unset;
}

unfoldable pub activate_in : ThreadState → ℕ → Option ℕ → ThreadState × Bool
unfolding write_space write_frame
activate_in tstate frame none = (tstate, false)
activate_in tstate frame (some space) = (
  record tstate {
    spaces = write_space tstate.spaces space enter_depth;
    call_ordinal_ptr = some (frame_counter frame);
    frames = write_frame tstate.frames frame (activated space tstate.call_ordinal_ptr);
  },
  true,
)

-- The activation once the frame is inactive.
unfoldable pub activate_inactive : Calloc → ThreadState → ℕ → ThreadState × Bool
unfolding activate_in resolve_current_space
activate_inactive calloc tstate frame =
    let (resolved, space) = resolve_current_space calloc tstate in activate_in resolved frame space

abbrev pub reset_state : FrameState → FrameState
reset_state state = initial_frame_state

-- By what the frame's state says of its space.
unfoldable pub activate_with : Calloc → ThreadState → ℕ → Option ℕ → ThreadState × Bool
unfolding activate_inactive thread_owns_space write_frame initial_frame_state
activate_with calloc tstate frame none = activate_inactive calloc tstate frame
activate_with calloc tstate frame (some space) =
    if thread_owns_space tstate (some space)
    then (tstate, true)
    else activate_inactive calloc
        (record tstate { frames = write_frame tstate.frames frame reset_state }) frame

unfoldable pub activate_found : Calloc → ThreadState → Option Frame → ThreadState × Bool
unfolding activate_with
activate_found calloc tstate none = (tstate, true)
activate_found calloc tstate (some frame) =
    activate_with calloc tstate frame.address frame.retrace.space

-- The frame is named by its address; the result tells whether the call returned 0.
unfoldable pub activate_frame : Calloc → ThreadState → ℕ → ThreadState × Bool
unfolding activate_found frame_at
activate_frame calloc tstate frame = activate_found calloc tstate (frame_at tstate.frames frame)

abbrev pub is_frame_counter : Option Counter → ℕ → Bool
is_frame_counter none frame = false
is_frame_counter (some (root_counter a)) frame = false
is_frame_counter (some (frame_counter a)) frame = a == frame
is_frame_counter (some (scope_counter a)) frame = false

abbrev pub deactivated : FrameState → FrameState
deactivated state = record state {
  space = none;
  previous_call_ordinal_ptr = none;
  current_call_ordinal = 0;
  coordinate_hash = coordinate_hash_unset;
}

-- A thread whose counter is NULL counts in the root counter of its current space.
abbrev pub or_root_counter : Option Counter → Option ℕ → Option Counter
or_root_counter (some counter) space = some counter
or_root_counter none none = none
or_root_counter none (some space) = some (root_counter space)

unfoldable pub deactivate_in : ThreadState → Frame → ℕ → ThreadState
unfolding count_call write_space write_frame
deactivate_in tstate frame space =
    let previous = frame.retrace.previous_call_ordinal_ptr in
    let ptr =
      if is_frame_counter tstate.call_ordinal_ptr frame.address
      then previous
      else tstate.call_ordinal_ptr in
    let counted = count_call tstate previous in
    record counted {
      spaces = write_space counted.spaces space leave_depth;
      frames = write_frame counted.frames frame.address deactivated;
      call_ordinal_ptr = or_root_counter ptr tstate.current_space;
    }

unfoldable pub deactivate_with : ThreadState → Frame → Option ℕ → ThreadState
unfolding deactivate_in thread_owns_space write_frame initial_frame_state
deactivate_with tstate frame none = tstate
deactivate_with tstate frame (some space) =
    if thread_owns_space tstate (some space)
    then deactivate_in tstate frame space
    else record tstate { frames = write_frame tstate.frames frame.address reset_state }

unfoldable pub deactivate_found : ThreadState → Option Frame → ThreadState
unfolding deactivate_with
deactivate_found tstate none = tstate
deactivate_found tstate (some frame) = deactivate_with tstate frame frame.retrace.space

-- `leave_frame` and `suspend_frame` are this function.
unfoldable pub deactivate_frame : ThreadState → ℕ → ThreadState
unfolding deactivate_found frame_at
deactivate_frame tstate frame = deactivate_found tstate (frame_at tstate.frames frame)

unfoldable pub begin_state : FrameState → FrameState
begin_state state = record state {
  current_call_ordinal = 0;
  coordinate_hash = coordinate_hash_unset;
}

-- What `BeginInstruction` does to the frame, before it looks at the callbacks.
unfoldable pub begin_visible : Frame → Frame
unfolding frame_is_visible begin_state
begin_visible frame = if frame_is_visible frame then with_state begin_state frame else frame
