-- ===== src/Instructions.antt =====
-- What happens before each instruction: callbacks at coordinates and at thread switches. Code:
-- cpython-overlay/Modules/retracemodule.c, lines 1665 to 1844 and 1907 to 1974, and
-- cpython-overlay/Include/internal/pycore_retrace.h, lines 684 to 701 and 889 to 934.
pub mod Check
pub mod Begin
pub mod Transparent
mod Tests
use retrace_cpython.Base.{
  ℕ, ◌==◌, not, ◌&&◌, ◌||◌, if◌then◌else◌, Bool, true, false, Option, none, some, List, [], ◌∷◌,
  ◌++◌,
}
use retrace_cpython.Frames.{Frame, Space, frame_is_visible, space_id_root, space_id_disabled}
use retrace_cpython.Coordinates.Cache.{Answer, py_none, no_memory, answer, thread_delta}
use retrace_cpython.Callbacks.{CallbackState, Callbacks, write_entry}
use retrace_cpython.Callbacks.CallAt.{check_call_at_slot}
use retrace_cpython.Spaces.{
  ThreadState, Calloc, write_space, find_thread_space, current_space_state, has_id,
  thread_state_frame, chain_from,
}
use retrace_cpython.Spaces.Activation.{begin_visible}
use retrace_cpython.Spaces.Scopes.{enter_space, leave_space}

-- The part of an interpreter for callbacks, the thread that executes and the other threads. A thread
-- is named by its address.
pub record Interp : Type 0 where
  pub callbacks : Callbacks
  pub last_bytecode_thread : Option ℕ
  pub current : ThreadState
  pub others : List ThreadState

-- What a callback is called with, and how it ends.
pub data Arguments : Type 0 where
  plain : Arguments
  switched : List ℕ → ℕ → Arguments

pub data Reply : Type 0 where
  raised returned_none returned_other : Reply

-- The call of a Python object, named by its address; it may do anything to the interpreter.
abbrev pub Python : Type 0
Python = ℕ → Arguments → Interp → Interp × Reply

-- What the allocator answers to the comparisons with the slots, the root's and those of the entries
-- by their space.
pub record Arrays : Type 0 where
  pub root : Bool
  pub entry : ℕ → Bool

-- What the allocator answers: for the comparisons, for a space, for an entry of the delta, for an
-- int, and where the scope of the call stands.
pub record Memory : Type 0 where
  pub arrays : Arrays
  pub calloc : Calloc
  pub delta : Bool
  pub int : Option ℕ
  pub scope : ℕ

abbrev pub set_active : ThreadState → Bool → Option ℕ → ThreadState
set_active tstate active frame = record tstate {
  thread_callback_active = active;
  thread_callback_frame = frame;
}

abbrev pub put_current : Interp → ThreadState → Interp
put_current interp tstate = record interp { current = tstate }

-- The thread enters the disabled space for a callback at a frame.
unfoldable pub enter_callback : Memory → Interp → ℕ → Interp × Bool
unfolding enter_space
enter_callback memory interp frame =
    let (entered, ok) =
      enter_space memory.calloc (set_active interp.current true (some frame)) memory.scope
        space_id_disabled in
    (put_current interp entered, ok)

unfoldable pub leave_callback : Interp → Interp
unfolding leave_space
leave_callback interp = put_current interp (set_active (leave_space interp.current) false none)

abbrev pub is_none_reply : Reply → Bool
is_none_reply raised = false
is_none_reply returned_none = true
is_none_reply returned_other = false

unfoldable pub call_entered : Python → ℕ → Arguments → Interp × Bool → Interp × Bool
unfolding leave_callback
call_entered python callback arguments (entered, false) =
    (put_current entered (set_active entered.current false none), false)
call_entered python callback arguments (entered, true) =
    let (after, reply) = python callback arguments entered in
    (leave_callback after, is_none_reply reply)

-- The result tells whether the call returned 0. A switch callback is called in the same way; its
-- result is not looked at.
unfoldable pub call_transparent_callback :
    Python → Memory → Interp → ℕ → ℕ → Arguments → Interp × Bool
unfolding call_entered enter_callback
call_transparent_callback python memory interp frame callback arguments =
    call_entered python callback arguments (enter_callback memory interp frame)

-- The walk over the entries, each one's successor being read before its check. The first callback
-- that is due ends it.
unfoldable pub walk_entries :
    Arrays → List CallbackState → Callbacks → ThreadState → List Frame → Callbacks × Option ℕ
walk_entries arrays [] callbacks tstate frames = (callbacks, none)
walk_entries arrays (entry ∷ entries) callbacks tstate frames =
    let (checked, delivered) =
      check_call_at_slot false (arrays.entry entry.space_id) callbacks
        tstate.identity.retrace_thread_id frames entry.space_id entry.call_at
        (find_thread_space tstate entry.space_id) in
    let rest = walk_entries arrays entries checked tstate frames in
    elim delivered [ none ↦ rest | some callback ↦ (checked, some callback) ]

-- The root slot is checked first.
unfoldable pub check_slots : Arrays → Callbacks → ThreadState → List Frame → Callbacks × Option ℕ
unfolding walk_entries
check_slots arrays callbacks tstate frames =
    let (checked, delivered) =
      check_call_at_slot true arrays.root callbacks tstate.identity.retrace_thread_id frames
        space_id_root callbacks.root (find_thread_space tstate space_id_root) in
    let rest = walk_entries arrays checked.space_callbacks checked tstate frames in
    elim delivered [
      | some callback ↦ (checked, some callback)
      | none ↦ if checked.call_at_extra_armed then rest else (checked, none)
    ]

unfoldable pub deliver_callback : Python → Memory → Interp → ℕ → Option ℕ → Interp × Bool
unfolding call_transparent_callback
deliver_callback python memory interp frame none = (interp, true)
deliver_callback python memory interp frame (some callback) =
    call_transparent_callback python memory interp frame callback plain

-- The frame that executes is the newest one of the current thread.
unfoldable pub check_call_at : Python → Memory → Interp → Frame → Interp × Bool
unfolding check_slots deliver_callback
check_call_at python memory interp frame =
    let tstate = interp.current in
    let callbacks = interp.callbacks in
    if (tstate.identity.retrace_thread_id == 0)
      || (tstate.thread_callback_active
          || (not callbacks.root.armed && not callbacks.call_at_extra_armed))
    then (interp, true)
    else let (checked, delivered) =
        check_slots memory.arrays callbacks tstate (chain_from tstate.frames frame.address) in
      deliver_callback python memory (record interp { callbacks = checked }) frame.address delivered

-- The thread id as an int, which is made once; `none` is an error.
unfoldable pub ident_object : ThreadState → Option ℕ → Option ℕ → ThreadState × Option ℕ
ident_object tstate made (some ident) = (tstate, some ident)
ident_object tstate none none = (tstate, none)
ident_object tstate (some ident) none =
    (record tstate { thread_id_object = some ident }, some ident)

unfoldable pub thread_ident_object : Option ℕ → ThreadState → ThreadState × Option ℕ
unfolding ident_object
thread_ident_object made tstate =
    if tstate.identity.retrace_thread_id == 0
    then (tstate, none)
    else ident_object tstate made tstate.thread_id_object

unfoldable pub frame_is_in_space : ThreadState → Frame → ℕ → Bool
unfolding frame_is_visible current_space_state
frame_is_in_space tstate frame space_id =
    frame_is_visible frame && has_id (current_space_state tstate frame.retrace.space) space_id
