-- ===== src/Instructions/Begin.antt =====
-- A thread switch callback, and the start of an instruction: retracemodule.c, lines 200 to 272 and
-- 1781 to 1844, and pycore_retrace.h, lines 889 to 934.
pub mod Quiet
use retrace_cpython.Base.{
  ℕ, zero, suc, ◌-◌, ◌==◌, not, ◌&&◌, ◌||◌, if◌then◌else◌, Bool, true, false, Option, none, some,
  List, [], ◌∷◌, ◌++◌, length,
}
use retrace_cpython.Frames.{Frame, Space, frame_is_visible}
use retrace_cpython.Coordinates.Cache.{Answer, py_none, no_memory, answer, thread_delta}
use retrace_cpython.Callbacks.{CallbackState, Callbacks, write_entry, is_some}
use retrace_cpython.Spaces.{ThreadState, write_space, find_thread_space, thread_state_frame}
use retrace_cpython.Spaces.Activation.{begin_visible}
use retrace_cpython.Instructions.{
  Interp, Python, Memory, switched, put_current, check_call_at, thread_ident_object,
  frame_is_in_space, call_transparent_callback,
}

unfoldable pub thread_at : List ThreadState → ℕ → Option ThreadState
thread_at [] address = none
thread_at (tstate ∷ threads) address =
    let rest = thread_at threads address in
    if tstate.identity.address == address then some tstate else rest

unfoldable pub write_thread : List ThreadState → ℕ → ThreadState → List ThreadState
write_thread [] address written = []
write_thread (tstate ∷ threads) address written =
    let rest = write_thread threads address written in
    if tstate.identity.address == address then written ∷ threads else tstate ∷ rest

-- The older frames of a chain are replaced.
unfoldable pub put_older : ℕ → List Frame → List Frame → List Frame
put_older zero frames older = older
put_older (suc n) [] older = older
put_older (suc n) (frame ∷ frames) older = frame ∷ put_older n frames older

-- NULL, None or the items of a tuple.
pub data DeltaReply : Type 0 where
  delta_error : DeltaReply
  delta_none : DeltaReply
  delta_tuple : List ℕ → DeltaReply

unfoldable pub put_delta : ThreadState → List Frame → Answer → ThreadState × DeltaReply
unfolding write_space put_older
put_delta tstate chain py_none = (tstate, delta_none)
put_delta tstate chain no_memory = (tstate, delta_error)
put_delta tstate chain (answer delta frames space) = (
  record tstate {
    frames = put_older (length tstate.frames - length chain) tstate.frames frames;
    spaces = write_space tstate.spaces space.address (λ _. space);
  },
  delta_tuple delta,
)

unfoldable pub delta_in : Bool → ThreadState → Option Space → ThreadState × DeltaReply
unfolding put_delta thread_state_frame thread_delta
delta_in allocated tstate none = (tstate, delta_none)
delta_in allocated tstate (some space) =
    let chain = thread_state_frame tstate space in
    put_delta tstate chain (thread_delta allocated (some space) chain)

-- `retrace_thread_delta_for_tstate` with what it writes to the thread.
unfoldable pub thread_delta_for : Bool → ThreadState → ℕ → ThreadState × DeltaReply
unfolding delta_in find_thread_space
thread_delta_for allocated tstate space_id =
    delta_in allocated tstate (find_thread_space tstate space_id)

-- The first entry with a callback for the space of the frame.
unfoldable pub switch_entry : List CallbackState → ThreadState → Frame → Option CallbackState
unfolding frame_is_in_space
switch_entry [] tstate frame = none
switch_entry (entry ∷ entries) tstate frame =
    let rest = switch_entry entries tstate frame in
    if is_some entry.thread_switch_callback && frame_is_in_space tstate frame entry.space_id
    then some entry
    else rest

abbrev pub set_last : ℕ → CallbackState → CallbackState
set_last thread entry = record entry { last_bytecode_thread = some thread }

unfoldable pub note_last : Interp → ℕ → Interp
unfolding write_entry
note_last interp space_id =
    let callbacks : Callbacks = record interp.callbacks {
      space_callbacks =
          write_entry interp.callbacks.space_callbacks space_id
            (set_last interp.current.identity.address);
    } in
    record interp { callbacks = callbacks }

unfoldable pub call_switch :
    Python → Memory → Interp → Frame → Option ℕ → List ℕ → Option ℕ → Interp
unfolding call_transparent_callback
call_switch python memory interp frame none delta ident = interp
call_switch python memory interp frame (some callback) delta none = interp
call_switch python memory interp frame (some callback) delta (some ident) =
    (call_transparent_callback python memory interp frame.address callback (switched delta ident)).0

-- What is done with the delta of the thread that ran in the space before.
unfoldable pub switch_with : Python → Memory → Interp → Frame → CallbackState → DeltaReply → Interp
unfolding note_last call_switch thread_ident_object
switch_with python memory interp frame entry delta_error = interp
switch_with python memory interp frame entry delta_none = note_last interp entry.space_id
switch_with python memory interp frame entry (delta_tuple delta) =
    let noted = note_last interp entry.space_id in
    let (current, ident) = thread_ident_object memory.int noted.current in
    call_switch python memory (put_current noted current) frame entry.thread_switch_callback delta
      ident

unfoldable pub switch_from :
    Python → Memory → Interp → Frame → CallbackState → Option ThreadState → Interp
unfolding switch_with thread_delta_for write_thread note_last
switch_from python memory interp frame entry none = note_last interp entry.space_id
switch_from python memory interp frame entry (some previous) =
    let (written, reply) = thread_delta_for memory.delta previous entry.space_id in
    switch_with python memory
      (record interp { others = write_thread interp.others previous.identity.address written })
      frame entry reply

-- `none` stands for NULL; a thread that is named is the current one or one of the others.
unfoldable pub switch_last : Python → Memory → Interp → Frame → CallbackState → Option ℕ → Interp
unfolding switch_from thread_at
switch_last python memory interp frame entry none =
    switch_from python memory interp frame entry none
switch_last python memory interp frame entry (some last) =
    if last == interp.current.identity.address
    then interp
    else switch_from python memory interp frame entry (thread_at interp.others last)

unfoldable pub switch_found : Python → Memory → Interp → Frame → Option CallbackState → Interp
unfolding switch_last
switch_found python memory interp frame none = interp
switch_found python memory interp frame (some entry) =
    switch_last python memory interp frame entry entry.last_bytecode_thread

abbrev pub has_retrace_id : Option ThreadState → Bool
has_retrace_id none = false
has_retrace_id (some tstate) = not (tstate.identity.retrace_thread_id == 0)

-- `previous` is a thread other than the current one.
unfoldable pub deliver_thread_switch_callback : Python → Memory → Interp → ℕ → Frame → Interp
unfolding switch_found switch_entry thread_at
deliver_thread_switch_callback python memory interp previous frame =
    if not (has_retrace_id (thread_at interp.others previous))
      || ((interp.current.identity.retrace_thread_id == 0) || interp.current.thread_callback_active)
    then interp
    else switch_found python memory interp frame
        (switch_entry interp.callbacks.space_callbacks interp.current frame)

abbrev pub same_address : Option ℕ → ℕ → Bool
same_address none address = false
same_address (some a) address = a == address

unfoldable pub switch_if_armed : Python → Memory → Interp → Frame → Option ℕ → Interp
unfolding deliver_thread_switch_callback
switch_if_armed python memory interp frame none = interp
switch_if_armed python memory interp frame (some previous) =
    if interp.callbacks.thread_switch_armed
    then deliver_thread_switch_callback python memory interp previous frame
    else interp

unfoldable pub note_bytecode_thread : Python → Memory → Interp → Frame → Interp
unfolding switch_if_armed
note_bytecode_thread python memory interp frame =
    if same_address interp.last_bytecode_thread interp.current.identity.address
    then interp
    else let after = switch_if_armed python memory interp frame interp.last_bytecode_thread in
      record after { last_bytecode_thread = some interp.current.identity.address }

-- The checks for callbacks; the result tells whether the call returned 0.
unfoldable pub begin_checked : Python → Memory → Interp × Bool → Frame → Interp × Bool
unfolding note_bytecode_thread
begin_checked python memory (interp, false) frame = (interp, false)
begin_checked python memory (interp, true) frame =
    (note_bytecode_thread python memory interp frame, true)

unfoldable pub begin_callbacks : Python → Memory → Interp → Frame → Interp × Bool
unfolding begin_checked check_call_at frame_is_visible
begin_callbacks python memory interp frame =
    if interp.current.thread_callback_active
    then (interp, true)
    else begin_checked python memory
        (if (interp.callbacks.root.armed || interp.callbacks.call_at_extra_armed)
            && frame_is_visible frame
          then check_call_at python memory interp frame
          else (interp, true))
        frame

unfoldable pub begin_frame : Python → Memory → Interp → List Frame → Interp × Bool
unfolding begin_callbacks begin_visible
begin_frame python memory interp [] = (interp, true)
begin_frame python memory interp (frame ∷ frames) =
    let begun = begin_visible frame in
    let current : ThreadState = record interp.current { frames = begun ∷ frames } in
    begin_callbacks python memory (put_current interp current) begun

-- The current thread begins an instruction of its newest frame.
unfoldable pub begin_instruction : Python → Memory → Interp → Interp × Bool
unfolding begin_frame
begin_instruction python memory interp = begin_frame python memory interp interp.current.frames
