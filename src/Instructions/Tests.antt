-- ===== src/Instructions/Tests.antt =====
-- A thread that stands at the coordinates of a call_at, and the call of its callback.
use retrace_cpython.Threads.Ids.{coordinate_hash_unset}
use retrace_cpython.Base.{subst, Option, ℕ, ◌≡◌, refl, arith, true, false, none, some, [], ◌∷◌}
use retrace_cpython.Frames.{
  Frame, Space, FrameState, initial_frame_state, frame_is_visible, root_counter, space_id_root,
}
use retrace_cpython.Threads.Unique.{Thread}
use retrace_cpython.Callbacks.{
  Target, Callbacks, no_target, find_space_callback_state, some_switch, some_armed,
}
use retrace_cpython.Callbacks.Entries.{nothing as no_entries, another as one_entry}
use retrace_cpython.Callbacks.Sound.{IsCallbacks}
use retrace_cpython.Callbacks.CallAt.{check_call_at_slot}
use retrace_cpython.Spaces.{
  find_thread_space, ThreadState, find_space, space_at, initialize_space_state,
  current_thread_frame,
}
use retrace_cpython.Spaces.Activation.{count_call, write_scope}
use retrace_cpython.Spaces.Scopes.{enter_space}
use retrace_cpython.Spaces.Scopes.Restore.{SameScopes, same_scope, no_scopes}
use retrace_cpython.Instructions.{
  Arrays, Interp, plain, returned_none, Python, Memory, put_current, enter_callback, check_slots,
  call_transparent_callback,
}
use retrace_cpython.Instructions.Begin.{begin_instruction}
use retrace_cpython.Instructions.Begin.Quiet.{Begun, Quiet, begin_instruction-Quiet}
use retrace_cpython.Instructions.Check.First.{First, DueIn, slots, check_slots-First}
use retrace_cpython.Instructions.Transparent.{
  Transparent, SameScopes-refl, call_transparent_callback-Transparent,
}
use retrace_cpython.Instructions.Transparent.Unmoved.{IsScoped, Unmoved}
use retrace_cpython.Instructions.Transparent.Begin.{begin_instruction-Unmoved}

abbrev aim : Target
aim = record {
  armed = true;
  thread_id = 7;
  coordinates = some (40 ∷ 3 ∷ []);
  callback = some 500;
  overshoot_callback = none;
}

-- The call_at's of the root space and of space 5 are armed for the same coordinates.
abbrev both_armed : Callbacks
both_armed = record {
  thread_switch_armed = false;
  space_callbacks =
      (record {
        space_id = 5;
        last_bytecode_thread = none;
        thread_switch_callback = none;
        call_at = aim;
      })
      ∷ [];
  call_at_extra_armed = true;
  root = aim;
}

both_armed-IsCallbacks : IsCallbacks both_armed
unfolding find_space_callback_state some_switch some_armed
both_armed-IsCallbacks = record {
  distinct = one_entry refl no_entries;
  switch = refl;
  extra = refl;
}

abbrev running : Frame
running =
    let state : FrameState = record initial_frame_state {
      space = some 100;
      current_call_ordinal = 3;
    } in
    record { address = 1; lasti = 40; owned_by_cstack = false; incomplete = false; retrace = state }

abbrev space_at_address : ℕ → ℕ → Space
space_at_address address id = record {
  address = address;
  space_id = id;
  seen = true;
  depth = 1;
  root_call_ordinal = 0;
  last_delta_root_call_ordinal = 0;
  root_coordinate_hash = 5;
}

abbrev seventh : Thread
seventh = record { address = 9; thread_id = 70; cpython_thread_ident = 0; retrace_thread_id = 7 }

-- The thread runs in space 5.
abbrev thread : ThreadState
thread = record {
  identity = seventh;
  thread_id_object = none;
  spaces = space_at_address 90 space_id_root ∷ space_at_address 100 5 ∷ [];
  current_space = some 100;
  call_ordinal_ptr = some (root_counter 100);
  inherited_space_id = 5;
  thread_callback_active = false;
  thread_callback_frame = none;
  frames = running ∷ [];
  scopes = [];
}

abbrev arrays : Arrays
arrays = record { root = false; entry = λ space_id. true }

-- The thread has no frame in the root space, and the entry of space 5 is due.
check_slots-First_example :
    First
      (DueIn thread (running ∷ []))
      (slots arrays both_armed)
      ((check_slots arrays both_armed thread (running ∷ [])).1)
check_slots-First_example =
    check_slots-First arrays both_armed thread (running ∷ []) both_armed-IsCallbacks

-- A callback that calls a function.
abbrev python : Python
python callback arguments interp =
    (put_current interp (count_call interp.current interp.current.call_ordinal_ptr), returned_none)

abbrev memory : Memory
memory = record { arrays = arrays; calloc = some 200; delta = true; int = some 7; scope = 900 }

abbrev disarmed : Callbacks
disarmed = record {
  thread_switch_armed = false;
  space_callbacks = [];
  call_at_extra_armed = false;
  root = no_target;
}

abbrev interp_with : Callbacks → Interp
interp_with callbacks = record {
  callbacks = callbacks;
  last_bytecode_thread = some 9;
  current = thread;
  others = [];
}

-- The frame once it has begun the instruction, before the coordinates of the call_at.
abbrev begun : Frame
begun =
    let state : FrameState = record running.retrace {
      current_call_ordinal = 0;
      coordinate_hash = coordinate_hash_unset;
    } in
    record running { retrace = state }

running-Begun : Begun running begun
unfolding frame_is_visible initial_frame_state
running-Begun = record { hidden = λ h. absurd (cc); counts = λ h. refl }

abbrev starting : ThreadState
starting = record thread { frames = begun ∷ [] }

nothing_delivered : (check_slots arrays both_armed starting (begun ∷ [])).1 ≡ none
unfolding check_slots initial_frame_state check_call_at_slot find_thread_space
nothing_delivered = refl

both_wait : First (DueIn starting (begun ∷ [])) (slots arrays both_armed) none
both_wait =
    subst (λ (o : Option ℕ). First (DueIn starting (begun ∷ [])) (slots arrays both_armed) o)
      nothing_delivered
      (check_slots-First arrays both_armed starting (begun ∷ []) both_armed-IsCallbacks)

begin_instruction-Quiet_example :
    Quiet
      (interp_with both_armed)
      (begun ∷ [])
      (begin_instruction python memory (interp_with both_armed))
begin_instruction-Quiet_example =
    begin_instruction-Quiet python memory (interp_with both_armed) refl running-Begun
      both_armed-IsCallbacks refl both_wait

abbrev entered : Interp
entered = (enter_callback memory (interp_with both_armed) 1).0

python-SameScopes : SameScopes entered.current.scopes (python 500 plain entered).0.current.scopes
unfolding enter_callback enter_space space_at find_space count_call write_scope current_thread_frame
    initialize_space_state
python-SameScopes = same_scope 1 (omega arith) no_scopes

call_transparent_callback-Transparent_example :
    Transparent thread
      (call_transparent_callback python memory (interp_with both_armed) 1 500 plain).0.current
call_transparent_callback-Transparent_example =
    call_transparent_callback-Transparent python memory (interp_with both_armed) 1 500 plain
      python-SameScopes

-- A callback that disarms everything.
abbrev disarming : Python
disarming callback arguments interp = (record interp { callbacks = disarmed }, returned_none)

disarming-IsScoped : IsScoped disarming
disarming-IsScoped callback arguments interp = SameScopes-refl interp.current.scopes

begin_instruction-Unmoved_example :
    Unmoved thread (begin_instruction disarming memory (interp_with both_armed)).0.current
begin_instruction-Unmoved_example =
    begin_instruction-Unmoved disarming disarming-IsScoped memory (interp_with both_armed)
