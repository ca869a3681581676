-- ===== src/Callbacks/Tests.antt =====
-- Callbacks of two spaces, and a call_at that is hit.
use retrace_cpython.Base.{◌≡◌, refl, ◌⊎◌, true, false, none, some, List, [], ◌∷◌}
use retrace_cpython.Frames.{Frame, Space, FrameState, initial_frame_state}
use retrace_cpython.Coordinates.Fill.{coordinates}
use retrace_cpython.Callbacks.{
  Target, Callbacks, no_target, find_space_callback_state, some_switch, some_armed,
  set_thread_switch_callback,
}
use retrace_cpython.Callbacks.Entries.{nothing, another}
use retrace_cpython.Callbacks.Sound.{IsCallbacks}
use retrace_cpython.Callbacks.Switch.{Switched, set_thread_switch_callback-Switched}
use retrace_cpython.Callbacks.CallAt.{check_call_at_slot, clear_call_at, arm_call_at}
use retrace_cpython.Callbacks.CallAt.Arm.{Armed, arm_call_at-Armed}
use retrace_cpython.Callbacks.CallAt.Clear.{Cleared, clear_call_at-Cleared}
use retrace_cpython.Callbacks.CallAt.Check.{Verdict, check_call_at_slot-Verdict}

abbrev aim : Target
aim = record {
  armed = true;
  thread_id = 7;
  coordinates = some (40 ∷ 3 ∷ []);
  callback = some 500;
  overshoot_callback = none;
}

-- Space 3 has a thread switch callback, and space 5 a call_at.
abbrev two_spaces : Callbacks
two_spaces = record {
  thread_switch_armed = true;
  space_callbacks =
      (record {
        space_id = 3;
        last_bytecode_thread = none;
        thread_switch_callback = some 300;
        call_at = no_target;
      })
      ∷ (record {
        space_id = 5;
        last_bytecode_thread = none;
        thread_switch_callback = none;
        call_at = aim;
      })
      ∷ [];
  call_at_extra_armed = true;
  root = no_target;
}

two_spaces-IsCallbacks : IsCallbacks two_spaces
unfolding find_space_callback_state some_switch some_armed
two_spaces-IsCallbacks = record {
  distinct = another refl (another refl nothing);
  switch = refl;
  extra = refl;
}

set_thread_switch_callback-Switched_example :
    ((set_thread_switch_callback true two_spaces 5 (some 400) none ≡ (two_spaces, false))
      × (true ≡ false))
    ⊎ ((interp : Callbacks) × (set_thread_switch_callback true two_spaces 5 (some 400) none
          ≡ (interp, true))
        × Switched two_spaces 5 (some 400) interp)
set_thread_switch_callback-Switched_example =
    set_thread_switch_callback-Switched two_spaces two_spaces-IsCallbacks 5 true (some 400) none

clear_call_at-Cleared_example : Cleared two_spaces 5 (clear_call_at two_spaces 5)
clear_call_at-Cleared_example = clear_call_at-Cleared two_spaces two_spaces-IsCallbacks 5

abbrev here : List Frame
here =
    let state : FrameState = record initial_frame_state {
      space = some 100;
      current_call_ordinal = 3;
    } in
    (record {
      address = 1;
      lasti = 40;
      owned_by_cstack = false;
      incomplete = false;
      retrace = state;
    })
    ∷ []

abbrev fifth : Space
fifth = record {
  address = 100;
  space_id = 5;
  seen = true;
  depth = 1;
  root_call_ordinal = 0;
  last_delta_root_call_ordinal = 0;
  root_coordinate_hash = 5;
}

check_call_at_slot-Verdict_example :
    Verdict true two_spaces 5 500 none
      (40 ∷ 3 ∷ [])
      (coordinates here 100)
      (check_call_at_slot false true two_spaces 7 here 5 aim (some fifth))
check_call_at_slot-Verdict_example =
    check_call_at_slot-Verdict false true two_spaces here 5 aim two_spaces-IsCallbacks refl
      (40 ∷ 3 ∷ []) fifth refl refl refl refl refl

arm_call_at-Armed_example :
    ((arm_call_at true two_spaces 3 aim ≡ (clear_call_at two_spaces 3, false))
      × (true ≡ false)
      × Cleared two_spaces 3 (clear_call_at two_spaces 3))
    ⊎ ((interp : Callbacks) × (arm_call_at true two_spaces 3 aim ≡ (interp, true))
        × Armed two_spaces 3 aim interp)
arm_call_at-Armed_example = arm_call_at-Armed two_spaces two_spaces-IsCallbacks 3 aim refl true
