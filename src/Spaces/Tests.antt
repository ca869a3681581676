-- ===== src/Spaces/Tests.antt =====
-- A thread that calls a function from its root frame, in its root space and in another.
use retrace_cpython.Base.{ℕ, ◌≡◌, ◌≢◌, refl, arith, ◌<◌, false, none, some, [], ◌∷◌}
use retrace_cpython.Frames.{Frame, root_counter, initial_frame_state}
use retrace_cpython.Threads.Unique.{Thread}
use retrace_cpython.Spaces.{ThreadState, initialize_thread_state, space_at}
use retrace_cpython.Spaces.Activation.{activate_frame, deactivate_frame, frame_at, count_call}
use retrace_cpython.Spaces.Writes.{nothing, count_of}
use retrace_cpython.Spaces.{find_space, set_current_space_by_id, current_thread_frame}
use retrace_cpython.Base.{◌+◌, ◌-◌, ◌^◌}
use retrace_cpython.Spaces.Growth.Pair.{depth_of}
use retrace_cpython.Spaces.Activation.{write_scope}
use retrace_cpython.Spaces.Find.{Distinct, nothing as no_spaces, another as one_space}
use retrace_cpython.Spaces.Current.{Set, set_current_space_by_id-Set}
use retrace_cpython.Spaces.Scopes.{
  Callable, enter_space, call_with_space_id, exclude, wrapper_space_id,
}
use retrace_cpython.Spaces.Scopes.Ids.{allocated, IsDynamic, allocated_distinct}
use retrace_cpython.Spaces.Scopes.Restore.{
  Keeps, Called, same_scope, no_scopes, call_with_space_id-Called,
}
use retrace_cpython.Spaces.Linked.{bottom, settled}
use retrace_cpython.Spaces.Growth.{
  location, RunsIn, links, activates, deactivates, Runs, stays, hidden, shown,
}
use retrace_cpython.Spaces.Growth.Run.{Progress, location-Runs}
use retrace_cpython.Spaces.Growth.Pair.{Restored, deactivate-activate-Restored}

abbrev identity : Thread
identity = record { address = 7; thread_id = 70; cpython_thread_ident = 0; retrace_thread_id = 0 }

abbrev new_frame : ℕ → Frame
new_frame address = record {
  address = address;
  lasti = 0;
  owned_by_cstack = false;
  incomplete = false;
  retrace = initial_frame_state;
}

abbrev started : ThreadState
started = initialize_thread_state identity 100 []

abbrev on_top : Frame → ThreadState → ThreadState
on_top frame t = record t { frames = frame ∷ t.frames }

-- The root frame is active, and a callee is linked above it.
abbrev root_active : ThreadState
root_active = (activate_frame none (on_top (new_frame 1) started) 1).0

abbrev callee_linked : ThreadState
callee_linked = on_top (new_frame 2) root_active

abbrev callee_left : ThreadState
callee_left = deactivate_frame (activate_frame none callee_linked 2).0 2

started-RunsIn : RunsIn (root_counter 100) 100 started
unfolding initialize_thread_state space_at
started-RunsIn = record {
  current = refl;
  resolved = refl;
  based = refl;
  apart = nothing;
  linked = settled (bottom refl);
}

-- The root frame is linked and activated, and so is the callee, which returns.
calls : Runs 100 3 started callee_left
unfolding activate_frame deactivate_frame frame_at initialize_thread_state space_at
    initial_frame_state count_of
calls =
    shown
      (shown
        (hidden
          (shown (hidden stays (links started (new_frame 1) refl refl refl))
            (activates (on_top (new_frame 1) started) none refl refl refl refl))
          (links root_active (new_frame 2) refl refl refl))
        (activates callee_linked none refl refl refl refl))
      (deactivates (activate_frame none callee_linked 2).0 refl refl (omega arith))

location-Runs_example :
    RunsIn (root_counter 100) 100 callee_left
    × Progress 3
        (location (root_counter 100) 100 started)
        (location (root_counter 100) 100 callee_left)
location-Runs_example = location-Runs calls started-RunsIn

callee_linked-RunsIn : RunsIn (root_counter 100) 100 callee_linked
unfolding activate_frame frame_at initialize_thread_state space_at initial_frame_state
callee_linked-RunsIn =
    (location-Runs
      (hidden
        (shown (hidden stays (links started (new_frame 1) refl refl refl))
          (activates (on_top (new_frame 1) started) none refl refl refl refl))
        (links root_active (new_frame 2) refl refl refl))
      started-RunsIn).0

linked_top : callee_linked.frames ≡ new_frame 2 ∷ root_active.frames
linked_top = refl

new_frame-inactive : (new_frame 2).retrace.space ≡ none
unfolding initial_frame_state
new_frame-inactive = refl

counted_below : count_of callee_linked callee_linked.call_ordinal_ptr + 1 < 2 ^ 64
unfolding count_of activate_frame frame_at initialize_thread_state space_at initial_frame_state
counted_below = omega arith

shallow : depth_of (space_at callee_linked.spaces 100) < 2 ^ 32 - 1
unfolding activate_frame frame_at initialize_thread_state space_at initial_frame_state
shallow = omega arith

deactivate-activate-Restored_example :
    Restored 100 callee_linked
      (new_frame 2)
      (deactivate_frame (activate_frame none callee_linked 2).0 2)
deactivate-activate-Restored_example =
    deactivate-activate-Restored none callee_linked-RunsIn linked_top new_frame-inactive
      counted_below shallow

started-Distinct : Distinct started.spaces
unfolding initialize_thread_state space_at find_space
started-Distinct = one_space refl refl no_spaces

room_for_space : space_at started.spaces 200 ≡ none
unfolding initialize_thread_state space_at
room_for_space = refl

set_current_space_by_id-Set_example :
    Set started 5 (some 200) (set_current_space_by_id (some 200) started 5)
set_current_space_by_id-Set_example =
    set_current_space_by_id-Set (some 200) started 5 started-Distinct room_for_space

-- A call that activates one frame.
abbrev one_call : Callable
one_call t = (count_call t t.call_ordinal_ptr, some 7)

one_call-Keeps : Keeps one_call ((enter_space (some 200) started 900 5).0)
unfolding enter_space initialize_thread_state space_at find_space count_call write_scope
    current_thread_frame
one_call-Keeps = record { scopes = same_scope 1 (omega arith) no_scopes; spaces = λ a h. h }

call_with_space_id-Called_example :
    Called started 5 900 (some 200) one_call (call_with_space_id (some 200) started 900 5 one_call)
call_with_space_id-Called_example =
    call_with_space_id-Called (some 200) started 900 5 one_call started-Distinct room_for_space
      one_call-Keeps

allocated_distinct_example : IsDynamic (allocated 0 2) × (allocated 0 2 ≢ allocated 1 2)
allocated_distinct_example =
    allocated_distinct 2 0 1 (omega arith, omega arith) (omega arith) (omega arith)

exclude_in_disabled : wrapper_space_id exclude 9 ≡ 1
unfolding wrapper_space_id
exclude_in_disabled = refl
