-- ===== src/Spaces/Seeds/Tests.antt =====
-- A thread that is started in a space, and the first thread.
use retrace_cpython.Base.{
  ℕ, ◌≡◌, ◌≢◌, refl, arith, true, false, Option, none, some, List, [], ◌∷◌, done,
}
use retrace_cpython.Frames.{
  Frame, FrameState, initial_frame_state, Space, space_id_root, root_counter,
}
use retrace_cpython.Threads.Unique.{Thread, thread_id_is_active}
use retrace_cpython.Threads.Unique.Laws.{candidate}
use retrace_cpython.Spaces.{space_at, ThreadState, initialize_thread_state}
use retrace_cpython.Spaces.Seeds.{seed_thread_state}
use retrace_cpython.Spaces.Seeds.Seeded.{Seeded, seed_thread_state-Seeded}
use retrace_cpython.Spaces.Seeds.Parents.{Starts, by_parent, parent_seed}
use retrace_cpython.Threads.Ids.Laws.{compose_thread_id-IsThreadId}

abbrev thread_of : ℕ → ℕ → Thread
thread_of address id = record {
  address = address;
  thread_id = 70;
  cpython_thread_ident = 0;
  retrace_thread_id = id;
}

abbrev in_space : ℕ → ℕ → Space
in_space address id = record {
  address = address;
  space_id = id;
  seen = true;
  depth = 0;
  root_call_ordinal = 0;
  last_delta_root_call_ordinal = 0;
  root_coordinate_hash = 5;
}

abbrev running : Frame
running =
    let state : FrameState = record initial_frame_state { space = some 100 } in
    record { address = 1; lasti = 40; owned_by_cstack = false; incomplete = false; retrace = state }

-- The parent runs in space 5.
abbrev parent : ThreadState
parent = record {
  identity = thread_of 9 77;
  thread_id_object = none;
  spaces = in_space 90 space_id_root ∷ in_space 100 5 ∷ [];
  current_space = some 100;
  call_ordinal_ptr = some (root_counter 100);
  inherited_space_id = 5;
  thread_callback_active = false;
  thread_callback_frame = none;
  frames = running ∷ [];
  scopes = [];
}

abbrev threads : List Thread
threads = thread_of 9 77 ∷ thread_of 8 0 ∷ []

abbrev child : ThreadState
child = initialize_thread_state (thread_of 8 0) 300 []

parent-Starts :
    Starts none child (some parent) (some parent) 5 (parent_seed parent (in_space 100 5))
unfolding initialize_thread_state space_at
parent-Starts =
    by_parent (λ e. ground (arith, e)) (record { current = refl; there = refl })
      (λ e. ground (arith, e)) refl

-- A thread id of space 5 is none of the ids of the threads.
first_is_free :
    thread_id_is_active threads 8 (candidate threads 8 5 (parent_seed parent (in_space 100 5)) 0)
    ≡ false
unfolding candidate thread_id_is_active
first_is_free =
    let id = compose_thread_id-IsThreadId 5 (parent_seed parent (in_space 100 5)) in
    ground (arith, id.space, id.nonzero)

fresh_address : ◌≢◌ {A = Option ℕ} (some 400) (some 300)
fresh_address e = ground (arith, e)

seed_thread_state-Seeded_example :
    (child' : ThreadState) × (seed_thread_state 1 none none (some 400) threads (some parent) child
      ≡ done (some parent, child'))
    × Seeded threads (thread_of 8 0) 300 5 (parent_seed parent (in_space 100 5)) 0 (some 400) child'
seed_thread_state-Seeded_example =
    seed_thread_state-Seeded none none threads (thread_of 8 0) 300 (some 400) 0 parent-Starts
      fresh_address first_is_free
